-- ===== src/Report/Handler.antt =====
-- The requests on reports, internal/api/handler/report.go, over the engine's channel of tasks
-- (internal/report/engine.go) and the store. Which statements fail and what the identifiers and the
-- configured types are is an argument; the repository's configuration row, which the creation also
-- ensures, is left out.
use Prim.Native.String.{◌++◌}
use verustcode.Base.{
  ℕ, String, Bool, true, false, none, some, List, [], ◌∷◌, ltb, length, str_eq, if◌then◌else◌,
}
use mathlib.Core.List.{◌++◌ as append}
use verustcode.Base.Int.{pos, ◌+ℤ◌, wrap64}
use verustcode.Report.{Report, ReportStatus, pending, failed, cancelled}
use verustcode.Report.Store.{ReportDatabase, get_report, save_report, fail_report, cancel_by_id}

-- `ReportTask`: the report, and whether its callback is set.
pub record ReportTask : Type 0 where
  pub report : Report
  pub has_callback : Bool

-- The channel holds at most 100 tasks.
abbrev pub capacity : ℕ
capacity = 100

-- `Enqueue`, and `Submit` for its test of the channel: the tasks and whether there was room.
unfoldable pub enqueue : ReportTask → List ReportTask → List ReportTask × Bool
enqueue task tasks =
    if ltb (length tasks) capacity then (append tasks (task ∷ []), true) else (tasks, false)

pub record Server : Type 0 where
  pub tasks : List ReportTask
  pub database : ReportDatabase

-- The HTTP status and the message, empty where the code sends data.
pub record Answer : Type 0 where
  pub code : ℕ
  pub message : String

pub data Request : Type 0 where
  insert_report update_failed cancel_row save_retry find_row : Request

pub record Environment : Type 0 where
  pub fails : Request → Bool
  pub known_type : String → Bool
  pub new_id : String

pub record CreateReportRequest : Type 0 where
  pub repo_url : String
  pub ref : String
  pub report_type : String
  pub title : String

abbrev pub new_report : String → CreateReportRequest → Report
new_report id req = record {
  id = id;
  repo_url = req.repo_url;
  ref = req.ref;
  repo_path = "";
  report_type = req.report_type;
  title = req.title;
  status = pending;
  structure = [];
  total_sections = 0;
  current_section = 0;
  content = [];
  summary = "";
  started_at = none;
  completed_at = none;
  error_message = "";
  retry_count = pos 0;
}

abbrev pub queue_full : String
queue_full = "report queue is full"

abbrev pub answer : ℕ → String → Answer
answer code message = record { code = code; message = message }

-- `Create`.
unfoldable pub create_row : Report → ReportDatabase → ReportDatabase
create_row row db = record db { reports = append db.reports (row ∷ []) }

module _ (env : Environment) where
  -- `CreateReport` from `Submit` on.
  unfoldable pub submit_created : Report → Server → Server × Answer
  unfolding enqueue
  submit_created row st =
      let (tasks, accepted) = enqueue (record { report = row; has_callback = true }) st.tasks in
      if accepted then (record st { tasks = tasks }, answer 202 "") else (
        record st {
          database =
              if env.fails update_failed
              then st.database
              else fail_report row.id failed queue_full st.database;
        },
        answer 500 queue_full,
      )

  -- `CreateReport`.
  unfoldable pub create_report : CreateReportRequest → Server → Server × Answer
  unfolding create_row
  create_report req st =
      let row : Report = new_report env.new_id req in
      if env.known_type req.report_type
      then if env.fails insert_report
        then (st, answer 500 "Failed to create report")
        else submit_created row (record st { database = create_row row st.database })
      else (st, answer 400 ("Invalid report type: " ++ req.report_type))

  -- `CancelReport`.
  unfoldable pub cancel_report : String → Server → Server × Answer
  cancel_report id st =
      let (db, changed) = cancel_by_id id st.database in
      if str_eq id ""
      then (st, answer 400 "Invalid report ID")
      else if env.fails cancel_row
      then (st, answer 500 "Database error")
      else if changed
      then (record st { database = db }, answer 200 "Report cancelled")
      else (record st { database = db }, answer 404 "Report not found or cannot be cancelled")

  abbrev pub may_retry : ReportStatus → Bool
  may_retry failed = true
  may_retry cancelled = true
  may_retry _ = false

  abbrev pub retried : Report → Report
  retried r = record r {
    status = pending;
    retry_count = wrap64 (r.retry_count +ℤ pos 1);
    error_message = "";
  }

  -- `RetryReport` of a report that may be retried.
  unfoldable pub retry_row : Report → Server → Server × Answer
  unfolding enqueue
  retry_row row st =
      let (tasks, accepted) =
        enqueue (record { report = retried row; has_callback = true }) st.tasks in
      if env.fails save_retry
      then (st, answer 500 "Database error")
      else if accepted
      then (
        record { tasks = tasks; database = save_report (retried row) st.database },
        answer 200 "Report retry initiated",
      )
      else (record st { database = save_report (retried row) st.database }, answer 500 queue_full)

  -- `RetryReport`.
  unfoldable pub retry_report : String → Server → Server × Answer
  retry_report id st =
      if str_eq id ""
      then (st, answer 400 "Invalid report ID")
      else if env.fails find_row
      then (st, answer 404 "Report not found")
      else elim (get_report id st.database) [
        | none ↦ (st, answer 404 "Report not found")
        | some row ↦
            if may_retry row.status
            then retry_row row st
            else (st, answer 400 "Only failed or cancelled reports can be retried")
      ]
