-- ===== src/Report/Answers.antt =====
-- What the requests of internal/api/handler/report.go leave behind.
use verustcode.Base.{
  String, true, false, some, List, [], ◌≢◌, ◌∷◌, ◌++◌, ◌≡◌, ◌⊎◌, inl, inr, refl, arith, Bool-cases,
  any, All, eq_refl, eq_iff, str_eq, ltb, length, subst,
}
use verustcode.Store.Rows.{update_where-All}
use verustcode.Report.{Report, failed, pending}
use verustcode.Report.Store.{ReportDatabase, get_report, is_report, fail_report, save_report}
use verustcode.Report.Saved.{first_where-added, get_report-save_report, get_report-own}
use verustcode.Report.Handler.{
  capacity, enqueue, ReportTask, Server, Answer, answer, Request, update_failed, find_row,
  save_retry, Environment, CreateReportRequest, new_report, queue_full, create_row, submit_created,
  create_report, may_retry, retried, retry_row, retry_report,
}

-- A row of that id says that the report failed.
abbrev pub FailedIf : String → Report → Type 0
FailedIf id r = r.id ≡ id → r.status ≡ failed

pub fail_report-FailedIf :
    (id msg : String) (db : ReportDatabase)
    → All (FailedIf id) (fail_report id failed msg db).reports
unfolding fail_report
fail_report-FailedIf id msg db =
    update_where-All (is_report id) (FailedIf id)
      (λ r. record r { status = failed; error_message = msg }) db.reports (λ r this own. refl)
      (λ r other own. absurd (ground (arith, eq_iff r.id id)))

-- The report is accepted: its row is pending and its task the last of the channel. Or it is refused
-- with an error status: the channel is as it was, and so are the tables, or its row says failed.
abbrev pub Answered : Environment → CreateReportRequest → Server → Server × Answer → Type 0
Answered env req st (st', a) =
    ((a.code ≡ 202)
      × (get_report env.new_id st'.database ≡ some (new_report env.new_id req))
      × (st'.tasks
          ≡ st.tasks ++ (record { report = new_report env.new_id req; has_callback = true } ∷ [])))
    ⊎ ((ltb a.code 400 ≡ false)
        × (st'.tasks ≡ st.tasks)
        × ((st'.database ≡ st.database) ⊎ All (FailedIf env.new_id) st'.database.reports))

-- CreateReport accepts a report, whose row is then pending and whose task the last of the channel, or
-- refuses it, and then the channel is as it was and so are the tables or the row of the report says
-- failed, where the identifier is new and the update to failed is carried out.
pub create_report-Answered :
    (env : Environment) (req : CreateReportRequest) (st : Server)
    → env.fails update_failed ≡ false
    → any (is_report env.new_id) st.database.reports ≡ false
    → Answered env req st (create_report env req st)
unfolding create_report submit_created create_row enqueue get_report
create_report-Answered env req st updates fresh =
    elim (Bool-cases (env.known_type req.report_type)) [
      | inr unknown ↦ rw unknown (inr (refl, refl, inl refl))
      | inl known ↦ elim (Bool-cases (env.fails Request.insert_report)) [
        | inl failing ↦ rw (known, failing) (inr (refl, refl, inl refl))
        | inr inserts ↦ elim (Bool-cases (ltb (length st.tasks) capacity)) [
          | inl room ↦
              rw (known, inserts, room)
                (inl (
                  refl,
                  first_where-added (is_report env.new_id) (new_report env.new_id req)
                      (eq_refl env.new_id) st.database.reports fresh,
                  refl,
                ))
          | inr full ↦
              rw (known, inserts, full, updates)
                (inr (refl, refl, inr (fail_report-FailedIf env.new_id queue_full _)))
        ]
      ]
    ]

retry_report-refused :
    (env : Environment) (id : String) (st : Server) (row : Report)
    → str_eq id "" ≡ false
    → env.fails find_row ≡ false
    → get_report id st.database ≡ some row
    → may_retry env row.status ≡ false
    → retry_report env id st ≡ (st, answer 400 "Only failed or cancelled reports can be retried")
unfolding retry_report
retry_report-refused env id st row named finds found done = rw (named, finds, found, done) refl

-- None of the tasks is one of the report of that id.
abbrev pub HasNoTask : String → List ReportTask → Type 0
HasNoTask id tasks = All (λ (t : ReportTask). t.report.id ≢ id) tasks

-- A retry of a report that has no task in the channel, when the channel is full, answers with an error
-- and leaves the report pending and still without a task, and a further retry refuses it, where the
-- queries and the update succeed and the report was failed or cancelled.
pub retry_report-strands :
    (env : Environment) (id : String) (st : Server) (row : Report)
    → str_eq id "" ≡ false
    → env.fails find_row ≡ false
    → env.fails save_retry ≡ false
    → get_report id st.database ≡ some row
    → may_retry env row.status ≡ true
    → ltb (length st.tasks) capacity ≡ false
    → HasNoTask id st.tasks
    → (st' : Server) × (retry_report env id st ≡ (st', answer 500 queue_full))
      × HasNoTask id st'.tasks
      × (get_report id st'.database ≡ some (retried env row))
      × ((retried env row).status ≡ pending)
      × (retry_report env id st'
          ≡ (st', answer 400 "Only failed or cancelled reports can be retried"))
unfolding retry_report retry_row enqueue
retry_report-strands env id st row named finds saves found open_row full idle =
    let st' : Server = record st { database = save_report (retried env row) st.database } in
    let own : row.id ≡ id = get_report-own id st.database row found in
    let after : get_report id st'.database ≡ some (retried env row) =
      subst (λ (k : String). get_report k st'.database ≡ some (retried env row)) own
        (get_report-save_report (retried env row) st.database) in
    (
      st',
      rw (named, finds, found, open_row, saves, full) refl,
      idle,
      after,
      refl,
      retry_report-refused env id st' (retried env row) named finds after refl,
    )
