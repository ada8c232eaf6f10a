-- ===== src/Report/Recovery.antt =====
-- Recovery of reports at startup, internal/report/recovery/service.go. The configuration, the durations
-- and the rendering of a reason are those of Recovery.
use Prim.Native.String.{◌++◌}
use verustcode.Base.{
  ℕ, ◌+◌, String, Bool, true, false, Option, none, some, List, [], ◌∷◌, if◌then◌else◌,
}
use verustcode.Base.Int.{sub_ℕ, ltb_ℤ, leb_ℤ}
use verustcode.Recovery.{
  RecoveryConfig, Reason, retries_exceeded, timed_out, or_default, timeout_of, clamp64,
}
use verustcode.Report.{Report, failed}
use verustcode.Report.Store.{ReportDatabase, fail_report, list_pending_or_processing}
use verustcode.Report.Handler.{ReportTask, enqueue}

pub record Surroundings : Type 0 where
  pub config : RecoveryConfig
  pub describe : Reason → String
  pub now : String → ℕ
  pub writes : String → Bool

-- `shouldRecover`: the reason against it, if there is one.
unfoldable pub should_recover : RecoveryConfig → ℕ → Report → Option Reason
unfolding timeout_of clamp64
should_recover cfg now report =
    if leb_ℤ (or_default 3 cfg.max_retry_count) report.retry_count
    then some (retries_exceeded report.retry_count)
    else elim report.started_at [
      | none ↦ none
      | some t ↦
          if ltb_ℤ (timeout_of cfg) (clamp64 (sub_ℕ now t))
          then some (timed_out (clamp64 (sub_ℕ now t)) (timeout_of cfg))
          else none
    ]

-- The channel, the tables and the counts of the log.
pub record Recovered : Type 0 where
  pub tasks : List ReportTask
  pub database : ReportDatabase
  pub recovered : ℕ
  pub failures : ℕ

unfoldable pub give_up : Surroundings → String → Report → Recovered → Recovered
give_up env msg report st = record st {
  database =
      if env.writes report.id then fail_report report.id failed msg st.database else st.database;
  failures = st.failures + 1;
}

abbrev pub could_not_enqueue : String
could_not_enqueue = "recovery failed: could not enqueue task"

-- The report of a task that found room is counted, any other is given up.
unfoldable pub put : Surroundings → Report → Recovered → List ReportTask × Bool → Recovered
put env report st (tasks, true) = record st { tasks = tasks; recovered = st.recovered + 1 }
put env report st (tasks, false) = give_up env could_not_enqueue report st

-- The body of the loop of `RecoverToQueue`.
unfoldable pub recover_report : Surroundings → Report → Recovered → Recovered
unfolding enqueue put
recover_report env report st = elim (should_recover env.config (env.now report.id) report) [
  | some reason ↦ give_up env ("recovery failed: " ++ env.describe reason) report st
  | none ↦ put env report st (enqueue (record { report = report; has_callback = false }) st.tasks)
]

unfoldable pub recover_reports : Surroundings → List Report → Recovered → Recovered
recover_reports env [] st = st
recover_reports env (report ∷ rest) st = recover_reports env rest (recover_report env report st)

-- `RecoverToQueue`; `answers` says whether the query succeeds.
unfoldable pub recover_to_queue : Surroundings → Bool → List ReportTask → ReportDatabase → Recovered
recover_to_queue env answers tasks db =
    let st : Recovered = record { tasks = tasks; database = db; recovered = 0; failures = 0 } in
    if answers then recover_reports env (list_pending_or_processing db.reports) st else st
