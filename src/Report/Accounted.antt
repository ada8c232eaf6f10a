-- ===== src/Report/Accounted.antt =====
-- What recovery, internal/report/recovery/service.go, leaves of each unfinished report.
use verustcode.Base.{
  String, true, false, List, [], ◌∷◌, ◌++◌, ◌≡◌, ◌⊎◌, inl, inr, refl, arith, Bool-cases,
  Option-cases, any, All, eq_refl, str_eq, ltb, length,
}
use verustcode.Store.Rows.{update_where-keeps}
use verustcode.Report.{Report, failed}
use verustcode.Report.Store.{ReportDatabase, fail_report, is_report, list_pending_or_processing}
use verustcode.Report.Handler.{ReportTask, enqueue, capacity}
use verustcode.Report.Answers.{FailedIf, fail_report-FailedIf}
use verustcode.Report.Recovery.{
  Surroundings, Recovered, should_recover, give_up, put, recover_report, recover_reports,
  recover_to_queue,
}

-- The channel holds a task of the report.
abbrev pub Queued : String → List ReportTask → Type 0
Queued id tasks = any (λ (t : ReportTask). str_eq t.report.id id) tasks ≡ true

abbrev pub Accounted : Recovered → String → Type 0
Accounted st id = Queued id st.tasks ⊎ All (FailedIf id) st.database.reports

Queued-before : (id : String) (xs ys : List ReportTask) → Queued id xs → Queued id (xs ++ ys)
Queued-before id [] ys h = cc
Queued-before id (x ∷ xs) ys h = ground (arith, Queued-before id xs ys)

Queued-last : (t : ReportTask) (xs : List ReportTask) → Queued t.report.id (xs ++ (t ∷ []))
Queued-last t [] = rw (eq_refl t.report.id) refl
Queued-last t (x ∷ xs) = ground (arith, Queued-last t xs)

fail_report-keeps :
    (k id msg : String) (db : ReportDatabase)
    → All (FailedIf id) db.reports
    → All (FailedIf id) (fail_report k failed msg db).reports
unfolding fail_report
fail_report-keeps k id msg db h =
    update_where-keeps (is_report k) (FailedIf id)
      (λ r. record r { status = failed; error_message = msg }) db.reports (λ r p own. refl) h

give_up-keeps :
    (env : Surroundings) (msg : String) (report : Report) (st : Recovered) (id : String)
    → Accounted st id
    → Accounted (give_up env msg report st) id
unfolding give_up
give_up-keeps env msg report st id (inl queued) = inl queued
give_up-keeps env msg report st id (inr gone) = elim (Bool-cases (env.writes report.id)) [
  | inl done ↦ inr (rw done (fail_report-keeps report.id id msg st.database gone))
  | inr lost ↦ inr (rw lost gone)
]

give_up-fails :
    (env : Surroundings) (msg : String) (report : Report) (st : Recovered)
    → env.writes report.id ≡ true
    → Accounted (give_up env msg report st) report.id
unfolding give_up
give_up-fails env msg report st done =
    inr (rw done (fail_report-FailedIf report.id msg st.database))

module _ (env : Surroundings) where
  recover_report-keeps :
      (report : Report) (st : Recovered) (id : String)
      → Accounted st id
      → Accounted (recover_report env report st) id
  unfolding recover_report enqueue put
  recover_report-keeps report st id h =
      elim (Option-cases (should_recover env.config (env.now report.id) report)) [
        | inr (reason, refused) ↦ rw (refused, recover_report) (give_up-keeps env _ report st id h)
        | inl fit ↦ elim (Bool-cases (ltb (length st.tasks) capacity)) [
          | inl room ↦
              rw (fit, room, recover_report)
                (elim h [
                  | inl queued ↦ inl (Queued-before id st.tasks _ queued)
                  | inr gone ↦ inr gone
                ])
          | inr full ↦ rw (fit, full, recover_report) (give_up-keeps env _ report st id h)
        ]
      ]

  recover_report-accounts :
      (report : Report) (st : Recovered)
      → env.writes report.id ≡ true
      → Accounted (recover_report env report st) report.id
  unfolding recover_report enqueue put
  recover_report-accounts report st done =
      elim (Option-cases (should_recover env.config (env.now report.id) report)) [
        | inr (reason, refused) ↦ rw (refused, recover_report) (give_up-fails env _ report st done)
        | inl fit ↦ elim (Bool-cases (ltb (length st.tasks) capacity)) [
          | inl room ↦
              rw (fit, room, recover_report)
                (inl (Queued-last (record { report = report; has_callback = false }) st.tasks))
          | inr full ↦ rw (fit, full, recover_report) (give_up-fails env _ report st done)
        ]
      ]

  recover_reports-keeps :
      (rows : List Report) (st : Recovered) (id : String)
      → Accounted st id
      → Accounted (recover_reports env rows st) id
  unfolding recover_reports
  recover_reports-keeps [] st id h = h
  recover_reports-keeps (r ∷ rows) st id h =
      recover_reports-keeps rows (recover_report env r st) id (recover_report-keeps r st id h)

  recover_reports-accounts :
      (writes : (id : String) → env.writes id ≡ true) (rows : List Report) (st : Recovered)
      → All (λ r. Accounted (recover_reports env rows st) r.id) rows
  unfolding recover_reports
  recover_reports-accounts writes [] st = tt
  recover_reports-accounts writes (r ∷ rows) st = (
    recover_reports-keeps rows (recover_report env r st) r.id
        (recover_report-accounts r st (writes r.id)),
    recover_reports-accounts writes rows (recover_report env r st),
  )

  -- Recovery at startup loses no unfinished report: when the query succeeds and the updates of rows
  -- are carried out, each report that was pending, analyzing or generating has a task in the channel
  -- afterwards, or its row says that it failed, which is also so when the channel is full.
  pub recover_to_queue-Accounted :
      (writes : (id : String) → env.writes id ≡ true) (tasks : List ReportTask)
      (db : ReportDatabase)
      → All
          (λ r. Accounted (recover_to_queue env true tasks db) r.id)
          (list_pending_or_processing db.reports)
  unfolding recover_to_queue
  recover_to_queue-Accounted writes tasks db =
      recover_reports-accounts writes (list_pending_or_processing db.reports) _
