-- ===== src/Report/Resumed.antt =====
-- What Resume of internal/report/engine.go leaves of a report.
use verustcode.Base.{
  String, false, Option, none, some, ◌≡◌, inl, inr, refl, Bool-cases, is_empty, ◌∙◌, str_eq, List,
}
use verustcode.Process.{Loaded-cases}
use verustcode.Report.{Report, ReportSection, ReportStructure, generating}
use verustcode.Report.Store.{ReportDatabase, get_report}
use verustcode.Report.Saved.{save-stored, get_report-own}
use verustcode.Report.Columns.{run_phase2-column, run_phase2-id, finalize-column}
use verustcode.Report.Run.{
  Surroundings, Statement, Progress, run_phase2, run_phase3, finalize, unless_error, handle_error,
  resume_sections, resume_structure, resume_report, resume, is_done, load_sections, set_content,
  load_report,
}

-- The row is the engine's copy and says that the report is being generated.
abbrev pub Generating : String → Progress → Type 0
Generating id p = (get_report id p.database ≡ some p.report) × (p.report.status ≡ generating)

module _ (env : Surroundings) (works : (s : Statement) → env.fails s ≡ false) (id : String) where
  finalize-Generating :
      (structure : ReportStructure) (path : String) (rows : List ReportSection) (p : Progress)
      → p.report.id ≡ id
      → p.report.status ≡ generating
      → Generating id (finalize env structure path rows p).0
  unfolding finalize
  finalize-Generating structure path rows p own status = (
    save-stored env id set_content _ (works set_content) (
        finalize-column (λ r. r.id) (λ r i. refl) (λ r c. refl) (λ r text. refl) env structure path
          rows p
        ∙ own),
    finalize-column (λ r. r.status) (λ r i. refl) (λ r c. refl) (λ r text. refl) env structure path
          rows p
        ∙ status,
  )

  run_phase3-Generating :
      (structure : ReportStructure) (path : String) (p : Progress)
      → p.report.id ≡ id
      → p.report.status ≡ generating
      → Generating id (run_phase3 env structure path p).0
  unfolding run_phase3
  run_phase3-Generating structure path p own status =
      rw (works load_sections) (finalize-Generating structure path _ p own status)

  -- What is left when no error is returned.
  abbrev Leaves : Progress × Option String → Type 0
  Leaves (p, e) = e ≡ none → Generating id p

  unless_error-Leaves :
      (r : Progress × Option String) (next : Progress → Progress × Option String)
      → Leaves (next r.0)
      → Leaves (unless_error env r next)
  unless_error-Leaves (p, none) next go_on = go_on
  unless_error-Leaves (p, some msg) next go_on = cc

  resume_sections-Leaves :
      (structure : ReportStructure) (path : String) (p : Progress)
      → p.report.id ≡ id
      → Leaves (resume_sections env structure path p)
  unfolding resume_sections
  resume_sections-Leaves structure path p own =
      unless_error-Leaves (run_phase2 env structure path _) (run_phase3 env structure path)
        (λ none_made.
          run_phase3-Generating structure path _ (run_phase2-id env structure path _ ∙ own) (
            run_phase2-column (λ r. r.status) (λ r i. refl) (λ r c. refl) (λ r text. refl) env
              structure path _))

  resume_structure-Leaves :
      (structure : ReportStructure) (p : Progress)
      → p.report.id ≡ id
      → Leaves (resume_structure env structure p)
  unfolding resume_structure handle_error
  resume_structure-Leaves structure p own = elim (Bool-cases (str_eq p.report.repo_path "")) [
    | inr cloned ↦ rw cloned (resume_sections-Leaves structure p.report.repo_path p own)
    | inl missing ↦ elim (Loaded-cases (env.prepare_repository p.report)) [
      | inl (msg, lost) ↦ rw (missing, lost) (cc)
      | inr (path, found) ↦ rw (missing, found) (resume_sections-Leaves structure path _ own)
    ]
  ]

  -- Resume of a report whose structure is stored ends without an error with the report still marked as
  -- generating, where no statement fails: it is never completed.
  pub resume-stays_generating :
      (db : ReportDatabase) (row : Report) (structure : ReportStructure)
      → get_report id db ≡ some row
      → is_done env row.status ≡ false
      → is_empty row.structure ≡ false
      → env.unmarshal row.structure ≡ some structure
      → (resume env id db).1 ≡ none
      → (r : Report) × (get_report id (resume env id db).0 ≡ some r) × (r.status ≡ generating)
  unfolding resume resume_report
  resume-stays_generating db row structure found open_row has read none_made =
      let own : row.id ≡ id = get_report-own id db row found in
      let start : Progress = record { database = db; report = row } in
      let (stored, status) =
        resume_structure-Leaves structure start own
          (rw (works load_report, found, open_row, has, read) at none_made) in
      (
        (resume_structure env structure start).0.report,
        rw (works load_report, found, open_row, has, read) stored,
        status,
      )
