-- ===== src/Report/Run.antt =====
-- The generation of a report, `Run` and `Resume` of internal/report/engine.go with their phases. The
-- clone, the agent's answers and the merge are arguments, and so are the statements that fail and
-- what other parts do to the tables meanwhile. Durations and notifications are left out.
use Prim.Native.String.{◌++◌}
use verustcode.Base.{
  ℕ, ◌+◌, String, Bool, true, false, Option, none, some, List, [], ◌∷◌, if◌then◌else◌, str_eq,
  is_empty,
}
use verustcode.Process.{Loaded, bad, good}
use verustcode.Report.{
  Report, ReportSection, ReportStructure, ReportStatus, SectionStatus, analyzing, generating,
  running, completed, failed,
}
use verustcode.Report.Structure.{structure_to_model, count_leaf_sections}
use verustcode.Report.Store.{
  ReportDatabase, save_report, create_section, update_section, get_sections_by_report_id,
  get_leaf_sections_by_report_id, get_report,
}

-- The statements that may fail, those of phase 2 by the number of the leaf.
pub data Statement : Type 0 where
  set_analyzing set_path set_generating load_leaves load_sections : Statement
  set_content set_completed set_failed load_report : Statement
  create_row set_progress set_running set_outcome : ℕ → Statement

-- When the tables may change between two statements of a run.
pub data Moment : Type 0 where
  while_cloning while_structuring while_summarizing : Moment
  while_writing : ℕ → Moment

-- Content and summary of a section.
pub record SectionResult : Type 0 where
  pub content : List ℕ
  pub summary : String

-- `created_leaf` is what the database stores of a created row's `is_leaf`; `marshal` and `unmarshal`
-- are those of encoding/json on structures.
pub record Surroundings : Type 0 where
  pub fails : Statement → Bool
  pub fault : String
  pub others : Moment → ReportDatabase → ReportDatabase
  pub started_at : ℕ
  pub completed_at : ℕ
  pub section_started_at : ℕ → ℕ
  pub section_completed_at : ℕ → ℕ
  pub prepare_repository : Report → Loaded String
  pub generate : Report → String → Loaded ReportStructure
  pub created_leaf : Bool → Bool
  pub marshal : ReportStructure → List ℕ
  pub unmarshal : List ℕ → Option ReportStructure
  pub generate_section : Report → ReportSection → ReportStructure → String → Loaded SectionResult
  pub merge_sections : Report → List ReportSection → List ℕ
  pub generate_summary : Report → List ReportSection → ReportStructure → String → Loaded String

-- The tables and the engine's copy of the report's row.
pub record Progress : Type 0 where
  pub database : ReportDatabase
  pub report : Report

module _ (env : Surroundings) where
  abbrev pub write : Statement → (ReportDatabase → ReportDatabase) → Progress → Progress
  write s change p = record p { database = if env.fails s then p.database else change p.database }

  -- `e.store.Report().Save(report)`.
  abbrev pub save : Statement → Progress → Progress
  save s p = write s (save_report p.report) p

  abbrev pub meanwhile : Moment → Progress → Progress
  meanwhile m p = record p { database = env.others m p.database }

  -- `handleError`: the tables and the error.
  unfoldable pub handle_error : String → String → Progress → Progress × Option String
  handle_error context msg p = (
    save set_failed (record p {
      report = record p.report { status = failed; error_message = context ++ (": " ++ msg) };
    }),
    some (context ++ (": " ++ msg)),
  )

  -- The loop over the section rows of `runPhase1`; an error is only logged.
  unfoldable pub create_sections : ℕ → List ReportSection → Progress → Progress
  create_sections i [] p = p
  create_sections i (row ∷ rows) p =
      create_sections (i + 1) rows (write (create_row i) (create_section env.created_leaf row) p)

  -- `runPhase1` behind the agent's answer.
  unfoldable pub run_phase1 : ReportStructure → Progress → Progress
  run_phase1 structure p =
      let report : Report = record p.report {
        structure = env.marshal structure;
        title = structure.title;
        total_sections = count_leaf_sections structure;
      } in
      let created : Progress =
        create_sections 0 (structure_to_model structure report.id) (record p { report = report }) in
      save set_generating (record created { report = record report { status = generating } })

  -- The section as it is written when its generation starts, and as it is at the end.
  abbrev pub started_section : ℕ → ReportSection → ReportSection
  started_section i section = record section {
    status = running;
    started_at = some (env.section_started_at i);
  }

  abbrev pub ended_section : ℕ → ReportSection → Loaded SectionResult → ReportSection
  ended_section i section (bad msg) = record (started_section i section) {
    status = failed;
    error_message = msg;
  }
  ended_section i section (good result) = record (started_section i section) {
    content = result.content;
    summary = result.summary;
    status = completed;
    completed_at = some (env.section_completed_at i);
  }

  -- The part of the loop's body behind the test for a completed section.
  unfoldable pub write_section : ReportStructure → String → ℕ → ReportSection → Progress → Progress
  write_section structure path i section p =
      let report : Report = record p.report { current_section = i } in
      let counted : Progress = save (set_progress i) (record p { report = report }) in
      let started : Progress =
        write (set_running i) (update_section (started_section i section)) counted in
      let result : Loaded SectionResult =
        env.generate_section report (started_section i section) structure path in
      write (set_outcome i) (update_section (ended_section i section result))
        (meanwhile (while_writing i) started)

  abbrev pub is_completed : SectionStatus → Bool
  is_completed completed = true
  is_completed _ = false

  -- The loop of `runPhase2`.
  unfoldable pub write_sections :
      ReportStructure → String → ℕ → List ReportSection → Progress → Progress
  write_sections structure path i [] p = p
  write_sections structure path i (section ∷ rest) p =
      write_sections structure path (i + 1) rest
        (if is_completed section.status then p else write_section structure path i section p)

  unfoldable pub run_phase2 : ReportStructure → String → Progress → Progress × Option String
  run_phase2 structure path p =
      if env.fails load_leaves then (p, some ("failed to load leaf sections: " ++ env.fault)) else (
        write_sections structure path 0 (get_leaf_sections_by_report_id p.report.id p.database) p,
        none,
      )

  -- A summary that is not generated is done without.
  abbrev pub with_summary : Report → Loaded String → Report
  with_summary report (bad msg) = report
  with_summary report (good summary) = record report { summary = summary }

  -- `runPhase3` behind the query, with the rows that it answered with.
  unfoldable pub finalize :
      ReportStructure → String → List ReportSection → Progress → Progress × Option String
  finalize structure path sections p =
      let merged : Report = record p.report { content = env.merge_sections p.report sections } in
      let report : Report =
        with_summary merged (env.generate_summary merged sections structure path) in
      let done : Progress =
        save set_content (record (meanwhile while_summarizing p) { report = report }) in
      (
        done,
        if env.fails set_content
            then some ("failed to save merged content and summary: " ++ env.fault)
            else none,
      )

  unfoldable pub run_phase3 : ReportStructure → String → Progress → Progress × Option String
  run_phase3 structure path p =
      if env.fails load_sections
      then (p, some ("failed to load sections: " ++ env.fault))
      else finalize structure path (get_sections_by_report_id p.report.id p.database) p

  -- The end of `Run`.
  unfoldable pub complete : Progress → Progress × Option String
  complete p = (
    save set_completed (record p {
      report = record p.report { status = completed; completed_at = some env.completed_at };
    }),
    none,
  )

  abbrev pub on_error :
      String
      → Progress × Option String
      → (Progress → Progress × Option String)
      → Progress × Option String
  on_error context (p, none) next = next p
  on_error context (p, some msg) next = handle_error context msg p

  -- `Run` from phase 2 on.
  unfoldable pub run_sections : ReportStructure → String → Progress → Progress × Option String
  run_sections structure path p =
      on_error "section generation failed" (run_phase2 structure path p)
        (λ q. on_error "report finalization failed" (run_phase3 structure path q) complete)

  -- `Run` behind the preparation of the repository.
  unfoldable pub run_structure : String → Progress → Progress × Option String
  run_structure path p =
      let stored : Progress =
        save set_path (record p { report = record p.report { repo_path = path } }) in
      elim (env.generate stored.report path) [
        | bad msg ↦
            handle_error "structure generation failed" msg (meanwhile while_structuring stored)
        | good structure ↦
            run_sections structure path (run_phase1 structure (meanwhile while_structuring stored))
      ]

  -- `Run` of a report.
  unfoldable pub run : Report → ReportDatabase → Progress × Option String
  run report db =
      let started : Progress = record {
        database = db;
        report = record report { status = analyzing; started_at = some env.started_at };
      } in
      if env.fails set_analyzing
      then (started, some ("failed to update report status: " ++ env.fault))
      else let saved : Progress = save set_analyzing started in
        elim (env.prepare_repository saved.report) [
          | bad msg ↦
              handle_error "repository preparation failed" msg (meanwhile while_cloning saved)
          | good path ↦ run_structure path (meanwhile while_cloning saved)
        ]

  -- An error is returned as it is.
  abbrev pub unless_error :
      Progress × Option String → (Progress → Progress × Option String) → Progress × Option String
  unless_error (p, none) next = next p
  unless_error (p, some msg) next = (p, some msg)

  -- `Resume` behind the structure and the path of the clone.
  unfoldable pub resume_sections : ReportStructure → String → Progress → Progress × Option String
  resume_sections structure path p =
      let marked : Progress =
        save set_generating (record p { report = record p.report { status = generating } }) in
      unless_error (run_phase2 structure path marked) (run_phase3 structure path)

  unfoldable pub resume_structure : ReportStructure → Progress → Progress × Option String
  resume_structure structure p =
      if str_eq p.report.repo_path ""
      then elim (env.prepare_repository p.report) [
        | bad msg ↦ handle_error "repository preparation failed" msg (meanwhile while_cloning p)
        | good path ↦
            let cloned : Progress = meanwhile while_cloning p in
            resume_sections structure path
              (save set_path (record cloned { report = record p.report { repo_path = path } }))
      ]
      else resume_sections structure p.report.repo_path p

  abbrev pub is_done : ReportStatus → Bool
  is_done completed = true
  is_done _ = false

  -- `Resume` of a report that is found.
  unfoldable pub resume_report : Report → ReportDatabase → Progress × Option String
  resume_report report db =
      if is_done report.status
      then (record { database = db; report = report }, some "report already completed")
      else if is_empty report.structure
      then run report db
      else elim (env.unmarshal report.structure) [
        | none ↦ run report db
        | some structure ↦ resume_structure structure (record { database = db; report = report })
      ]

  -- `Resume`: the tables and the error.
  unfoldable pub resume : String → ReportDatabase → ReportDatabase × Option String
  resume id db =
      if env.fails load_report
      then (db, some ("report not found: " ++ env.fault))
      else elim (get_report id db) [
        | none ↦ (db, some "report not found: record not found")
        | some report ↦ let (p, e) = resume_report report db in (p.database, e)
      ]
