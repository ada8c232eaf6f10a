-- ===== src/Report/Ended.antt =====
-- How a run of internal/report/engine.go ends.

use verustcode.Base.{String, false, Option, none, some, ◌≡◌, inl, inr, refl, ◌∙◌}
use verustcode.Process.{Loaded-cases}
use verustcode.Report.{Report, ReportStructure, analyzing, completed, failed}
use verustcode.Report.Store.{ReportDatabase, get_report}
use verustcode.Report.Run.{
  Surroundings, Progress, set_analyzing, set_completed, set_failed, handle_error, run_phase1,
  run_phase2, run_phase3, complete, on_error, run_sections, run_structure, run,
}
use verustcode.Report.Saved.{save-stored}
use verustcode.Report.Columns.{run_phase2-id, run_phase3-id}

abbrev pub Outcome : Report → Option String → Type 0
Outcome r none = r.status ≡ completed
Outcome r (some msg) = (r.status ≡ failed) × (r.error_message ≡ msg)

-- The row is the engine's copy, and says how the run ended: completed without an error, and else
-- failed with it.
pub record Ended (id : String) (p : Progress) (e : Option String) : Type 0 where
  pub stored : get_report id p.database ≡ some p.report
  pub outcome : Outcome p.report e

module _ (env : Surroundings) where
  module _ (completes : env.fails set_completed ≡ false) (gives_up : env.fails set_failed ≡ false)
      (id : String) where
    handle_error-Ended :
        (context msg : String) (p : Progress)
        → p.report.id ≡ id
        → Ended id (handle_error env context msg p).0 (handle_error env context msg p).1
    unfolding handle_error
    handle_error-Ended context msg p own = record {
      stored = save-stored env id set_failed _ gives_up own;
      outcome = (refl, refl);
    }

    complete-Ended :
        (p : Progress) → p.report.id ≡ id → Ended id (complete env p).0 (complete env p).1
    unfolding complete
    complete-Ended p own = record {
      stored = save-stored env id set_completed _ completes own;
      outcome = refl;
    }

    on_error-Ended :
        (context : String) (r : Progress × Option String)
        (next : Progress → Progress × Option String)
        → r.0.report.id ≡ id
        → ((q : Progress) → q.report.id ≡ id → Ended id (next q).0 (next q).1)
        → Ended id (on_error env context r next).0 (on_error env context r next).1
    on_error-Ended context (q, none) next own go_on = go_on q own
    on_error-Ended context (q, some msg) next own go_on = handle_error-Ended context msg q own

    run_sections-Ended :
        (structure : ReportStructure) (path : String) (p : Progress)
        → p.report.id ≡ id
        → Ended id (run_sections env structure path p).0 (run_sections env structure path p).1
    unfolding run_sections
    run_sections-Ended structure path p own =
        on_error-Ended _ (run_phase2 env structure path p) _
          (run_phase2-id env structure path p ∙ own)
          (λ q same.
            on_error-Ended _ (run_phase3 env structure path q) (complete env)
              (run_phase3-id env structure path q ∙ same) complete-Ended)

    run_structure-Ended :
        (path : String) (p : Progress)
        → p.report.id ≡ id
        → Ended id (run_structure env path p).0 (run_structure env path p).1
    unfolding run_structure run_phase1
    run_structure-Ended path p own =
        elim (Loaded-cases (env.generate (record p.report { repo_path = path }) path)) [
          | inl (msg, lost) ↦ rw (lost, run_structure) (handle_error-Ended _ msg _ own)
          | inr (structure, found) ↦
              rw (found, run_structure) (run_sections-Ended structure path _ own)
        ]

  -- A run of a report whose first and last statements on its row succeed comes to an end in the
  -- table, whatever else fails and whatever other parts write meanwhile: the row is completed if the
  -- run returns no error, and else failed with the error that it returns.
  pub run-Ended :
      env.fails set_analyzing ≡ false
      → env.fails set_completed ≡ false
      → env.fails set_failed ≡ false
      → (report : Report) (db : ReportDatabase)
      → Ended report.id (run env report db).0 (run env report db).1
  unfolding run
  run-Ended starts completes gives_up report db =
      let started : Report = record report {
        status = analyzing;
        started_at = some env.started_at;
      } in
      elim (Loaded-cases (env.prepare_repository started)) [
        | inl (msg, lost) ↦
            rw (starts, lost, run) (handle_error-Ended completes gives_up report.id _ msg _ refl)
        | inr (path, found) ↦
            rw (starts, found, run) (run_structure-Ended completes gives_up report.id path _ refl)
      ]
