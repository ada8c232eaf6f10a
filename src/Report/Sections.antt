-- ===== src/Report/Sections.antt =====
-- The sections that a run of internal/report/engine.go writes.
use verustcode.Base.{
  ℕ, ◌+◌, String, true, false, Option, none, some, List, [], ◌∷◌, ◌≡◌, ◌⊎◌, inl, inr, refl, arith,
  Bool-cases, sym, ◌∙◌, subst, All, All-map, ◌==◌,
}
use verustcode.Process.{Loaded, bad, good, Loaded-cases}
use verustcode.Report.{
  Report, ReportSection, ReportStructure, SectionStatus, completed, failed, analyzing,
}
use verustcode.Report.Store.{
  ReportDatabase, save_report, update_section, sections_where, leaf_of_report,
  get_leaf_sections_by_report_id,
}
use verustcode.Report.Run.{
  Surroundings, Statement, Moment, Progress, handle_error, run_phase1, write_section,
  write_sections, run_phase2, finalize, run_phase3, complete, on_error, run_sections, run_structure,
  run, is_completed, started_section, ended_section, load_leaves, set_content, set_completed,
  set_progress, set_running, set_outcome, while_summarizing, while_writing, load_sections,
  set_analyzing, SectionResult,
}
use verustcode.Report.Rows.{save_where-trades, Matches, sections_where-Matches}

abbrev pub IsClosed : ReportSection → Type 0
IsClosed r = (r.status ≡ completed) ⊎ (r.status ≡ failed)

-- A leaf of the report has been written or given up.
abbrev pub ClosedLeaf : String → ReportSection → Type 0
ClosedLeaf id r = leaf_of_report id r ≡ true → IsClosed r

-- What is known of a row while the listed sections are still to be visited.
abbrev Pending : String → List ReportSection → ReportSection → Type 0
Pending id ys r = leaf_of_report id r ≡ true → IsClosed r ⊎ Matches r ys

leave_closed :
    (id : String) (y : ReportSection) (ys : List ReportSection) (r : ReportSection)
    → y.status ≡ completed
    → Pending id (y ∷ ys) r
    → Pending id ys r
leave_closed id y ys r done h asked = elim (h asked) [
  | inl closed ↦ inl closed
  | inr (inl (same, status)) ↦ inl (inl (sym status ∙ done))
  | inr (inr later) ↦ inr later
]

-- A row of another key is not the one at the head of the list.
leave_other :
    (id : String) (y : ReportSection) (ys : List ReportSection) (r : ReportSection)
    → (r.id == y.id) ≡ false
    → Pending id (y ∷ ys) r
    → Pending id ys r
leave_other id y ys r other h asked = elim (h asked) [
  | inl closed ↦ inl closed
  | inr (inl (same, status)) ↦ absurd (ground arith)
  | inr (inr later) ↦ inr later
]

module _ (env : Surroundings) where
  ended_section-id :
      (i : ℕ) (s : ReportSection) (answer : Loaded SectionResult)
      → (ended_section env i s answer).id ≡ s.id
  ended_section-id i s (bad msg) = refl
  ended_section-id i s (good result) = refl

  ended_section-IsClosed :
      (i : ℕ) (s : ReportSection) (answer : Loaded SectionResult)
      → IsClosed (ended_section env i s answer)
  ended_section-IsClosed i s (bad msg) = inr refl
  ended_section-IsClosed i s (good result) = inl refl

  completed-status : (s : SectionStatus) → is_completed env s ≡ true → s ≡ completed
  completed-status s h = ground arith

  module _ (works : (s : Statement) → env.fails s ≡ false)
      (quiet : (m : Moment) (db : ReportDatabase) → env.others m db ≡ db) where
    write_section-Pending :
        (structure : ReportStructure) (path id : String) (i : ℕ) (s : ReportSection)
        (ys : List ReportSection) (p : Progress)
        → All (Pending id (s ∷ ys)) p.database.sections
        → All (Pending id ys) (write_section env structure path i s p).database.sections
    unfolding write_section update_section save_report
    write_section-Pending structure path id i s ys p h =
        let answer : Loaded SectionResult =
          env.generate_section (record p.report { current_section = i }) (started_section env i s)
            structure path in
        let row : ReportSection = ended_section env i s answer in
        let key : row.id ≡ s.id = ended_section-id i s answer in
        rw
          (
            works (set_progress i),
            works (set_running i),
            works (set_outcome i),
            quiet (while_writing i),
            write_section,
          )
          (save_where-trades (λ (r : ReportSection). r.id == row.id)
            (λ r. (r.id ≡ s.id) ⊎ Pending id ys r) (Pending id ys) row _
            (λ r other now. elim now [ inl this ↦ absurd (ground arith) | inr left ↦ left ])
            (λ asked. inl (ended_section-IsClosed i s answer))
            (save_where-trades (λ (r : ReportSection). r.id == s.id) (Pending id (s ∷ ys))
              (λ r. (r.id ≡ s.id) ⊎ Pending id ys r) (started_section env i s) p.database.sections
              (λ r other now. inr (leave_other id s ys r other now)) (inl refl) h))

    write_sections-Pending :
        (structure : ReportStructure) (path id : String) (i : ℕ) (rows : List ReportSection)
        (p : Progress)
        → All (Pending id rows) p.database.sections
        → All (Pending id []) (write_sections env structure path i rows p).database.sections
    unfolding write_sections
    write_sections-Pending structure path id i [] p h = h
    write_sections-Pending structure path id i (s ∷ ys) p h =
        write_sections-Pending structure path id (i + 1) ys _
          (elim (Bool-cases (is_completed env s.status)) [
            | inl done ↦ rw done (
                All-map (λ r now. leave_closed id s ys r (completed-status s.status done) now)
                  p.database.sections h)
            | inr open_row ↦ rw open_row (write_section-Pending structure path id i s ys p h)
          ])

    run_phase2-closes :
        (structure : ReportStructure) (path : String) (p : Progress)
        → All (ClosedLeaf p.report.id) (run_phase2 env structure path p).0.database.sections
    unfolding run_phase2 get_leaf_sections_by_report_id
    run_phase2-closes structure path p =
        let id : String = p.report.id in
        let leaves : List ReportSection = sections_where (leaf_of_report id) p.database.sections in
        rw (works load_leaves) (
          All-map {P = Pending id []}
            (λ r now asked. elim (now asked) [
              | inl closed ↦ closed
              | inr none_left ↦ elim none_left [ ]
            ])
            (write_sections env structure path 0 leaves p).database.sections
            (write_sections-Pending structure path id 0 leaves p (
              All-map {Q = Pending id leaves} (λ r now asked. inr (now asked)) p.database.sections
                (sections_where-Matches (leaf_of_report id) p.database.sections))))

    run_phase3-sections :
        (structure : ReportStructure) (path : String) (p : Progress)
        → (run_phase3 env structure path p).0.database.sections ≡ p.database.sections
    unfolding run_phase3 finalize save_report
    run_phase3-sections structure path p =
        rw (works load_sections, works set_content, quiet while_summarizing) refl

    -- What a run that returns no error leaves of the sections.
    abbrev Finishes : String → Progress × Option String → Type 0
    Finishes id (p, e) = e ≡ none → All (ClosedLeaf id) p.database.sections

    handle_error-Finishes :
        (id context msg : String) (p : Progress) → Finishes id (handle_error env context msg p)
    unfolding handle_error
    handle_error-Finishes id context msg p none_made = cc

    complete-Finishes :
        (id : String) (p : Progress)
        → All (ClosedLeaf id) p.database.sections
        → Finishes id (complete env p)
    unfolding complete save_report
    complete-Finishes id p h none_made = rw (works set_completed) h

    on_error-Finishes :
        (id context : String) (r : Progress × Option String)
        (next : Progress → Progress × Option String)
        → (Finishes id (next r.0))
        → Finishes id (on_error env context r next)
    on_error-Finishes id context (q, none) next go_on = go_on
    on_error-Finishes id context (q, some msg) next go_on = handle_error-Finishes id context msg q

    run_sections-Finishes :
        (structure : ReportStructure) (path : String) (p : Progress)
        → Finishes p.report.id (run_sections env structure path p)
    unfolding run_sections
    run_sections-Finishes structure path p =
        let id : String = p.report.id in
        let written : Progress = (run_phase2 env structure path p).0 in
        on_error-Finishes id _ (run_phase2 env structure path p) _ (
          on_error-Finishes id _ (run_phase3 env structure path written) (complete env) (
            complete-Finishes id _ (
              subst (λ (rs : List ReportSection). All (ClosedLeaf id) rs)
                (sym (run_phase3-sections structure path written))
                (run_phase2-closes structure path p))))

    run_structure-Finishes :
        (path : String) (p : Progress) → Finishes p.report.id (run_structure env path p)
    unfolding run_structure run_phase1
    run_structure-Finishes path p =
        elim (Loaded-cases (env.generate (record p.report { repo_path = path }) path)) [
          | inl (msg, lost) ↦ rw (lost, run_structure) (handle_error-Finishes p.report.id _ msg _)
          | inr (structure, found) ↦
              rw (found, run_structure) (run_sections-Finishes structure path _)
        ]

    -- A run without an error leaves no leaf section of the report open: each row has completed or
    -- failed, where no statement fails and no other part writes to the tables meanwhile.
    pub run-closes_leaves :
        (report : Report) (db : ReportDatabase)
        → (run env report db).1 ≡ none
        → All (ClosedLeaf report.id) (run env report db).0.database.sections
    unfolding run
    run-closes_leaves report db =
        let started : Report = record report {
          status = analyzing;
          started_at = some env.started_at;
        } in
        elim (Loaded-cases (env.prepare_repository started)) [
          | inl (msg, lost) ↦
              rw (works set_analyzing, lost, run) (handle_error-Finishes report.id _ msg _)
          | inr (path, found) ↦ rw (works set_analyzing, found, run) (run_structure-Finishes path _)
        ]
