-- ===== src/Report/Columns.antt =====
-- The columns of a report's row that the phases of internal/report/engine.go leave alone.
use verustcode.Base.{
  ℕ, ◌+◌, String, Bool, true, false, List, [], ◌∷◌, ◌≡◌, inl, inr, refl, ◌∙◌, Bool-cases,
  if◌then◌else◌,
}
use verustcode.Process.{Loaded, bad, good}
use verustcode.Report.{Report, ReportSection, ReportStructure}
use verustcode.Report.Run.{
  Surroundings, Progress, with_summary, write_section, write_sections, run_phase2, finalize,
  run_phase3, is_completed, load_leaves, load_sections,
}

-- A column that is none of the progress, the content and the summary.
module _ {A : Type 0} (column : Report → A)
    (progress : (r : Report) (i : ℕ) → column (record r { current_section = i }) ≡ column r)
    (content : (r : Report) (c : List ℕ) → column (record r { content = c }) ≡ column r)
    (summary : (r : Report) (text : String) → column (record r { summary = text }) ≡ column r)
    (env : Surroundings) where
  either-column :
      (b : Bool) (p q : Progress)
      → column q.report ≡ column p.report
      → column (if b then p else q).report ≡ column p.report
  either-column true p q same = refl
  either-column false p q same = same

  write_sections-column :
      (structure : ReportStructure) (path : String) (i : ℕ) (rows : List ReportSection)
      (p : Progress)
      → column (write_sections env structure path i rows p).report ≡ column p.report
  unfolding write_sections write_section
  write_sections-column structure path i [] p = refl
  write_sections-column structure path i (row ∷ rows) p =
      write_sections-column structure path (i + 1) rows _
      ∙ either-column (is_completed env row.status) p (write_section env structure path i row p)
          (progress p.report i)

  with_summary-column :
      (r : Report) (answer : Loaded String) → column (with_summary env r answer) ≡ column r
  with_summary-column r (bad msg) = refl
  with_summary-column r (good text) = summary r text

  pub run_phase2-column :
      (structure : ReportStructure) (path : String) (p : Progress)
      → column (run_phase2 env structure path p).0.report ≡ column p.report
  unfolding run_phase2
  run_phase2-column structure path p = elim (Bool-cases (env.fails load_leaves)) [
    | inl failing ↦ rw failing refl
    | inr works ↦ rw works (write_sections-column structure path 0 _ p)
  ]

  pub finalize-column :
      (structure : ReportStructure) (path : String) (rows : List ReportSection) (p : Progress)
      → column (finalize env structure path rows p).0.report ≡ column p.report
  unfolding finalize
  finalize-column structure path rows p =
      with_summary-column _ (env.generate_summary _ rows structure path) ∙ content p.report _

  pub run_phase3-column :
      (structure : ReportStructure) (path : String) (p : Progress)
      → column (run_phase3 env structure path p).0.report ≡ column p.report
  unfolding run_phase3
  run_phase3-column structure path p = elim (Bool-cases (env.fails load_sections)) [
    | inl failing ↦ rw failing refl
    | inr works ↦ rw works (finalize-column structure path _ p)
  ]

-- The identifier is such a column.
module _ (env : Surroundings) (structure : ReportStructure) (path : String) (p : Progress) where
  pub run_phase2-id : (run_phase2 env structure path p).0.report.id ≡ p.report.id
  run_phase2-id =
      run_phase2-column (λ r. r.id) (λ r i. refl) (λ r c. refl) (λ r text. refl) env structure path
        p

  pub run_phase3-id : (run_phase3 env structure path p).0.report.id ≡ p.report.id
  run_phase3-id =
      run_phase3-column (λ r. r.id) (λ r i. refl) (λ r c. refl) (λ r text. refl) env structure path
        p
