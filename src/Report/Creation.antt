-- ===== src/Report/Creation.antt =====
-- The rows that phase 1 of internal/report/engine.go creates.
use verustcode.Base.{
  ℕ, ◌+◌, Bool, true, false, List, [], ◌∷◌, ◌++◌, ◌≡◌, refl, arith, ◌∙◌, sym, sum_by, length,
  append_assoc, append-nil, String, Option, none, some, map, ap, ap₂, All, All-append,
}
use verustcode.Report.{
  ReportSection, ReportStructure, GeneratedSections, generated, end, and, pending,
}
use verustcode.Report.Structure.{count, child_rows, rows_from, structure_to_model}
use verustcode.Report.Layout.{IndexedFrom, leaf, structure_to_model-IsLaidOut}
use verustcode.Report.Store.{create_section, save_report}
use verustcode.Report.Run.{
  Surroundings, Statement, Progress, create_sections, run_phase1, create_row, set_generating,
}

-- The rows as the table holds them, with keys from that number on.
unfoldable pub stored_rows : (Bool → Bool) → ℕ → List ReportSection → List ReportSection
stored_rows stored n [] = []
stored_rows stored n (row ∷ rows) =
    record row { id = n; is_leaf = stored row.is_leaf } ∷ stored_rows stored (n + 1) rows

-- What a row says of its section: its parent, its id, its title and its description.
abbrev pub Entry : Type 0
Entry = Option String × (String × (String × String))

abbrev pub entry : ReportSection → Entry
entry row = (row.parent_section_id, (row.section_id, (row.title, row.description)))

-- The sections of a structure from top to bottom, each followed by its subsections.
abbrev pub inner_outline : String → GeneratedSections → List Entry
inner_outline parent end = []
inner_outline parent (and (generated id title text subs) rest) =
    (some parent, (id, (title, text))) ∷ inner_outline parent rest

abbrev pub outline_of : GeneratedSections → List Entry
outline_of end = []
outline_of (and (generated id title text subs) rest) =
    (none, (id, (title, text))) ∷ (inner_outline id subs ++ outline_of rest)

-- A row of that report, pending and without content.
abbrev pub Created : String → ReportSection → Type 0
Created report_id row = (row.report_id ≡ report_id) × (row.status ≡ pending) × (row.content ≡ [])

child_rows-entries :
    (rid parent : String) (n : ℕ) (subs : GeneratedSections)
    → map entry (child_rows rid parent n subs) ≡ inner_outline parent subs
unfolding child_rows
child_rows-entries rid parent n end = refl
child_rows-entries rid parent n (and (generated id title text inner) rest) =
    ap (λ more. (some parent, (id, (title, text))) ∷ more)
      (child_rows-entries rid parent (n + 1) rest)

map-append : (xs ys : List ReportSection) → map entry (xs ++ ys) ≡ map entry xs ++ map entry ys
map-append [] ys = refl
map-append (x ∷ xs) ys = ap (λ more. entry x ∷ more) (map-append xs ys)

rows_from-entries :
    (rid : String) (n : ℕ) (ss : GeneratedSections) → map entry (rows_from rid n ss) ≡ outline_of ss
unfolding rows_from
rows_from-entries rid n end = refl
rows_from-entries rid n (and (generated id title text subs) rest) =
    ap (λ more. (none, (id, (title, text))) ∷ more)
      (map-append (child_rows rid id (n + 1) subs) _
        ∙ ap₂ (λ xs ys. xs ++ ys) (child_rows-entries rid id (n + 1) subs)
            (rows_from-entries rid (n + 1 + count subs) rest))

child_rows-Created :
    (rid parent : String) (n : ℕ) (subs : GeneratedSections)
    → All (Created rid) (child_rows rid parent n subs)
unfolding child_rows
child_rows-Created rid parent n end = tt
child_rows-Created rid parent n (and (generated id title text inner) rest) =
    ((refl, refl, refl), child_rows-Created rid parent (n + 1) rest)

rows_from-Created :
    (rid : String) (n : ℕ) (ss : GeneratedSections) → All (Created rid) (rows_from rid n ss)
unfolding rows_from
rows_from-Created rid n end = tt
rows_from-Created rid n (and (generated id title text subs) rest) = (
  (refl, refl, refl),
  All-append (Created rid) (child_rows rid id (n + 1) subs) _
      (child_rows-Created rid id (n + 1) subs) (rows_from-Created rid (n + 1 + count subs) rest),
)

stored_rows-entries :
    (stored : Bool → Bool) (n : ℕ) (rows : List ReportSection)
    → map entry (stored_rows stored n rows) ≡ map entry rows
unfolding stored_rows
stored_rows-entries stored n [] = refl
stored_rows-entries stored n (row ∷ rows) =
    ap (λ more. entry row ∷ more) (stored_rows-entries stored (n + 1) rows)

stored_rows-IndexedFrom :
    (stored : Bool → Bool) (n k : ℕ) (rows : List ReportSection)
    → IndexedFrom k rows
    → IndexedFrom k (stored_rows stored n rows)
unfolding stored_rows
stored_rows-IndexedFrom stored n k [] h = tt
stored_rows-IndexedFrom stored n k (row ∷ rows) (same, h) =
    (same, stored_rows-IndexedFrom stored (n + 1) (k + 1) rows h)

stored_rows-Created :
    (stored : Bool → Bool) (n : ℕ) (rid : String) (rows : List ReportSection)
    → All (Created rid) rows
    → All (Created rid) (stored_rows stored n rows)
unfolding stored_rows
stored_rows-Created stored n rid [] h = tt
stored_rows-Created stored n rid (row ∷ rows) (own, h) =
    (own, stored_rows-Created stored (n + 1) rid rows h)

stored_rows-length :
    (stored : Bool → Bool) (n : ℕ) (rows : List ReportSection)
    → length (stored_rows stored n rows) ≡ length rows
unfolding stored_rows
stored_rows-length stored n [] = refl
stored_rows-length stored n (row ∷ rows) = omega (arith, stored_rows-length stored (n + 1) rows)

-- A database that stores what it is given.
stored_rows-leaves :
    (stored : Bool → Bool) (n : ℕ) (rows : List ReportSection)
    → ((b : Bool) → stored b ≡ b)
    → sum_by leaf (stored_rows stored n rows) ≡ sum_by leaf rows
unfolding stored_rows
stored_rows-leaves stored n [] faithful = refl
stored_rows-leaves stored n (row ∷ rows) faithful =
    rw (faithful row.is_leaf) (omega (arith, stored_rows-leaves stored (n + 1) rows faithful))

-- A database that takes the column's default for a zero value.
stored_rows-default :
    (stored : Bool → Bool) (n : ℕ) (rows : List ReportSection)
    → ((b : Bool) → stored b ≡ true)
    → sum_by leaf (stored_rows stored n rows) ≡ length rows
unfolding stored_rows
stored_rows-default stored n [] default = refl
stored_rows-default stored n (row ∷ rows) default =
    rw (default row.is_leaf) (omega (arith, stored_rows-default stored (n + 1) rows default))

module _ (env : Surroundings) (works : (s : Statement) → env.fails s ≡ false) where
  create_sections-rows :
      (i : ℕ) (rows : List ReportSection) (p : Progress)
      → (create_sections env i rows p).database.sections
        ≡ p.database.sections ++ stored_rows env.created_leaf p.database.next_section_id rows
  unfolding create_sections create_section stored_rows
  create_sections-rows i [] p = sym (append-nil p.database.sections)
  create_sections-rows i (row ∷ rows) p =
      create_sections-rows (i + 1) rows _
      ∙ rw (works (create_row i), create_section) (append_assoc p.database.sections _ _)

  -- Phase 1 leaves the sections that the table has, also those of an earlier run of the report,
  -- and adds behind them those of the structure, from top to bottom, each followed by its
  -- subsections, with their parents, ids, titles and descriptions, numbered from zero, of that report,
  -- pending and without content, where no statement fails. There are then as many new leaves as the
  -- report's total says if the database stores `is_leaf` as it is given, and every new row is a leaf
  -- if it stores the column's default.
  pub run_phase1-adds :
      (structure : ReportStructure) (p : Progress)
      → (new : List ReportSection) × ((run_phase1 env structure p).database.sections
          ≡ p.database.sections ++ new)
        × (map entry new ≡ outline_of structure.sections)
        × IndexedFrom 0 new
        × All (Created p.report.id) new
        × (((b : Bool) → env.created_leaf b ≡ b)
            → sum_by leaf new ≡ (run_phase1 env structure p).report.total_sections)
        × (((b : Bool) → env.created_leaf b ≡ true) → sum_by leaf new ≡ length new)
  unfolding run_phase1 save_report structure_to_model
  run_phase1-adds structure p =
      let rows : List ReportSection = structure_to_model structure p.report.id in
      let first : ℕ = p.database.next_section_id in
      let new : List ReportSection = stored_rows env.created_leaf first rows in
      (
        new,
        rw (works set_generating) (create_sections-rows 0 rows _),
        stored_rows-entries env.created_leaf first rows
            ∙ rows_from-entries p.report.id 0 structure.sections,
        stored_rows-IndexedFrom env.created_leaf first 0 rows
            (structure_to_model-IsLaidOut structure p.report.id).0,
        stored_rows-Created env.created_leaf first p.report.id rows
            (rows_from-Created p.report.id 0 structure.sections),
        λ faithful.
            stored_rows-leaves env.created_leaf first rows faithful
            ∙ (structure_to_model-IsLaidOut structure p.report.id).2,
        λ default.
            stored_rows-default env.created_leaf first rows default
            ∙ sym (stored_rows-length env.created_leaf first rows),
      )
