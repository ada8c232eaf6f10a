-- ===== src/Report/Document.antt =====
-- What the document of internal/report/exporter/helpers.go shows of the sections.
use verustcode.Base.{
  ℕ, ◌+◌, true, none, List, [], ◌∷◌, ◌≡◌, inl, inr, refl, arith, ap, Bool-cases, All,
}
use verustcode.PrUrl.Text.{Bytes}
use verustcode.Report.{Report, ReportSection}
use verustcode.Report.Merge.{
  is_top_level, top_level, contents_entry, contents, body_entry, body, front, merge_sections,
}

-- A top-level section that the table has as a leaf.
abbrev pub LeafIfTop : ReportSection → Type 0
LeafIfTop s = s.parent_section_id ≡ none → s.is_leaf ≡ true

top_level-again : (ss : List ReportSection) → top_level (top_level ss) ≡ top_level ss
unfolding top_level
top_level-again [] = refl
top_level-again (s ∷ ss) = elim (Bool-cases (is_top_level s)) [
  | inl top ↦ rw (top, top) (ap (λ (rest : List ReportSection). s ∷ rest) (top_level-again ss))
  | inr child ↦ rw child (top_level-again ss)
]

-- The top-level sections are leaves.
top_level-leaves :
    (ss : List ReportSection) → All LeafIfTop ss → All (λ s. s.is_leaf ≡ true) (top_level ss)
unfolding top_level
top_level-leaves [] h = tt
top_level-leaves (s ∷ ss) (leaf, h) = elim (Bool-cases (is_top_level s)) [
  | inl top ↦ rw top (leaf (ground arith), top_level-leaves ss h)
  | inr child ↦ rw child (top_level-leaves ss h)
]

body-ignores :
    (a b : List ReportSection) (ss : List ReportSection)
    → All (λ s. s.is_leaf ≡ true) ss
    → body a ss ≡ body b ss
unfolding body body_entry
body-ignores a b [] h = refl
body-ignores a b (s ∷ ss) (leaf, h) = rw (leaf, body-ignores a b ss h) refl

module _ (to_lower : Bytes → Bytes) where
  contents-ignores :
      (a b : List ReportSection) (n : ℕ) (ss : List ReportSection)
      → All (λ s. s.is_leaf ≡ true) ss
      → contents to_lower a n ss ≡ contents to_lower b n ss
  unfolding contents contents_entry
  contents-ignores a b n [] h = refl
  contents-ignores a b n (s ∷ ss) (leaf, h) = rw (leaf, contents-ignores a b (n + 1) ss h) refl

  -- Where every top-level row is a leaf, the document is that of the top-level rows alone: the
  -- contents of subsections are not in it.
  pub merge_sections-drops_children :
      (report : Report) (ss : List ReportSection)
      → All LeafIfTop ss
      → merge_sections to_lower report ss ≡ merge_sections to_lower report (top_level ss)
  unfolding merge_sections front
  merge_sections-drops_children report ss h =
      rw
        (
          top_level-again ss,
          contents-ignores ss (top_level ss) 1 (top_level ss) (top_level-leaves ss h),
          body-ignores ss (top_level ss) (top_level ss) (top_level-leaves ss h),
        )
        refl
