-- ===== src/Report/Layout.antt =====
-- What the rows of a structure, internal/report/structure.go, amount to.
use verustcode.Base.{
  ℕ, ◌+◌, String, true, Option, none, some, List, [], ◌∷◌, ◌++◌, ◌≡◌, refl, ap, arith, sum_by,
  if◌then◌else◌, sym, length, subst,
}
use verustcode.Report.{ReportSection, GeneratedSections, generated, end, and, ReportStructure}
use verustcode.Report.Structure.{
  count, child_rows, rows_from, structure_to_model, count_leaves, count_leaf_sections,
}

abbrev pub leaf : ReportSection → ℕ
leaf r = if r.is_leaf then 1 else 0

-- The indices go up by one from that number.
abbrev pub IndexedFrom : ℕ → List ReportSection → Type 0
IndexedFrom n [] = Unit
IndexedFrom n (r ∷ rs) = (r.section_index ≡ n) × IndexedFrom (n + 1) rs

-- The parent section whose subsections may follow.
abbrev pub open_parent : Option String → ReportSection → Option String
open_parent current r = elim r.parent_section_id [
  | none ↦ if r.is_leaf then none else some r.section_id
  | some parent ↦ current
]

-- A subsection is a leaf and names the section that is open.
abbrev pub Placed : Option String → ReportSection → Type 0
Placed current r = elim r.parent_section_id [
  | none ↦ Unit
  | some parent ↦ (current ≡ some parent) × (r.is_leaf ≡ true)
]

-- Each subsection stands behind its parent, with none but its siblings between them.
abbrev pub Nested : Option String → List ReportSection → Type 0
Nested current [] = Unit
Nested current (r ∷ rs) = Placed current r × Nested (open_parent current r) rs

IndexedFrom-append :
    (n : ℕ) (xs ys : List ReportSection)
    → IndexedFrom n xs
    → IndexedFrom (n + length xs) ys
    → IndexedFrom n (xs ++ ys)
IndexedFrom-append n [] ys hx hy =
    subst (λ (m : ℕ). IndexedFrom m ys) (let e : n + 0 ≡ n = omega arith in e) hy
IndexedFrom-append n (x ∷ xs) ys (same, hx) hy = (
  same,
  IndexedFrom-append (n + 1) xs ys hx (
      subst (λ (m : ℕ). IndexedFrom m ys)
        (let e : n + length (x ∷ xs) ≡ n + 1 + length xs = omega arith in e) hy),
)

child_rows-length :
    (rid parent : String) (n : ℕ) (subs : GeneratedSections)
    → length (child_rows rid parent n subs) ≡ count subs
unfolding child_rows
child_rows-length rid parent n end = refl
child_rows-length rid parent n (and (generated id title text inner) rest) =
    omega (arith, child_rows-length rid parent (n + 1) rest)

child_rows-IndexedFrom :
    (rid parent : String) (n : ℕ) (subs : GeneratedSections)
    → IndexedFrom n (child_rows rid parent n subs)
unfolding child_rows
child_rows-IndexedFrom rid parent n end = tt
child_rows-IndexedFrom rid parent n (and (generated id title text inner) rest) =
    (refl, child_rows-IndexedFrom rid parent (n + 1) rest)

child_rows-leaves :
    (rid parent : String) (n : ℕ) (subs : GeneratedSections)
    → sum_by leaf (child_rows rid parent n subs) ≡ count subs
unfolding child_rows
child_rows-leaves rid parent n end = refl
child_rows-leaves rid parent n (and (generated id title text inner) rest) =
    omega (arith, child_rows-leaves rid parent (n + 1) rest)

child_rows-Nested :
    (rid parent : String) (n : ℕ) (subs : GeneratedSections) (more : List ReportSection)
    → Nested (some parent) more
    → Nested (some parent) (child_rows rid parent n subs ++ more)
unfolding child_rows
child_rows-Nested rid parent n end more h = h
child_rows-Nested rid parent n (and (generated id title text inner) rest) more h =
    ((refl, refl), child_rows-Nested rid parent (n + 1) rest more h)

sum_by-append :
    (xs ys : List ReportSection) → sum_by leaf (xs ++ ys) ≡ sum_by leaf xs + sum_by leaf ys
sum_by-append [] ys = omega arith
sum_by-append (x ∷ xs) ys = omega (arith, sum_by-append xs ys)

rows_from-IndexedFrom :
    (rid : String) (n : ℕ) (ss : GeneratedSections) → IndexedFrom n (rows_from rid n ss)
unfolding rows_from
rows_from-IndexedFrom rid n end = tt
rows_from-IndexedFrom rid n (and (generated id title text subs) rest) = (
  refl,
  IndexedFrom-append (n + 1) (child_rows rid id (n + 1) subs) _
      (child_rows-IndexedFrom rid id (n + 1) subs)
      (subst (λ (m : ℕ). IndexedFrom m (rows_from rid (n + 1 + count subs) rest))
        (ap (λ (k : ℕ). n + 1 + k) (sym (child_rows-length rid id (n + 1) subs)))
        (rows_from-IndexedFrom rid (n + 1 + count subs) rest)),
)

rows_from-leaves :
    (rid : String) (n : ℕ) (ss : GeneratedSections)
    → sum_by leaf (rows_from rid n ss) ≡ count_leaves ss
unfolding rows_from count_leaves child_rows
rows_from-leaves rid n end = refl
rows_from-leaves rid n (and (generated id title text end) rest) =
    omega (arith, rows_from-leaves rid (n + 1 + 0) rest)
rows_from-leaves rid n (and (generated id title text (and s more)) rest) = omega (
  arith,
  sum_by-append (child_rows rid id (n + 1) (and s more))
      (rows_from rid (n + 1 + count (and s more)) rest),
  child_rows-leaves rid id (n + 1) (and s more),
  rows_from-leaves rid (n + 1 + count (and s more)) rest,
)

rows_from-Nested :
    (rid : String) (n : ℕ) (ss : GeneratedSections) (current : Option String)
    → Nested current (rows_from rid n ss)
unfolding rows_from child_rows
rows_from-Nested rid n end current = tt
rows_from-Nested rid n (and (generated id title text end) rest) current =
    (tt, rows_from-Nested rid (n + 1 + 0) rest none)
rows_from-Nested rid n (and (generated id title text (and s more)) rest) current =
    (tt, child_rows-Nested rid id (n + 1) (and s more) _ (rows_from-Nested rid _ rest (some id)))

-- The rows of a structure are numbered from zero in their order, each subsection stands behind its
-- parent with none but its siblings between them, names the parent and is a leaf, and there are as
-- many leaves as CountLeafSections says.
pub structure_to_model-IsLaidOut :
    (structure : ReportStructure) (report_id : String)
    → IndexedFrom 0 (structure_to_model structure report_id)
      × Nested none (structure_to_model structure report_id)
      × (sum_by leaf (structure_to_model structure report_id) ≡ count_leaf_sections structure)
unfolding structure_to_model count_leaf_sections
structure_to_model-IsLaidOut structure report_id = (
  rows_from-IndexedFrom report_id 0 structure.sections,
  rows_from-Nested report_id 0 structure.sections none,
  rows_from-leaves report_id 0 structure.sections,
)
