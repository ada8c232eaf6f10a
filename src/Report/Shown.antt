-- ===== src/Report/Shown.antt =====
-- Which sections the document of internal/report/exporter/helpers.go shows.
use verustcode.Base.{
  Bool, true, false, none, some, List, [], ◌∷◌, ◌++◌, ◌≡◌, ◌⊎◌, inl, inr, refl, ap, sym, ◌∙◌, subst,
  Bool-cases, is_empty, append_assoc, append-nil, eq_refl,
}
use verustcode.Llm.{bytes}
use verustcode.PrUrl.Text.{Bytes}
use verustcode.PrUrl.Build.{trim_suffix}
use verustcode.PrUrl.RoundTrip.{trim_suffix-append}
use verustcode.Report.{Report, ReportSection}
use verustcode.Report.Merge.{
  is_top_level, is_child_of, filter_sections, top_level, children_of, rule, is_failed, section_text,
  texts, body_entry, body, front, merge_sections,
}

-- A text is one of the parts of another one.
abbrev pub Has : Bytes → Bytes → Type 0
Has part s = (a : Bytes) × (b : Bytes) × (s ≡ a ++ (part ++ b))

-- A row of the list.
abbrev pub Member : ReportSection → List ReportSection → Type 0
Member s [] = ⊥
Member s (y ∷ ys) = (s ≡ y) ⊎ Member s ys

-- A text that is empty or ends with a rule, and one that has the part before such an end.
abbrev Ruled : Bytes → Type 0
Ruled s = (s ≡ []) ⊎ ((q : Bytes) × (s ≡ q ++ rule))

abbrev HasRuled : Bytes → Bytes → Type 0
HasRuled part s = (a : Bytes) × (b : Bytes) × (s ≡ a ++ (part ++ (b ++ rule)))

Ruled-append : (x y : Bytes) → Ruled x → Ruled y → Ruled (x ++ y)
Ruled-append x y hx (inr (q, e)) = inr (x ++ q, rw e (sym (append_assoc x q rule)))
Ruled-append x y (inl nil) (inl e) = inl (rw (nil, e) refl)
Ruled-append x y (inr (q, e)) (inl nil) = inr (q, rw (nil, e) (append-nil (q ++ rule)))

HasRuled-behind : (part x y : Bytes) → HasRuled part y → HasRuled part (x ++ y)
HasRuled-behind part x y (a, b, e) = (x ++ a, b, rw e (sym (append_assoc x a _)))

HasRuled-before : (part x y : Bytes) → HasRuled part x → Ruled y → HasRuled part (x ++ y)
HasRuled-before part x y (a, b, e) (inl nil) = (a, b, rw nil (append-nil x ∙ e))
HasRuled-before part x y (a, b, e) (inr (q, ends)) =
    (a, b ++ (rule ++ q), rw (e, ends) (simp append_assoc))

section_text-Ruled : (heading : Bytes) (s : ReportSection) → Ruled (section_text heading s)
unfolding section_text
section_text-Ruled heading s = elim (Bool-cases (is_empty s.content)) [
  | inr written ↦ rw written (inr (_, refl))
  | inl empty ↦ elim (Bool-cases (is_failed s.status)) [
    | inl failing ↦ rw (empty, failing) (inr (_, refl))
    | inr open_row ↦ rw (empty, open_row) (inl refl)
  ]
]

texts-Ruled : (heading : Bytes) (ss : List ReportSection) → Ruled (texts heading ss)
unfolding texts
texts-Ruled heading [] = inl refl
texts-Ruled heading (s ∷ ss) =
    Ruled-append (section_text heading s) (texts heading ss) (section_text-Ruled heading s)
      (texts-Ruled heading ss)

body_entry-Ruled : (all : List ReportSection) (s : ReportSection) → Ruled (body_entry all s)
unfolding body_entry
body_entry-Ruled all s = elim (Bool-cases s.is_leaf) [
  | inl leaf ↦ rw leaf (section_text-Ruled (bytes "## ") s)
  | inr parent ↦ rw parent (texts-Ruled (bytes "### ") (children_of s.section_id all))
]

body-Ruled : (all ss : List ReportSection) → Ruled (body all ss)
unfolding body
body-Ruled all [] = inl refl
body-Ruled all (s ∷ ss) =
    Ruled-append (body_entry all s) (body all ss) (body_entry-Ruled all s) (body-Ruled all ss)

section_text-shows :
    (heading : Bytes) (s : ReportSection)
    → is_empty s.content ≡ false
    → HasRuled s.content (section_text heading s)
unfolding section_text
section_text-shows heading s written =
    ([], bytes "\n\n", rw written (append_assoc s.content (bytes "\n\n") rule))

texts-shows :
    (heading : Bytes) (s : ReportSection) (ss : List ReportSection)
    → is_empty s.content ≡ false
    → Member s ss
    → HasRuled s.content (texts heading ss)
unfolding texts
texts-shows heading s [] written there = absurd there
texts-shows heading s (y ∷ ys) written (inl this) =
    HasRuled-before s.content (section_text heading y) (texts heading ys)
      (subst (λ (q : ReportSection). HasRuled s.content (section_text heading q)) this
        (section_text-shows heading s written))
      (texts-Ruled heading ys)
texts-shows heading s (y ∷ ys) written (inr later) =
    HasRuled-behind s.content (section_text heading y) (texts heading ys)
      (texts-shows heading s ys written later)

filter_sections-Member :
    (test : ReportSection → Bool) (s : ReportSection) (ss : List ReportSection)
    → test s ≡ true
    → Member s ss
    → Member s (filter_sections test ss)
filter_sections-Member test s [] asked there = absurd there
filter_sections-Member test s (y ∷ ys) asked (inl this) = rw (sym this, asked) (inl refl)
filter_sections-Member test s (y ∷ ys) asked (inr later) = elim (Bool-cases (test y)) [
  | inl kept ↦ rw kept (inr (filter_sections-Member test s ys asked later))
  | inr left ↦ rw left (filter_sections-Member test s ys asked later)
]

body-shows :
    (part : Bytes) (all : List ReportSection) (t : ReportSection) (ss : List ReportSection)
    → HasRuled part (body_entry all t)
    → Member t ss
    → HasRuled part (body all ss)
unfolding body
body-shows part all t [] entry there = absurd there
body-shows part all t (y ∷ ys) entry (inl this) =
    HasRuled-before part (body_entry all y) (body all ys)
      (subst (λ (q : ReportSection). HasRuled part (body_entry all q)) this entry)
      (body-Ruled all ys)
body-shows part all t (y ∷ ys) entry (inr later) =
    HasRuled-behind part (body_entry all y) (body all ys) (body-shows part all t ys entry later)

-- A section stands in the document's tree: a top-level leaf, or a child of a top-level section that is
-- none.
abbrev pub InTree : List ReportSection → ReportSection → Type 0
InTree all s =
    ((s.parent_section_id ≡ none) × (s.is_leaf ≡ true))
    ⊎ ((t : ReportSection) × Member t all
        × (t.parent_section_id ≡ none)
        × (t.is_leaf ≡ false)
        × (s.parent_section_id ≡ some t.section_id))

tree_body :
    (all : List ReportSection) (s : ReportSection)
    → Member s all
    → is_empty s.content ≡ false
    → InTree all s
    → HasRuled s.content (body all (top_level all))
unfolding top_level body_entry children_of
tree_body all s there written (inl (top, leaf)) =
    body-shows s.content all s (top_level all)
      (rw leaf (section_text-shows (bytes "## ") s written))
      (filter_sections-Member is_top_level s all (rw top refl) there)
tree_body all s there written (inr (t, parent, top, inner, child)) =
    body-shows s.content all t (top_level all)
      (rw inner (
        texts-shows (bytes "### ") s (children_of t.section_id all) written (
          filter_sections-Member (is_child_of t.section_id) s all (rw child (eq_refl t.section_id))
            there)))
      (filter_sections-Member is_top_level t all (rw top refl) parent)

-- The last rule can be taken off.
trim_suffix-Has : (part s : Bytes) → HasRuled part s → Has part (trim_suffix rule s)
trim_suffix-Has part s (a, b, e) =
    let regrouped : a ++ (part ++ (b ++ rule)) ≡ (a ++ (part ++ b)) ++ rule = simp append_assoc in
    (
      a,
      b,
      ap (trim_suffix rule) (e ∙ regrouped)
          ∙ trim_suffix-append (a ++ (part ++ b)) 45 (bytes "--\n\n"),
    )

-- The document shows the content of each section that has one and stands in the tree, as a leaf at the
-- top or as a child of a top-level section that is none.
pub merge_sections-Has :
    (to_lower : Bytes → Bytes) (report : Report) (all : List ReportSection) (s : ReportSection)
    → Member s all
    → is_empty s.content ≡ false
    → InTree all s
    → Has s.content (merge_sections to_lower report all)
unfolding merge_sections
merge_sections-Has to_lower report all s there written placed =
    trim_suffix-Has s.content (front to_lower report all ++ body all (top_level all)) (
      HasRuled-behind s.content (front to_lower report all) (body all (top_level all))
        (tree_body all s there written placed))
