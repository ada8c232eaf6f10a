-- ===== src/Report/Rows.antt =====
-- The rows of internal/store/report.go: what saving one changes, and what a query answers.
use verustcode.Base.{
  Bool, true, false, List, [], ◌∷◌, ◌≡◌, ◌⊎◌, inl, inr, refl, arith, Bool-cases, any, All,
  All-append, All-map, leb, if◌then◌else◌,
}
use verustcode.Store.{update_where}
use verustcode.Report.{ReportSection}
use verustcode.Report.Store.{save_where, sections_where, insert_by_index}

module _ {A : Type 0} (selects : A → Bool) where
  update_where-trades {ℓ κ} :
      (P : A → Type ℓ) (Q : A → Type κ) (row : A) (rs : List A)
      → ((r : A) → selects r ≡ false → P r → Q r)
      → Q row
      → All P rs
      → All Q (update_where selects (λ old. row) rs)
  unfolding update_where
  update_where-trades P Q row [] kept new all = tt
  update_where-trades P Q row (r ∷ rs) kept new (p, all) = elim (Bool-cases (selects r)) [
    | inl this ↦ rw this (new, update_where-trades P Q row rs kept new all)
    | inr other ↦ rw other (kept r other p, update_where-trades P Q row rs kept new all)
  ]

  none_selected {ℓ κ} :
      (P : A → Type ℓ) (Q : A → Type κ) (rs : List A)
      → ((r : A) → selects r ≡ false → P r → Q r)
      → any selects rs ≡ false
      → All P rs
      → All Q rs
  none_selected P Q [] kept missing all = tt
  none_selected P Q (r ∷ rs) kept missing (p, all) = elim (Bool-cases (selects r)) [
    | inl this ↦ absurd (ground arith)
    | inr other ↦ (kept r other p, none_selected P Q rs kept (ground arith) all)
  ]

  -- A saved row takes the place of those that it is saved over.
  pub save_where-trades {ℓ κ} :
      (P : A → Type ℓ) (Q : A → Type κ) (row : A) (rs : List A)
      → ((r : A) → selects r ≡ false → P r → Q r)
      → Q row
      → All P rs
      → All Q (save_where selects row rs)
  unfolding save_where
  save_where-trades P Q row rs kept new all = elim (Bool-cases (any selects rs)) [
    | inl there ↦ rw there (update_where-trades P Q row rs kept new all)
    | inr missing ↦
        rw missing (All-append Q rs (row ∷ []) (none_selected P Q rs kept missing all) (new, tt))
  ]

-- A row of the list has the key and the status.
abbrev pub Matches : ReportSection → List ReportSection → Type 0
Matches r [] = ⊥
Matches r (y ∷ ys) = ((y.id ≡ r.id) × (y.status ≡ r.status)) ⊎ Matches r ys

insert_by_index-Matches :
    (r row : ReportSection) (rs : List ReportSection)
    → Matches r rs
    → Matches r (insert_by_index row rs)
unfolding insert_by_index
insert_by_index-Matches r row [] h = elim h [ ]
insert_by_index-Matches r row (y ∷ ys) h =
    elim (Bool-cases (leb row.section_index y.section_index)) [
      | inl here ↦ rw here (inr h)
      | inr later ↦
          rw later (elim h [
            | inl this ↦ inl this
            | inr more ↦ inr (insert_by_index-Matches r row ys more)
          ])
    ]

insert_by_index-own :
    (r : ReportSection) (rs : List ReportSection) → Matches r (insert_by_index r rs)
unfolding insert_by_index
insert_by_index-own r [] = inl (refl, refl)
insert_by_index-own r (y ∷ ys) = elim (Bool-cases (leb r.section_index y.section_index)) [
  | inl here ↦ rw here (inl (refl, refl))
  | inr later ↦ rw later (inr (insert_by_index-own r ys))
]

either-Matches :
    (b : Bool) (q r : ReportSection) (rs : List ReportSection)
    → Matches q rs
    → Matches q (if b then insert_by_index r rs else rs)
either-Matches true q r rs h = insert_by_index-Matches q r rs h
either-Matches false q r rs h = h

-- The query answers with every row that it selects.
pub sections_where-Matches :
    (selects : ReportSection → Bool) (rs : List ReportSection)
    → All (λ r. selects r ≡ true → Matches r (sections_where selects rs)) rs
unfolding sections_where
sections_where-Matches selects [] = tt
sections_where-Matches selects (r ∷ rs) = (
  λ asked. rw asked (insert_by_index-own r (sections_where selects rs)),
  All-map {Q = λ q. selects q ≡ true → Matches q (sections_where selects (r ∷ rs))}
      (λ q h asked. either-Matches (selects r) q r (sections_where selects rs) (h asked)) rs
      (sections_where-Matches selects rs),
)
