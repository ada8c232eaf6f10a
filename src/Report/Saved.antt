-- ===== src/Report/Saved.antt =====
-- What is saved in the report store, internal/store/report.go, is what is read.
use verustcode.Base.{
  Bool, true, false, some, List, [], ◌∷◌, ◌++◌, ◌≡◌, inl, inr, refl, arith, Bool-cases, any,
  eq_refl, eq_iff, String, subst,
}
use verustcode.Store.{update_where, first_where}
use verustcode.Store.Rows.{first_where-selected}
use verustcode.Report.{Report}
use verustcode.Report.Store.{ReportDatabase, get_report, save_report, save_where, is_report}
use verustcode.Report.Run.{Surroundings, Statement, Progress, save}

module _ {A : Type 0} (selects : A → Bool) (row : A) (own : selects row ≡ true) where
  first_where-replaced :
      (rs : List A)
      → any selects rs ≡ true
      → first_where selects (update_where selects (λ old. row) rs) ≡ some row
  unfolding first_where update_where
  first_where-replaced [] some_row = cc
  first_where-replaced (r ∷ rs) some_row = elim (Bool-cases (selects r)) [
    | inl this ↦ rw (this, own) refl
    | inr other ↦ rw (other, other) (first_where-replaced rs (ground arith))
  ]

  pub first_where-added :
      (rs : List A) → any selects rs ≡ false → first_where selects (rs ++ (row ∷ [])) ≡ some row
  unfolding first_where
  first_where-added [] none_yet = rw own refl
  first_where-added (r ∷ rs) none_yet = elim (Bool-cases (selects r)) [
    | inl this ↦ absurd (ground arith)
    | inr other ↦ rw other (first_where-added rs (ground arith))
  ]

  -- What was saved is what is read.
  pub first_where-save_where :
      (rs : List A) → first_where selects (save_where selects row rs) ≡ some row
  unfolding save_where
  first_where-save_where rs = elim (Bool-cases (any selects rs)) [
    | inl there ↦ rw there (first_where-replaced rs there)
    | inr missing ↦ rw missing (first_where-added rs missing)
  ]

pub get_report-save_report :
    (row : Report) (db : ReportDatabase) → get_report row.id (save_report row db) ≡ some row
unfolding get_report save_report
get_report-save_report row db =
    first_where-save_where (is_report row.id) row (eq_refl row.id) db.reports

-- So is the engine's copy of a report, if the statement succeeds.
pub save-stored :
    (env : Surroundings) (id : String) (s : Statement) (p : Progress)
    → env.fails s ≡ false
    → p.report.id ≡ id
    → get_report id (save env s p).database ≡ some (save env s p).report
save-stored env id s p works own = rw works (
    subst (λ (k : String). get_report k (save_report p.report p.database) ≡ some p.report) own
      (get_report-save_report p.report p.database))

pub get_report-own :
    (id : String) (db : ReportDatabase) (r : Report) → get_report id db ≡ some r → r.id ≡ id
unfolding get_report
get_report-own id db r found =
    (eq_iff r.id id).0 (first_where-selected (is_report id) db.reports r found)
