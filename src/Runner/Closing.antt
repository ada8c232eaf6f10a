-- ===== src/Runner/Closing.antt =====
-- The rows of a review in the loop of `RunReviewWithTracking`, internal/engine/runner/runner.go.
use verustcode.Base.{
  ℕ, String, true, some, List, [], ◌∷◌, ◌||◌, ◌==◌, ◌≡◌, ◌≢◌, ◌⊎◌, inl, inr, ◌∙◌, arith, All,
  lookup, Bool-cases,
}
use verustcode.Model.{ReviewRule}
use verustcode.Dsl.Schema.{ReviewRuleConfig}
use verustcode.Runner.{
  Execution, after_execution, begin_rule, ended_rule, execute_rule, row_completed, row_failed,
}
use verustcode.Store.{Database, update_rule}

-- The rule has ended, in one way or the other.
abbrev pub IsClosed : ReviewRule → Type 0
IsClosed r = (row_completed r || row_failed r) ≡ true

abbrev pub IsListed : String → List ReviewRuleConfig → Type 0
IsListed id [] = ⊥
IsListed id (rule ∷ rules) = (rule.id ≡ id) ⊎ IsListed id rules

-- A row of the table while `rules` are still to run: of another review, ended, or the row that the
-- map has for one of these rules.
pub data Standing (id : String) (existing : List (String × ReviewRule))
    (rules : List ReviewRuleConfig) (r : ReviewRule) : Type 0 where
  foreign : r.review_id ≢ id → Standing id existing rules r
  closed : IsClosed r → Standing id existing rules r
  waits :
      lookup r.rule_id existing ≡ some r → IsListed r.rule_id rules → Standing id existing rules r

pub ended_rule-IsClosed :
    (env : Execution) (rule : ReviewRuleConfig) (row : ReviewRule)
    → IsClosed (ended_rule env rule row)
unfolding after_execution
ended_rule-IsClosed env rule row = ground arith

ended_rule-id :
    (env : Execution) (rule : ReviewRuleConfig) (row : ReviewRule)
    → (ended_rule env rule row).id ≡ row.id
unfolding after_execution
ended_rule-id env rule row = ground arith

-- The row that is being executed may be anything; the others are as required.
module _ (Q : ReviewRule → Type 0) (id : ℕ) where
  abbrev pub SameOr : ReviewRule → Type 0
  SameOr r = ((r.id == id) ≡ true) ⊎ Q r

  pub update_rule-SameOr :
      (row : ReviewRule) (rs : List ReviewRule)
      → row.id ≡ id
      → All SameOr rs
      → All SameOr (update_rule row rs)
  unfolding update_rule
  update_rule-SameOr row [] h all = tt
  update_rule-SameOr row (r ∷ rs) h (q, all) = elim (Bool-cases (r.id == row.id)) [
    | inl same ↦ rw same (inl (ground arith), update_rule-SameOr row rs h all)
    | inr other ↦ rw other (q, update_rule-SameOr row rs h all)
  ]

  update_rule-ends :
      (row : ReviewRule) (rs : List ReviewRule)
      → row.id ≡ id
      → Q row
      → All SameOr rs
      → All Q (update_rule row rs)
  unfolding update_rule
  update_rule-ends row [] h q all = tt
  update_rule-ends row (r ∷ rs) h q (p, all) = elim (Bool-cases (r.id == row.id)) [
    | inl same ↦ rw same (q, update_rule-ends row rs h q all)
    | inr other ↦ rw other (elim p [
      | inl same ↦ absurd (ground arith)
      | inr kept ↦ (kept, update_rule-ends row rs h q all)
    ])
  ]

  pub execute_rule-ends :
      (env : Execution) (rule : ReviewRuleConfig) (row : ReviewRule) (db : Database)
      → row.id ≡ id
      → Q (ended_rule env rule row)
      → All SameOr db.rules
      → All Q (execute_rule env rule row db).rules
  unfolding execute_rule
  execute_rule-ends env rule row db h q all =
      update_rule-ends _ _ (ended_rule-id env rule row ∙ h) q
        (update_rule-SameOr (begin_rule (env.begun rule.id) row) db.rules h all)
