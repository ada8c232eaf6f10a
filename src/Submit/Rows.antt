-- ===== src/Submit/Rows.antt =====
-- The rows of rules that `Submit`, internal/engine/engine.go, creates.
use verustcode.Base.{
  ℕ, suc, ◌+◌, String, Bool, false, true, List, [], ◌∷◌, ◌++◌, ◌≡◌, ◌≢◌, inl, inr, refl, ◌∙◌, ap,
  All, All-map, Bool-cases, str_eq, eq_refl, if◌then◌else◌, append_assoc, append-nil,
}
use verustcode.Model.{ReviewRule}
use verustcode.Dsl.Schema.{ReviewRuleConfig}
use verustcode.Store.{Database, get_rules_by_review_id, create_rule}
use verustcode.Runner.Closing.{IsListed}
use verustcode.Runner.Verdict.{DistinctRules}
use verustcode.Submit.{pending_rule, create_rules}

-- One pending row for each rule, in order, with consecutive primary keys.
abbrev pub pending_rows : String → ℕ → ℕ → List ReviewRuleConfig → List ReviewRule
pending_rows review_id index id [] = []
pending_rows review_id index id (rule ∷ rules) =
    pending_rule review_id index rule.id id ∷ pending_rows review_id (suc index) (id + 1) rules

abbrev pub DistinctIds : List ReviewRuleConfig → Type 0
DistinctIds [] = Unit
DistinctIds (rule ∷ rules) =
    All (λ (r : ReviewRuleConfig). r.id ≢ rule.id) rules × DistinctIds rules

get_rules-append :
    (id : String) (rs : List ReviewRule) (row : ReviewRule)
    → row.review_id ≡ id
    → get_rules_by_review_id id (rs ++ (row ∷ [])) ≡ get_rules_by_review_id id rs ++ (row ∷ [])
unfolding get_rules_by_review_id
get_rules-append id [] row own = rw (own, eq_refl id) refl
get_rules-append id (r ∷ rs) row own = elim (Bool-cases (str_eq r.review_id id)) [
  | inl this ↦ rw (this, get_rules-append id rs row own) refl
  | inr other ↦ rw (other, get_rules-append id rs row own) refl
]

-- The rows that are created follow the ones that were there.
pub create_rules-rows :
    (fails : String → Bool) (id : String) (index : ℕ) (rules : List ReviewRuleConfig)
    (db : Database)
    → ((rule : String) → fails rule ≡ false)
    → get_rules_by_review_id id (create_rules fails id index rules db).rules
      ≡ get_rules_by_review_id id db.rules ++ pending_rows id index db.next_rule_id rules
unfolding create_rules create_rule
create_rules-rows fails id index [] db never = rw append-nil refl
create_rules-rows fails id index (rule ∷ rules) db never =
    let row = pending_rule id index rule.id db.next_rule_id in
    let created : (if fails rule.id then db else create_rule row db) ≡ create_rule row db =
      rw (never rule.id) refl in
    ap
      (λ (d : Database).
        get_rules_by_review_id id (create_rules fails id (suc index) rules d).rules)
      created
    ∙ create_rules-rows fails id (suc index) rules (create_rule row db) never
    ∙ ap (λ (rs : List ReviewRule). rs ++ pending_rows id (suc index) (db.next_rule_id + 1) rules)
        (get_rules-append id db.rules row refl)
    ∙ append_assoc (get_rules_by_review_id id db.rules) (row ∷ [])
        (pending_rows id (suc index) (db.next_rule_id + 1) rules)

written-reviews :
    (fails : Bool) (row : ReviewRule) (db : Database)
    → (if fails then db else create_rule row db).reviews ≡ db.reviews
unfolding create_rule
written-reviews true row db = refl
written-reviews false row db = refl

pub create_rules-reviews :
    (fails : String → Bool) (id : String) (index : ℕ) (rules : List ReviewRuleConfig)
    (db : Database)
    → (create_rules fails id index rules db).reviews ≡ db.reviews
unfolding create_rules create_rule
create_rules-reviews fails id index [] db = refl
create_rules-reviews fails id index (rule ∷ rules) db =
    create_rules-reviews fails id (suc index) rules _
    ∙ written-reviews (fails rule.id) (pending_rule id index rule.id db.next_rule_id) db

other_rules :
    (review_id : String) (k : String) (index id : ℕ) (rules : List ReviewRuleConfig)
    → All (λ (r : ReviewRuleConfig). r.id ≢ k) rules
    → All (λ (r : ReviewRule). r.rule_id ≢ k) (pending_rows review_id index id rules)
other_rules review_id k index id [] all = tt
other_rules review_id k index id (rule ∷ rules) (ne, all) =
    (ne, other_rules review_id k (suc index) (id + 1) rules all)

pub pending_rows-DistinctRules :
    (review_id : String) (index id : ℕ) (rules : List ReviewRuleConfig)
    → DistinctIds rules
    → DistinctRules (pending_rows review_id index id rules)
pending_rows-DistinctRules review_id index id [] distinct = tt
pending_rows-DistinctRules review_id index id (rule ∷ rules) (apart, distinct) = (
  other_rules review_id rule.id (suc index) (id + 1) rules apart,
  pending_rows-DistinctRules review_id (suc index) (id + 1) rules distinct,
)

pub pending_rows-IsListed :
    (review_id : String) (index id : ℕ) (rules : List ReviewRuleConfig)
    → All (λ (r : ReviewRule). IsListed r.rule_id rules) (pending_rows review_id index id rules)
pending_rows-IsListed review_id index id [] = tt
pending_rows-IsListed review_id index id (rule ∷ rules) = (
  inl refl,
  All-map (λ r later. inr later) (pending_rows review_id (suc index) (id + 1) rules)
      (pending_rows-IsListed review_id (suc index) (id + 1) rules),
)
