-- ===== src/Runner/Verdict.antt =====
-- The status of a review after `RunReviewWithTracking` of internal/engine/runner/runner.go.
use verustcode.Base.{
  ℕ, String, false, some, List, [], ◌∷◌, not, ◌≡◌, ◌≢◌, inl, inr, refl, ◌∙◌, arith, eq_iff, eq_refl,
  All, lookup, insert, lookup-insert, Bool-cases, Option-cases, str-cases, ne_of, str_eq, str_eq_ne,
  any, if◌then◌else◌, is_empty,
}
use verustcode.Model.{Review, ReviewRule, ReviewStatus, completed, failed}
use verustcode.Dsl.Schema.{ReviewRuleConfig}
use verustcode.Runner.{
  Execution, Progress, run_rules, existing_rules, decided_status, run_review_with_tracking,
  update_review_status, row_completed, row_failed, row_running,
}
use verustcode.Store.{Database, get_rules_by_review_id, close_review}
use verustcode.Runner.Closing.{IsClosed, IsListed, Standing, foreign, closed, waits}
use verustcode.Runner.Loop.{run_rules-AllStanding}

abbrev pub DistinctRules : List ReviewRule → Type 0
DistinctRules [] = Unit
DistinctRules (r ∷ rs) = All (λ s. s.rule_id ≢ r.rule_id) rs × DistinctRules rs

-- The status that the ended rules of a review stand for.
abbrev pub verdict : List ReviewRule → ReviewStatus
verdict rows = if any row_failed rows then failed else completed

abbrev pub HasStatus : String → ReviewStatus → Review → Type 0
HasStatus id status r = r.id ≡ id → r.status ≡ status

lookup-existing_other :
    (k : String) (rs : List ReviewRule) (m : List (String × ReviewRule))
    → All (λ s. s.rule_id ≢ k) rs
    → lookup k (existing_rules rs m) ≡ lookup k m
unfolding existing_rules
lookup-existing_other k [] m all = refl
lookup-existing_other k (r ∷ rs) m (ne, all) =
    lookup-existing_other k rs (insert r.rule_id r m) all
    ∙ rw (lookup-insert, str_eq_ne r.rule_id k ne)

lookup-existing :
    (rs : List ReviewRule) (m : List (String × ReviewRule))
    → DistinctRules rs
    → All (λ r. lookup r.rule_id (existing_rules rs m) ≡ some r) rs
unfolding existing_rules
lookup-existing [] m distinct = tt
lookup-existing (r ∷ rs) m (apart, distinct) = (
  lookup-existing_other r.rule_id rs (insert r.rule_id r m) apart
      ∙ rw (lookup-insert, eq_refl r.rule_id),
  lookup-existing rs (insert r.rule_id r m) distinct,
)

-- Of all rows, those of the review stand as its own rows do.
stands :
    (id : String) (ex : List (String × ReviewRule)) (rules : List ReviewRuleConfig)
    (rs : List ReviewRule)
    → All (λ r. lookup r.rule_id ex ≡ some r) (get_rules_by_review_id id rs)
    → All (λ r. IsListed r.rule_id rules) (get_rules_by_review_id id rs)
    → All (Standing id ex rules) rs
unfolding get_rules_by_review_id
stands id ex rules [] found listed = tt
stands id ex rules (r ∷ rs) found listed = elim (str-cases r.review_id id) [
  | inl same ↦
      let found' : (lookup r.rule_id ex ≡ some r)
          × All (λ s. lookup s.rule_id ex ≡ some s) (get_rules_by_review_id id rs) =
        rw ((eq_iff r.review_id id).1 same) at found in
      let listed' : IsListed r.rule_id rules
          × All (λ s. IsListed s.rule_id rules) (get_rules_by_review_id id rs) =
        rw ((eq_iff r.review_id id).1 same) at listed in
      (waits found'.0 listed'.0, stands id ex rules rs found'.1 listed'.1)
  | inr other ↦ (
    foreign (ne_of r.review_id id other),
    stands id ex rules rs (rw other at found) (rw other at listed),
  )
]

get_rules_by_review_id-IsClosed :
    (id : String) (ex : List (String × ReviewRule)) (rs : List ReviewRule)
    → All (Standing id ex []) rs
    → All IsClosed (get_rules_by_review_id id rs)
unfolding get_rules_by_review_id
get_rules_by_review_id-IsClosed id ex [] all = tt
get_rules_by_review_id-IsClosed id ex (r ∷ rs) (foreign ne, all) =
    rw (str_eq_ne r.review_id id ne) (get_rules_by_review_id-IsClosed id ex rs all)
get_rules_by_review_id-IsClosed id ex (r ∷ rs) (waits has listed, all) = absurd listed
get_rules_by_review_id-IsClosed id ex (r ∷ rs) (closed h, all) =
    elim (Bool-cases (str_eq r.review_id id)) [
      | inl same ↦ rw same (h, get_rules_by_review_id-IsClosed id ex rs all)
      | inr other ↦ rw other (get_rules_by_review_id-IsClosed id ex rs all)
    ]

none-running : (rs : List ReviewRule) → All IsClosed rs → any row_running rs ≡ false
none-running [] all = refl
none-running (r ∷ rs) (h, all) = ground (arith, none-running rs all)

open-failed :
    (rs : List ReviewRule)
    → All IsClosed rs
    → any (λ r. not (row_completed r)) rs ≡ any row_failed rs
open-failed [] all = refl
open-failed (r ∷ rs) (h, all) = ground (arith, open-failed rs all)

decided_status-closed :
    (rs : List ReviewRule) → All IsClosed rs → decided_status rs ≡ some (verdict rs)
unfolding decided_status
decided_status-closed rs all = elim (Bool-cases (any row_failed rs)) [
  | inl bad ↦ rw (none-running rs all, open-failed rs all, bad)
  | inr good ↦ rw (none-running rs all, open-failed rs all, good)
]

pub close_review-HasStatus :
    (id : String) (status : ReviewStatus) (msg : String) (now : ℕ) (rs : List Review)
    → All (HasStatus id status) (close_review id status msg now rs)
unfolding close_review
close_review-HasStatus id status msg now [] = tt
close_review-HasStatus id status msg now (r ∷ rs) = elim (str-cases r.id id) [
  | inl same ↦ rw ((eq_iff r.id id).1 same) (λ e. refl, close_review-HasStatus id status msg now rs)
  | inr other ↦
      rw other (λ e. absurd (ne_of r.id id other e), close_review-HasStatus id status msg now rs)
]

update_review_status-verdict :
    (env : Execution) (id : String) (db : Database)
    → All IsClosed (get_rules_by_review_id id db.rules)
    → All
        (HasStatus id (verdict (get_rules_by_review_id id db.rules)))
        (update_review_status env id db).reviews
unfolding update_review_status
update_review_status-verdict env id db all =
    rw (decided_status-closed (get_rules_by_review_id id db.rules) all, update_review_status)
      (close_review-HasStatus id _ _ env.closed_at db.reviews)

pub update_review_status-rules :
    (env : Execution) (id : String) (db : Database)
    → (update_review_status env id db).rules ≡ db.rules
unfolding update_review_status
update_review_status-rules env id db =
    elim (Option-cases (decided_status (get_rules_by_review_id id db.rules))) [
      | inl nothing ↦ rw (nothing, update_review_status)
      | inr (status, chosen) ↦ rw (chosen, update_review_status)
    ]

-- A review is brought to an end: where the configuration has rules, no two of the review's rows are
-- for one rule and each is for a rule of the configuration, every row of the review has completed or
-- failed after the run, whatever the executions come to, and the review itself is failed if some
-- row failed and completed otherwise.
pub run_review-verdict :
    (env : Execution) (review : Review) (rules : List ReviewRuleConfig) (db : Database)
    → is_empty rules ≡ false
    → DistinctRules (get_rules_by_review_id review.id db.rules)
    → All (λ r. IsListed r.rule_id rules) (get_rules_by_review_id review.id db.rules)
    → All IsClosed
        (get_rules_by_review_id review.id (run_review_with_tracking env review rules db).0.rules)
      × All
          (HasStatus review.id (
            verdict (
              get_rules_by_review_id review.id
                (run_review_with_tracking env review rules db).0.rules)))
          (run_review_with_tracking env review rules db).0.reviews
unfolding run_review_with_tracking
run_review-verdict env review rules db some_rules distinct listed =
    let rows = get_rules_by_review_id review.id db.rules in
    let begun : Progress = record {
      database = db;
      existing = existing_rules rows [];
      has_failed = false;
    } in
    let ended = run_rules env review rules begun in
    let rows_closed : All IsClosed (get_rules_by_review_id review.id ended.database.rules) =
      get_rules_by_review_id-IsClosed review.id ended.existing ended.database.rules (
        run_rules-AllStanding env review rules begun (
          stands review.id (existing_rules rows []) rules db.rules
            (lookup-existing rows [] distinct) listed)) in
    rw (some_rules, update_review_status-rules env review.id ended.database)
      (rows_closed, update_review_status-verdict env review.id ended.database rows_closed)
