-- ===== src/Runner/Tests.antt =====
-- Runs of a review with two rules.
use verustcode.Base.{ℕ, String, none, List, [], ◌∷◌, ◌≡◌, refl, All, lookup, insert, inl, inr}
use verustcode.Base.Int.{pos}
use verustcode.Model.{Review, ReviewRule, ReviewStatus, RuleStatus, pending, running, completed}
use verustcode.Dsl.Schema.{ReviewRuleConfig, default_review_rule_config}
use verustcode.Samples.{sample_review}
use verustcode.Runner.{
  Execution, Outcome, error, success, after_execution, execute_rule, resume_rule, start_rule,
  run_rule, run_rules, existing_rules, decided_status, run_review_with_tracking,
  update_review_status,
}
use verustcode.Store.{Database, create_rule, update_rule, get_rules_by_review_id, close_review}
use verustcode.Runner.Closing.{IsClosed}
use verustcode.Runner.Verdict.{DistinctRules, HasStatus, verdict, run_review-verdict}

abbrev rule : String → ReviewRuleConfig
rule id = record default_review_rule_config { id = id }

abbrev rules : List ReviewRuleConfig
rules = rule "security" ∷ rule "style" ∷ []

abbrev review : Review
review = record (sample_review "r1" "a") { status = running }

abbrev row : ℕ → String → RuleStatus → ReviewRule
row id rule_id status = record {
  id = id;
  review_id = "r1";
  rule_index = pos 0;
  rule_id = rule_id;
  status = status;
  started_at = none;
  completed_at = none;
  error_message = "";
  retry_count = pos 0;
}

abbrev before : List ReviewRule → Database
before rows = record {
  reviews = review ∷ sample_review "r2" "a" ∷ [];
  rules = rows;
  next_rule_id = 9;
  runs = [];
  results = [];
}

abbrev outcomes : (String → Outcome) → Execution
outcomes f = record { outcome = f; begun = λ id. 1; done = λ id. 2; closed_at = 3 }

abbrev all_succeed : Execution
all_succeed = outcomes (λ id. success)

abbrev all_fail : Execution
all_fail = outcomes (λ id. error "timeout")

abbrev statuses : List Review → List ReviewStatus
statuses [] = []
statuses (r ∷ rs) = r.status ∷ statuses rs

-- A rule that is resumed and a new one complete the review; the other review is left alone.
completes :
    statuses
      (run_review_with_tracking all_succeed review rules
        (before (row 1 "security" pending ∷ []))).0.reviews
    ≡ completed ∷ pending ∷ []
unfolding run_review_with_tracking run_rules run_rule resume_rule start_rule create_rule
    execute_rule after_execution update_rule get_rules_by_review_id existing_rules decided_status
    update_review_status close_review lookup insert
completes = refl

-- A pending row whose rule is not in the configuration that is run keeps the review running.
stale_row :
    statuses
      (run_review_with_tracking all_succeed review rules
        (before (row 1 "old" pending ∷ []))).0.reviews
    ≡ running ∷ pending ∷ []
unfolding run_review_with_tracking run_rules run_rule resume_rule start_rule create_rule
    execute_rule after_execution update_rule get_rules_by_review_id existing_rules decided_status
    update_review_status close_review lookup insert
stale_row = refl

abbrev resumed : Database
resumed = (run_review_with_tracking all_fail review rules (before (row 1 "style" pending ∷ []))).0

rows_distinct : DistinctRules (get_rules_by_review_id "r1" (row 1 "style" pending ∷ []))
unfolding get_rules_by_review_id
rows_distinct = (tt, tt)

run_review-verdict_example :
    All IsClosed (get_rules_by_review_id "r1" resumed.rules)
    × All (HasStatus "r1" (verdict (get_rules_by_review_id "r1" resumed.rules))) resumed.reviews
unfolding get_rules_by_review_id
run_review-verdict_example =
    run_review-verdict all_fail review rules (before (row 1 "style" pending ∷ [])) refl
      rows_distinct (inr (inl refl), tt)
