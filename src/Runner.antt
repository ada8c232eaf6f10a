-- ===== src/Runner.antt =====
-- The execution of a review's rules, `RunReviewWithTracking` and
-- `UpdateReviewStatusAfterRuleExecution` of internal/engine/runner/runner.go, with the writes of a
-- rule's row around its execution in internal/engine/executor/executor.go. What the prompt and
-- the agent make of a rule is an argument. The failure of a database statement is only logged by this
-- code; the statements are taken to succeed. Results and their publication are left out.
pub mod Closing
mod Loop
pub mod Verdict
mod Tests
use verustcode.Base.{
  ℕ, ◌+◌, String, Bool, true, false, Option, none, some, List, [], ◌∷◌, ◌++◌, ◌&&◌, ◌||◌, not, ◌==◌,
  str_eq, if◌then◌else◌, is_empty, any, lookup, insert,
}
use verustcode.Base.Int.{ℤ, pos}
use verustcode.Model.{
  Review, ReviewRule, ReviewStatus, RuleStatus, pending, running, completed, failed, skipped,
}
use verustcode.Store.{Database, get_rules_by_review_id, update_rule, create_rule, close_review}
use verustcode.Dsl.Schema.{ReviewRuleConfig}

-- What `ExecuteRule` comes to: an error with its message, or a result.
pub data Outcome : Type 0 where
  error : String → Outcome
  success : Outcome

-- The outcome of a rule, the clock at its start and end, and at the end of the review.
pub record Execution : Type 0 where
  pub outcome : String → Outcome
  pub begun : String → ℕ
  pub done : String → ℕ
  pub closed_at : ℕ

-- `loadExistingReviewRules`: a map by rule id, in which a later row replaces an earlier one.
unfoldable pub existing_rules :
    List ReviewRule → List (String × ReviewRule) → List (String × ReviewRule)
existing_rules [] m = m
existing_rules (r ∷ rs) m = existing_rules rs (insert r.rule_id r m)

-- `UpdateReviewRuleAfterExecution`.
unfoldable pub after_execution : Outcome → ℕ → ReviewRule → ReviewRule
after_execution (error msg) now row = record row {
  status = failed;
  error_message = msg;
  completed_at = some now;
}
after_execution success now row = record row { status = completed; completed_at = some now }

-- The row as `ExecuteRule` saves it before the run.
abbrev pub begin_rule : ℕ → ReviewRule → ReviewRule
begin_rule now row = record row { status = running; started_at = some now }

abbrev pub is_error : Outcome → Bool
is_error (error msg) = true
is_error success = false

-- Where the loop over the rules stands: the tables, the map of existing rows (whose rows the loop
-- changes in place) and whether a rule has failed.
pub record Progress : Type 0 where
  pub database : Database
  pub existing : List (String × ReviewRule)
  pub has_failed : Bool

-- `ExecuteRule` on a row that the table has: saved as running, then as it ends.
unfoldable pub execute_rule : Execution → ReviewRuleConfig → ReviewRule → Database → Database
unfolding after_execution
execute_rule env rule row db =
    let begun = begin_rule (env.begun rule.id) row in
    let ended = after_execution (env.outcome rule.id) (env.done rule.id) begun in
    record db { rules = update_rule ended (update_rule begun db.rules) }

abbrev pub new_rule : Execution → Review → ReviewRuleConfig → ℕ → ReviewRule
new_rule env review rule id = record {
  id = id;
  review_id = review.id;
  rule_index = pos 0;
  rule_id = rule.id;
  status = running;
  started_at = some (env.begun rule.id);
  completed_at = none;
  error_message = "";
  retry_count = pos 0;
}

abbrev pub is_completed : RuleStatus → Bool
is_completed completed = true
is_completed _ = false

abbrev pub is_failed : RuleStatus → Bool
is_failed failed = true
is_failed _ = false

abbrev pub is_rule_running : RuleStatus → Bool
is_rule_running running = true
is_rule_running _ = false

-- The row that the loop's pointer holds after the execution.
abbrev pub ended_rule : Execution → ReviewRuleConfig → ReviewRule → ReviewRule
ended_rule env rule row =
    after_execution (env.outcome rule.id) (env.done rule.id) (begin_rule (env.begun rule.id) row)

-- A rule that has a row resumes it; the row is first saved as running.
unfoldable pub resume_rule : Execution → ReviewRuleConfig → ReviewRule → Progress → Progress
resume_rule env rule row p =
    let row' = record row { status = running } in
    let db = record p.database { rules = update_rule row' p.database.rules } in
    record {
      database = execute_rule env rule row' db;
      existing = insert rule.id (ended_rule env rule row') p.existing;
      has_failed = p.has_failed || is_error (env.outcome rule.id);
    }

unfoldable pub start_rule : Execution → Review → ReviewRuleConfig → Progress → Progress
start_rule env review rule p =
    let row = new_rule env review rule p.database.next_rule_id in
    record p {
      database = execute_rule env rule row (create_rule row p.database);
      has_failed = p.has_failed || is_error (env.outcome rule.id);
    }

-- The body of the loop of `RunReviewWithTracking`: a rule that is already completed is skipped.
unfoldable pub run_rule : Execution → Review → ReviewRuleConfig → Progress → Progress
run_rule env review rule p = elim (lookup rule.id p.existing) [
  | none ↦ start_rule env review rule p
  | some row ↦ if is_completed row.status then p else resume_rule env rule row p
]

unfoldable pub run_rules : Execution → Review → List ReviewRuleConfig → Progress → Progress
run_rules env review [] p = p
run_rules env review (rule ∷ rules) p = run_rules env review rules (run_rule env review rule p)

abbrev pub row_completed : ReviewRule → Bool
row_completed r = is_completed r.status

abbrev pub row_failed : ReviewRule → Bool
row_failed r = is_failed r.status

abbrev pub row_running : ReviewRule → Bool
row_running r = is_rule_running r.status

-- The status that `UpdateReviewStatusAfterRuleExecution` decides on, `none` when it leaves it.
unfoldable pub decided_status : List ReviewRule → Option ReviewStatus
decided_status rows =
    if any row_running rows
    then none
    else if not (any (λ r. not (row_completed r)) rows)
    then some completed
    else if any row_failed rows
    then some failed
    else none

abbrev pub closing_message : ReviewStatus → String
closing_message failed = "one or more rules failed"
closing_message _ = ""

unfoldable pub update_review_status : Execution → String → Database → Database
update_review_status env id db = elim (decided_status (get_rules_by_review_id id db.rules)) [
  | none ↦ db
  | some status ↦ record db {
    reviews = close_review id status (closing_message status) env.closed_at db.reviews;
  }
]

-- `RunReviewWithTracking`, and whether it returns an error; without rules it does nothing.
unfoldable pub run_review_with_tracking :
    Execution → Review → List ReviewRuleConfig → Database → Database × Bool
run_review_with_tracking env review rules db =
    let p = run_rules env review rules (record {
      database = db;
      existing = existing_rules (get_rules_by_review_id review.id db.rules) [];
      has_failed = false;
    }) in
    if is_empty rules
    then (db, false)
    else (update_review_status env review.id p.database, p.has_failed)
