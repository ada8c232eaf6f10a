-- ===== src/Executor/Multi/Merge.antt =====
-- The result of a rule that is run several times, internal/engine/executor/multi.go: the merge of its
-- runs' results, and a single run.
use verustcode.Base.{
  ℕ, String, Bool, false, Option, none, List, [], ◌∷◌, ◌⊎◌, inl, inr, ◌&&◌, ◌||◌, not, ◌==◌, str_eq,
  if◌then◌else◌,
}
use verustcode.Model.{ReviewRuleRun}
use verustcode.Dsl.Schema.{MultiRunConfig}
use verustcode.Queue.{is_some}
use verustcode.Executor.{Failure, finished, gave_up, interrupted}
use verustcode.Executor.Multi.{RunResult, Surroundings, runs_of, attempts, models_for, run_all}

-- `prompt.ReviewResult`: the text of its object, and the plain text.
pub record RuleResult : Type 0 where
  pub data_text : Option String
  pub text : String

-- How it ends: cancelled, with the failure of the only run, without a success of so many runs, or
-- with a result.
pub data Merged : Type 0 where
  cancelled : Merged
  run_failed : Failure → Merged
  all_failed : ℕ → Merged
  merged : RuleResult → Merged

abbrev pub is_success : RunResult → Bool
is_success r = not (is_some r.err) && (is_some r.data_text || not (str_eq r.text ""))

unfoldable pub successes : List RunResult → List RunResult
successes [] = []
successes (r ∷ rs) = let rest = successes rs in if is_success r then r ∷ rest else rest

-- `mergeReviewResults` of these results: the only one's text, or the agent's answer.
unfoldable pub merge_review_results : Surroundings → RunResult → List RunResult → Failure ⊎ String
merge_review_results env first [] = inr first.text
merge_review_results env first (r ∷ rs) = elim (env.merge (first ∷ r ∷ rs)) [
  | inl failure ↦ inl failure
  | inr answer ↦ inr answer.text
]

-- A text as the result.
unfoldable pub result_of_text : Surroundings → String → RuleResult
result_of_text env text = record {
  data_text = if str_eq text "" then none else env.unmarshal text;
  text = text;
}

-- From the successful results on; a merge that fails is replaced by the first of them.
unfoldable pub merge_successes : Surroundings → ℕ → List RunResult → Merged
merge_successes env runs [] = all_failed runs
merge_successes env runs (first ∷ rs) = elim (merge_review_results env first rs) [
  | inl failure ↦ merged (result_of_text env first.text)
  | inr text ↦ merged (result_of_text env text)
]

-- The rows of one rule.
unfoldable pub get_runs_by_rule_id : ℕ → List ReviewRuleRun → List ReviewRuleRun
get_runs_by_rule_id id [] = []
get_runs_by_rule_id id (r ∷ rs) =
    let rest = get_runs_by_rule_id id rs in if r.review_rule_id == id then r ∷ rest else rest

unfoldable pub single_run : Surroundings → Merged
single_run env = elim (attempts env 0).ending [
  | interrupted ↦ cancelled
  | gave_up failure ↦ run_failed failure
  | finished answer ↦ merged (record { data_text = answer.data_text; text = answer.text })
]

-- `executeMultiRun` for the rule's row of that primary key: the table and the result.
unfoldable pub execute_multi_run :
    Surroundings → MultiRunConfig → ℕ → ℕ → List ReviewRuleRun → List ReviewRuleRun × Merged
execute_multi_run env m rule_row next_id table =
    let runs = runs_of m in
    let p =
      run_all env rule_row (get_runs_by_rule_id rule_row table) runs 0 (models_for runs m.models)
        (record { rows = table; next_id = next_id; results = []; cancelled = false }) in
    if runs == 1
    then (table, single_run env)
    else if p.cancelled
    then (p.rows, cancelled)
    else (p.rows, merge_successes env runs (successes p.results))
