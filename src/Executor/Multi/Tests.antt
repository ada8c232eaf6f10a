-- ===== src/Executor/Multi/Tests.antt =====
-- Rules that are run twice and three times.
use verustcode.Base.{
  ℕ, zero, suc, ◌+◌, ◌<◌, String, false, none, some, List, [], ◌∷◌, ◌≡◌, inl, inr, refl, arith,
  ◌==◌, if◌then◌else◌,
}
use verustcode.Base.Int.{pos, wrap64}
use verustcode.Model.{ReviewRuleRun, completed}
use verustcode.Dsl.Schema.{MultiRunConfig}
use verustcode.Executor.{plain, next_delay}
use verustcode.Executor.Multi.{
  AgentAnswer, Surroundings, retry_from, attempts, nth, cycle, models_for, existing_run, update_run,
  execute_run, run_at, run_all,
}
use verustcode.Executor.Multi.Merge.{
  merged, all_failed, successes, merge_review_results, result_of_text, merge_successes,
  get_runs_by_rule_id, execute_multi_run,
}
use verustcode.Executor.Multi.Again.{IsDone, execute_multi_run-all_failed}

abbrev answer : String → AgentAnswer
answer text = record { data_text = none; text = text }

-- The first run fails, the others answer; the merge fails.
abbrev agent : Surroundings
agent = record {
  max_retries = pos 1;
  retry_delay = pos 1;
  agent_name = "cursor";
  answers = λ i n. if i == 0 then inl (plain "timeout") else inr (answer "fine");
  is_done = λ i n. false;
  begun = λ i. i;
  done = λ i. i + 1;
  merge = λ rs. inl (plain "no merge");
  failure_text = λ failure. "timeout";
  unmarshal = λ text. none;
}

abbrev thrice : MultiRunConfig
thrice = record { runs = pos 3; models = "a" ∷ "b" ∷ []; merge_model = "" }

models : models_for 3 thrice.models ≡ "a" ∷ "b" ∷ "a" ∷ []
unfolding models_for cycle nth
models = refl

-- The first success stands in for the merge that fails.
falls_back :
    (execute_multi_run agent thrice 1 1 []).1 ≡ merged (record { data_text = none; text = "fine" })
unfolding execute_multi_run run_all run_at execute_run existing_run update_run get_runs_by_rule_id
    attempts retry_from models_for cycle nth successes merge_successes merge_review_results
    result_of_text next_delay wrap64
falls_back = refl

abbrev ended : ℕ → ReviewRuleRun
ended i = record {
  id = i + 1;
  review_rule_id = 1;
  run_index = i;
  model = "a";
  agent = "cursor";
  status = completed;
  started_at = some 0;
  completed_at = some 1;
  error_message = "";
}

abbrev twice : MultiRunConfig
twice = record { runs = pos 2; models = []; merge_model = "" }

abbrev table : List ReviewRuleRun
table = ended 0 ∷ ended 1 ∷ []

table-IsDone : (j : ℕ) → j < 2 → IsDone (get_runs_by_rule_id 1 table) j
unfolding existing_run get_runs_by_rule_id
table-IsDone zero inside = (ended 0, refl, refl)
table-IsDone (suc zero) inside = (ended 1, refl, refl)
table-IsDone (suc (suc j)) inside = absurd (omega (arith, inside))

execute_multi_run-all_failed_example :
    execute_multi_run agent twice 1 3 table ≡ (table, all_failed 2)
execute_multi_run-all_failed_example =
    execute_multi_run-all_failed agent twice 1 3 table refl table-IsDone
