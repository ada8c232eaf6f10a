-- ===== src/Executor/Multi.antt =====
-- The runs of a rule that is run several times, internal/engine/executor/multi.go. The agent, the context
-- and the clock are arguments: the agent's answer to each call of each run, and to the request to
-- merge the results, whose prompt is left out. So is encoding/json's reading of a text as an object.
-- The rule's row is there, and the writes of the runs' rows succeed; the durations and the number of
-- findings are left out.
pub mod Merge
mod Bounds
mod Again
mod Tests
use Prim.Native.Nat.{◌%◌}
use verustcode.Base.{
  ℕ, zero, suc, ◌+◌, ◌-◌, String, Bool, true, false, Option, none, some, List, [], ◌∷◌, ◌++◌, ◌⊎◌,
  inl, inr, ◌&&◌, ◌||◌, not, ◌==◌, str_eq, ltb, length, is_empty, if◌then◌else◌,
}
use verustcode.Base.Int.{ℤ, pos, pos_part, scale, wrap64, ltb_ℤ}
use verustcode.Model.{ReviewRuleRun, RunStatus, pending, running, completed, failed}
use verustcode.Dsl.Schema.{MultiRunConfig}
use verustcode.Executor.{
  Failure, Run, finished, gave_up, interrupted, one_call, after_wait, next_delay,
  default_max_retries, default_retry_delay, second,
}

-- An agent's answer: the text of its object, `none` when that is empty, and the plain text.
pub record AgentAnswer : Type 0 where
  pub data_text : Option String
  pub text : String

-- `RunResult`.
pub record RunResult : Type 0 where
  pub index : ℕ
  pub model : String
  pub data_text : Option String
  pub text : String
  pub err : Option Failure

pub record Surroundings : Type 0 where
  pub max_retries : ℤ
  pub retry_delay : ℤ
  pub agent_name : String
  pub answers : ℕ → ℕ → Failure ⊎ AgentAnswer
  pub is_done : ℕ → ℕ → Bool
  pub begun : ℕ → ℕ
  pub done : ℕ → ℕ
  pub merge : List RunResult → Failure ⊎ AgentAnswer
  pub failure_text : Failure → String
  pub unmarshal : String → Option String

abbrev pub default_multi_run_count : ℕ
default_multi_run_count = 2

abbrev pub runs_of : MultiRunConfig → ℕ
runs_of m = if ltb_ℤ (pos 0) m.runs then pos_part m.runs else default_multi_run_count

abbrev pub or_default : String → String
or_default model = if str_eq model "" then "default" else model

-- The settings of the configuration file, where what is not positive stands for the default.
abbrev pub retries_of : Surroundings → ℕ
retries_of env =
    if ltb_ℤ (pos 0) env.max_retries then pos_part env.max_retries else default_max_retries

abbrev pub delay_of : Surroundings → ℤ
delay_of env =
    let delay = wrap64 (scale second env.retry_delay) in
    if ltb_ℤ (pos 0) delay then delay else default_retry_delay

module _ {A : Type 0} (answers : ℕ → Failure ⊎ A) (is_done : ℕ → Bool) where
  -- The loop of attempts from that call on, with so many retries left: whatever the failure.
  unfoldable pub retry_from : ℕ → ℕ → ℤ → Run A
  retry_from zero n delay = elim (answers n) [
    | inr result ↦ one_call (finished result)
    | inl failure ↦ one_call (gave_up failure)
  ]
  retry_from (suc left) n delay =
      let later = retry_from left (n + 1) (next_delay delay) in
      elim (answers n) [
        | inr result ↦ one_call (finished result)
        | inl failure ↦ if is_done (n + 1) then one_call interrupted else after_wait delay later
      ]

unfoldable pub attempts : Surroundings → ℕ → Run AgentAnswer
attempts env i = retry_from (env.answers i) (env.is_done i) (retries_of env) 0 (delay_of env)

-- The model of that index, the list gone through again and again.
unfoldable pub nth : List String → ℕ → String
nth [] n = ""
nth (m ∷ ms) zero = m
nth (m ∷ ms) (suc n) = nth ms n

unfoldable pub cycle : List String → ℕ → ℕ → List String
cycle models zero i = []
cycle models (suc left) i = nth models (i % length models) ∷ cycle models left (i + 1)

unfoldable pub repeat : ℕ → List String
repeat zero = []
repeat (suc n) = "" ∷ repeat n

-- The models of the runs.
unfoldable pub models_for : ℕ → List String → List String
models_for runs models =
    if is_empty models
    then repeat runs
    else if ltb (length models) runs
    then cycle models runs 0
    else models

-- `LoadExistingReviewRuleRuns`: the last row of a run counts.
unfoldable pub existing_run : ℕ → List ReviewRuleRun → Option ReviewRuleRun
existing_run i [] = none
existing_run i (r ∷ rs) = elim (existing_run i rs) [
  | some later ↦ some later
  | none ↦ if r.run_index == i then some r else none
]

unfoldable pub update_run : ReviewRuleRun → List ReviewRuleRun → List ReviewRuleRun
update_run row [] = []
update_run row (r ∷ rs) =
    let rest = update_run row rs in if r.id == row.id then row ∷ rest else r ∷ rest

-- The rows, the next primary key, the results so far, and whether the context was found done.
pub record Progress : Type 0 where
  pub rows : List ReviewRuleRun
  pub next_id : ℕ
  pub results : List RunResult
  pub cancelled : Bool

abbrev pub is_completed_run : RunStatus → Bool
is_completed_run completed = true
is_completed_run _ = false

abbrev pub is_failed_run : RunStatus → Bool
is_failed_run failed = true
is_failed_run _ = false

abbrev pub result_of_run : ℕ → String → Option String → String → Option Failure → RunResult
result_of_run i model data_text text err = record {
  index = i + 1;
  model = model;
  data_text = data_text;
  text = text;
  err = err;
}

abbrev pub add_result : RunResult → Progress → Progress
add_result r p = record p { results = p.results ++ (r ∷ []) }

-- A run on its row.
unfoldable pub execute_run : Surroundings → ℕ → String → ReviewRuleRun → Progress → Progress
execute_run env i model row p =
    let ended = record row { completed_at = some (env.done i) } in
    elim (attempts env i).ending [
      | interrupted ↦ record p { cancelled = true }
      | finished answer ↦
          add_result (result_of_run i model answer.data_text answer.text none)
            (record p { rows = update_run (record ended { status = completed }) p.rows })
      | gave_up failure ↦ add_result (result_of_run i model none "" (some failure)) (record p {
        rows =
            update_run (record ended { status = failed; error_message = env.failure_text failure })
              p.rows;
      })
    ]

abbrev pub new_run : Surroundings → ℕ → ℕ → String → ℕ → ReviewRuleRun
new_run env rule_row i model id = record {
  id = id;
  review_rule_id = rule_row;
  run_index = i;
  model = model;
  agent = env.agent_name;
  status = running;
  started_at = some (env.begun i);
  completed_at = none;
  error_message = "";
}

abbrev pub resumed_run : Surroundings → ℕ → ReviewRuleRun → ReviewRuleRun
resumed_run env i row =
    if is_failed_run row.status
    then record row { status = running; started_at = some (env.begun i) }
    else row

-- The body of the loop over the runs; a completed run is not repeated, and brings no text.
unfoldable pub run_at : Surroundings → ℕ → List ReviewRuleRun → ℕ → String → Progress → Progress
run_at env rule_row existing i model p = elim (existing_run i existing) [
  | none ↦
      let row = new_run env rule_row i model p.next_id in
      execute_run env i model row
        (record p { rows = p.rows ++ (row ∷ []); next_id = p.next_id + 1 })
  | some row ↦
      if is_completed_run row.status
      then add_result (result_of_run i model none "" none) p
      else execute_run env i model (resumed_run env i row)
          (record p { rows = update_run (resumed_run env i row) p.rows })
]

unfoldable pub run_all :
    Surroundings → ℕ → List ReviewRuleRun → ℕ → ℕ → List String → Progress → Progress
run_all env rule_row existing zero i models p = p
run_all env rule_row existing (suc left) i models p =
    let p' = run_at env rule_row existing i (or_default (nth models i)) p in
    let rest = run_all env rule_row existing left (i + 1) models p' in
    if p'.cancelled then p' else rest
