-- ===== src/Executor/Multi/Again.antt =====
-- A rule whose runs are all completed already, internal/engine/executor/multi.go.
use verustcode.Base.{
  ℕ, zero, suc, ◌+◌, ◌<◌, String, Bool, true, false, none, some, List, [], ◌∷◌, ◌++◌, ◌≡◌, inl, inr,
  refl, ap, ◌∙◌, arith, Bool-cases, ◌==◌, if◌then◌else◌,
}
use verustcode.Model.{ReviewRuleRun}
use verustcode.Dsl.Schema.{MultiRunConfig}
use verustcode.Executor.Multi.{
  RunResult, Surroundings, Progress, runs_of, nth, models_for, existing_run, run_at, run_all,
  add_result, result_of_run, is_completed_run, or_default,
}
use verustcode.Executor.Multi.Merge.{
  all_failed, is_success, successes, merge_successes, get_runs_by_rule_id, execute_multi_run,
}

-- The run of that index has a row that says it has completed.
abbrev pub IsDone : List ReviewRuleRun → ℕ → Type 0
IsDone existing i =
    (row : ReviewRuleRun) × (existing_run i existing ≡ some row)
    × (is_completed_run row.status ≡ true)

successes-append_failure :
    (rs : List RunResult) (r : RunResult)
    → is_success r ≡ false
    → successes (rs ++ (r ∷ [])) ≡ successes rs
unfolding successes
successes-append_failure [] r fails = rw fails refl
successes-append_failure (q ∷ rs) r fails = elim (Bool-cases (is_success q)) [
  | inl this ↦ rw (this, successes-append_failure rs r fails) refl
  | inr other ↦ rw (other, successes-append_failure rs r fails) refl
]

module _ (env : Surroundings) (rule_row : ℕ) (existing : List ReviewRuleRun) where
  run_at-done :
      (i : ℕ) (model : String) (p : Progress)
      → IsDone existing i
      → run_at env rule_row existing i model p ≡ add_result (result_of_run i model none "" none) p
  unfolding run_at
  run_at-done i model p (row, there, done) = rw (there, done, run_at) refl

  -- Nothing is run, and nothing counts as a success.
  run_all-done :
      (left i : ℕ) (models : List String) (p : Progress)
      → ((j : ℕ) → j < i + left → IsDone existing j)
      → p.cancelled ≡ false
      → ((run_all env rule_row existing left i models p).cancelled ≡ false)
        × ((run_all env rule_row existing left i models p).rows ≡ p.rows)
        × (successes (run_all env rule_row existing left i models p).results ≡ successes p.results)
  unfolding run_all
  run_all-done zero i models p done live = (live, refl, refl)
  run_all-done (suc left) i models p done live =
      let model = or_default (nth models i) in
      let p' = add_result (result_of_run i model none "" none) p in
      let rest : Progress → Progress = run_all env rule_row existing left (i + 1) models in
      let step : run_all env rule_row existing (suc left) i models p ≡ rest p' =
        ap (λ (q : Progress). if q.cancelled then q else rest q)
          (run_at-done i model p (done i (omega arith)))
        ∙ ap (λ (b : Bool). if b then p' else rest p') live in
      let (live', rows', few) =
        run_all-done left (i + 1) models p' (λ j inside. done j (omega (arith, inside))) live in
      (
        ap (λ (q : Progress). q.cancelled) step ∙ live',
        ap (λ (q : Progress). q.rows) step ∙ rows',
        ap (λ (q : Progress). successes q.results) step
            ∙ few
            ∙ successes-append_failure p.results _ refl,
      )

-- A rule that is to run several times and whose runs have all completed before, as after a restart
-- before their merge, ends as one whose runs have all failed, and the agent is not asked again: the
-- texts of the earlier runs are lost.
pub execute_multi_run-all_failed :
    (env : Surroundings) (m : MultiRunConfig) (rule_row next_id : ℕ) (table : List ReviewRuleRun)
    → (runs_of m == 1) ≡ false
    → ((j : ℕ) → j < runs_of m → IsDone (get_runs_by_rule_id rule_row table) j)
    → execute_multi_run env m rule_row next_id table ≡ (table, all_failed (runs_of m))
unfolding execute_multi_run merge_successes successes
execute_multi_run-all_failed env m rule_row next_id table several done =
    let (live, rows, few) =
      run_all-done env rule_row (get_runs_by_rule_id rule_row table) (runs_of m) 0
        (models_for (runs_of m) m.models)
        (record { rows = table; next_id = next_id; results = []; cancelled = false })
        (λ j inside. done j (omega (arith, inside))) refl in
    rw (several, live, rows, few) refl
