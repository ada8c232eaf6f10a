-- ===== src/Executor/Multi/Bounds.antt =====
-- The models, the attempts and the results of internal/engine/executor/multi.go, counted.
use Prim.Native.Nat.{◌%◌}
use native.Mathlib.Nat.{mod-eq_of_lt}
use verustcode.Base.{
  ℕ, zero, suc, ◌+◌, ◌≤◌, ◌<◌, String, Bool, false, List, ◌≡◌, ◌⊎◌, inl, inr, refl, sym, ap, ◌∙◌,
  arith, Bool-cases, ltb, length, is_empty,
}
use verustcode.Base.Int.{ℤ}
use verustcode.Executor.{Failure, next_delay}
use verustcode.Executor.Multi.{retry_from, nth, cycle, models_for}

nth-cycle :
    (models : List String) (left i k : ℕ)
    → k < left
    → nth (cycle models left i) k ≡ nth models ((i + k) % length models)
unfolding nth cycle
nth-cycle models zero i k inside = absurd (omega (arith, inside))
nth-cycle models (suc left) i zero inside =
    ap (λ (j : ℕ). nth models (j % length models)) (omega arith)
nth-cycle models (suc left) i (suc k) inside =
    nth-cycle models left (i + 1) k (omega (arith, inside))
    ∙ ap (λ (j : ℕ). nth models (j % length models)) (omega arith)

-- The run of each index uses the model of that index, where the list of models, if it is not empty, is
-- gone through again and again.
pub models_for-cycles :
    (runs : ℕ) (models : List String) (i : ℕ)
    → is_empty models ≡ false
    → i < runs
    → nth (models_for runs models) i ≡ nth models (i % length models)
unfolding models_for
models_for-cycles runs models i filled inside = elim (Bool-cases (ltb (length models) runs)) [
  | inl few ↦
      rw (filled, few)
        (nth-cycle models runs 0 i inside
          ∙ ap (λ (j : ℕ). nth models (j % length models)) (omega arith))
  | inr many ↦
      let here : i < length models = ground (arith, many, inside) in
      rw (filled, many) (ap (nth models) (sym (mod-eq_of_lt here)))
]

answers-cases :
    {A : Type 0} (o : Failure ⊎ A)
    → ((failure : Failure) × (o ≡ inl failure)) ⊎ ((result : A) × (o ≡ inr result))
answers-cases (inl failure) = inl (failure, refl)
answers-cases (inr result) = inr (result, refl)

-- The attempts at a run call the agent at least once, and at most once more than retries are left.
retry_from-calls :
    {A : Type 0} (answers : ℕ → Failure ⊎ A) (is_done : ℕ → Bool) (left n : ℕ) (delay : ℤ)
    → (1 ≤ (retry_from answers is_done left n delay).calls)
      × ((retry_from answers is_done left n delay).calls ≤ suc left)
unfolding retry_from
retry_from-calls answers is_done zero n delay = elim (answers-cases (answers n)) [
  | inl (failure, failed) ↦ rw (failed, retry_from) (omega arith, omega arith)
  | inr (result, good) ↦ rw (good, retry_from) (omega arith, omega arith)
]
retry_from-calls answers is_done (suc left) n delay = elim (answers-cases (answers n)) [
  | inr (result, good) ↦ rw (good, retry_from) (omega arith, omega arith)
  | inl (failure, failed) ↦ elim (Bool-cases (is_done (n + 1))) [
    | inl over ↦ rw (failed, over, retry_from) (omega arith, omega arith)
    | inr live ↦
        let (some_call, few) = retry_from-calls answers is_done left (n + 1) (next_delay delay) in
        rw (failed, live, retry_from) (omega (arith, some_call), omega (arith, few))
  ]
]
