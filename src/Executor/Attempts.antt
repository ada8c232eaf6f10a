-- ===== src/Executor/Attempts.antt =====
-- What the attempts of internal/engine/executor/executor.go amount to.
use verustcode.Base.{
  ℕ, zero, suc, ◌+◌, ◌≤◌, ◌<◌, Bool, true, false, Option, ◌≡◌, ◌⊎◌, inl, inr, refl, subst, arith,
  Bool-cases, length,
}
use verustcode.Base.Int.{ℤ}
use verustcode.Executor.{
  Failure, is_retryable, RetrySettings, max_retries_of, retry_delay_of, next_delay, Ending,
  finished, gave_up, interrupted, Run, one_call, after_wait, attempt_from, execute_single_run,
}

pub sum-cases :
    {A : Type 0} (o : Failure ⊎ A) → ((e : Failure) × (o ≡ inl e)) ⊎ ((a : A) × (o ≡ inr a))
sum-cases (inl e) = inl (e, refl)
sum-cases (inr a) = inr (a, refl)

first-or_later : (n j : ℕ) → n ≤ j → (n ≡ j) ⊎ (n + 1 ≤ j)
first-or_later n j h = ground arith

module _ {A : Type 0} (answers : ℕ → Failure ⊎ A) where
  -- The call of that number failed in a way that may pass.
  abbrev pub FailsFor : ℕ → Type 0
  FailsFor n = (e : Failure) × (answers n ≡ inl e) × (is_retryable e ≡ true)

  -- An ending is explained by the last call, `last`, of at most `limit`.
  abbrev pub Explains : ℕ → ℕ → Ending A → Type 0
  Explains limit last (finished a) = answers last ≡ inr a
  Explains limit last (gave_up e) =
      (answers last ≡ inl e) × ((is_retryable e ≡ false) ⊎ (last ≡ limit))
  Explains limit last interrupted = FailsFor last × (last < limit)

  -- The run that starts with call `n` and may go as far as call `limit`.
  pub record Explained (n limit : ℕ) (r : Run A) : Type 0 where
    pub some_call : 1 ≤ r.calls
    pub bounded : n + r.calls ≤ limit + 1
    pub paced : length r.waits + 1 ≡ r.calls
    pub earlier : (j : ℕ) → n ≤ j → j + 1 < n + r.calls → FailsFor j
    pub ends : (last : ℕ) → last + 1 ≡ n + r.calls → Explains limit last r.ending

  explain-one :
      (n limit : ℕ) (e : Ending A) → n ≤ limit → Explains limit n e → Explained n limit (one_call e)
  explain-one n limit e within why = record {
    some_call = omega arith;
    bounded = omega (arith, within);
    paced = refl;
    earlier = λ j low high. absurd (omega (arith, low, high));
    ends = λ last is. subst (λ m. Explains limit m e) (omega (arith, is)) why;
  }

  explain-after :
      (n limit : ℕ) (d : ℤ) (r : Run A)
      → FailsFor n
      → Explained (n + 1) limit r
      → Explained n limit (after_wait d r)
  explain-after n limit d r fails h = record {
    some_call = omega arith;
    bounded = omega (arith, h.bounded);
    paced = omega (arith, h.paced);
    earlier = λ j low high. elim (first-or_later n j low) [
      | inl this ↦ subst (λ m. FailsFor m) this fails
      | inr later ↦ h.earlier j later (omega (arith, high))
    ];
    ends = λ last is. h.ends last (omega (arith, is));
  }

  module _ (is_done : ℕ → Bool) where
    attempt_from-Explained :
        (left n limit : ℕ) (d : ℤ)
        → left + n ≡ limit
        → Explained n limit (attempt_from answers is_done left n d)
    unfolding attempt_from
    attempt_from-Explained zero n limit d sum = elim (sum-cases (answers n)) [
      | inr (a, ok) ↦
          rw (ok, attempt_from) (explain-one n limit (finished a) (omega (arith, sum)) ok)
      | inl (e, bad) ↦
          rw (bad, attempt_from)
            (explain-one n limit (gave_up e) (omega (arith, sum)) (bad, inr (omega (arith, sum))))
    ]
    attempt_from-Explained (suc left) n limit d sum = elim (sum-cases (answers n)) [
      | inr (a, ok) ↦
          rw (ok, attempt_from) (explain-one n limit (finished a) (omega (arith, sum)) ok)
      | inl (e, bad) ↦ elim (Bool-cases (is_retryable e)) [
        | inl again ↦ elim (Bool-cases (is_done (n + 1))) [
          | inl done ↦
              rw (bad, again, done, attempt_from)
                (explain-one n limit interrupted (omega (arith, sum))
                  ((e, bad, again), omega (arith, sum)))
          | inr waits ↦
              rw (bad, again, waits, attempt_from)
                (explain-after n limit d _ (e, bad, again)
                  (attempt_from-Explained left (n + 1) limit (next_delay d) (omega (arith, sum))))
        ]
        | inr fatal ↦
            rw (bad, fatal, attempt_from)
              (explain-one n limit (gave_up e) (omega (arith, sum)) (bad, inl fatal))
      ]
    ]

    -- A single run calls the agent at least once and at most once more than the retries allowed,
    -- with a wait before each further call. Each call but the last failed in a way that may pass. The
    -- run has a result only if the last call gave it; it gives up with the failure of the last call,
    -- which cannot pass or has used the retries up; and it is interrupted only while it waits to
    -- retry.
    pub execute_single_run-Explained :
        (settings : Option RetrySettings)
        → Explained 0 (max_retries_of settings) (execute_single_run answers is_done settings)
    unfolding execute_single_run
    execute_single_run-Explained settings =
        attempt_from-Explained (max_retries_of settings) 0 (max_retries_of settings)
          (retry_delay_of settings) (omega arith)
