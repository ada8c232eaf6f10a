-- ===== src/Executor/Backoff.antt =====
-- The delays between the attempts of internal/engine/executor/executor.go.
use Prim.Native.Nat.{◌^◌}
use verustcode.Base.{
  ℕ, zero, suc, ◌+◌, ◌*◌, ◌≤◌, ◌<◌, Bool, Option, ◌≡◌, ◌⊎◌, inl, inr, refl, ap, ◌∙◌, arith, All,
  Bool-cases, ltb, if◌then◌else◌,
}
use verustcode.Base.Int.{ℤ, pos, scale, scale-pos, wrap64, wrap64-pos, ltb_ℤ}
use verustcode.Executor.{
  Failure, is_retryable, RetrySettings, max_retries_of, retry_delay_of, next_delay, max_retry_delay,
  attempt_from, execute_single_run,
}
use verustcode.Executor.Attempts.{sum-cases}

-- Five minutes.
abbrev pub cap : ℕ
cap = 300000000000

-- A delay that is the first one, or at most five minutes and not below the first unless it is five
-- minutes.
abbrev pub IsPaced : ℕ → ℤ → Type 0
IsPaced d w = (k : ℕ) × (w ≡ pos k) × ((k ≡ d) ⊎ ((k ≤ cap) × ((d ≤ k) ⊎ (k ≡ cap))))

next_delay-pos :
    (k : ℕ) → k < 2 ^ 62 → next_delay (pos k) ≡ pos (if ltb cap (2 * k) then cap else 2 * k)
unfolding next_delay
next_delay-pos k small =
    let twice : wrap64 (scale 2 (pos k)) ≡ pos (2 * k) =
      ap wrap64 (scale-pos 2 k) ∙ wrap64-pos (2 * k) (omega (arith, small)) in
    ap (λ (w : ℤ). if ltb_ℤ max_retry_delay w then max_retry_delay else w) twice ∙ ground arith

paced-next :
    (d k : ℕ)
    → (k ≡ d) ⊎ ((k ≤ cap) × ((d ≤ k) ⊎ (k ≡ cap)))
    → (if ltb cap (2 * k) then cap else 2 * k) ≤ cap
      × ((d ≤ (if ltb cap (2 * k) then cap else 2 * k))
          ⊎ ((if ltb cap (2 * k) then cap else 2 * k) ≡ cap))
paced-next d k h = ground arith

next_delay-IsPaced : (d : ℕ) (w : ℤ) → d < 2 ^ 62 → IsPaced d w → IsPaced d (next_delay w)
next_delay-IsPaced d w small (k, is, paced) = (
  (if ltb cap (2 * k) then cap else 2 * k),
  ap next_delay is ∙ next_delay-pos k (ground (arith, paced)),
  inr (paced-next d k paced),
)

module _ {A : Type 0} (answers : ℕ → Failure ⊎ A) (is_done : ℕ → Bool) (d : ℕ)
    (small : d < 2 ^ 62) where
  attempt_from-IsPaced :
      (left n : ℕ) (w : ℤ)
      → IsPaced d w
      → All (IsPaced d) (attempt_from answers is_done left n w).waits
  unfolding attempt_from
  attempt_from-IsPaced zero n w paced = elim (sum-cases (answers n)) [
    | inr (a, ok) ↦ rw (ok, attempt_from) tt
    | inl (e, bad) ↦ rw (bad, attempt_from) tt
  ]
  attempt_from-IsPaced (suc left) n w paced = elim (sum-cases (answers n)) [
    | inr (a, ok) ↦ rw (ok, attempt_from) tt
    | inl (e, bad) ↦ elim (Bool-cases (is_retryable e)) [
      | inr fatal ↦ rw (bad, fatal, attempt_from) tt
      | inl again ↦ elim (Bool-cases (is_done (n + 1))) [
        | inl done ↦ rw (bad, again, done, attempt_from) tt
        | inr waits ↦
            rw (bad, again, waits, attempt_from)
              (
                paced,
                attempt_from-IsPaced left (n + 1) (next_delay w)
                    (next_delay-IsPaced d w small paced),
              )
      ]
    ]
  ]

  -- The backoff does not overflow and is capped: where the first delay of a run is `d` nanoseconds
  -- with `d` below 2^62, each delay of the run is `d`, or it is at most five minutes and either at
  -- least `d` or five minutes.
  pub execute_single_run-IsPaced :
      (settings : Option RetrySettings)
      → retry_delay_of settings ≡ pos d
      → All (IsPaced d) (execute_single_run answers is_done settings).waits
  unfolding execute_single_run
  execute_single_run-IsPaced settings first =
      attempt_from-IsPaced (max_retries_of settings) 0 (retry_delay_of settings)
        (d, first, inl refl)
