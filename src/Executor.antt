-- ===== src/Executor.antt =====
-- The attempts of internal/engine/executor/executor.go at a single run of a rule, with the test of
-- internal/llm/errors.go for an error that may pass. The agent is an argument: its answer to
-- each of its calls, by their number. So is the context: whether it is found done at the wait before
-- a call.
mod Attempts
pub mod Multi
mod Backoff
mod Tests
use verustcode.Base.{
  ℕ, zero, suc, ◌+◌, String, Bool, true, false, Option, none, some, List, [], ◌∷◌, ◌⊎◌, inl, inr,
  if◌then◌else◌,
}
use verustcode.Base.Int.{ℤ, pos, pos_part, scale, wrap64, ltb_ℤ}

-- A Go error as `errors.As` walks it: one that wraps nothing, a `ClientError` with its
-- `Retryable`, at which the walk ends, or another error that wraps one.
pub data Failure : Type 0 where
  plain : String → Failure
  client_error : Bool → Failure
  wrapped : String → Failure → Failure

-- `IsRetryable`: the field of the first `ClientError` in the chain.
unfoldable pub is_retryable : Failure → Bool
is_retryable (plain msg) = false
is_retryable (client_error retryable) = retryable
is_retryable (wrapped msg e) = is_retryable e

-- The settings of the database, if they can be read.
pub record RetrySettings : Type 0 where
  pub max_retries : ℤ
  pub retry_delay : ℤ

abbrev pub second : ℕ
second = 1000000000

abbrev pub default_max_retries : ℕ
default_max_retries = 3

abbrev pub default_retry_delay : ℤ
default_retry_delay = pos 5000000000

abbrev pub max_retry_delay : ℤ
max_retry_delay = pos 300000000000

unfoldable pub max_retries_of : Option RetrySettings → ℕ
max_retries_of none = default_max_retries
max_retries_of (some s) =
    if ltb_ℤ (pos 0) s.max_retries then pos_part s.max_retries else default_max_retries

unfoldable pub retry_delay_of : Option RetrySettings → ℤ
retry_delay_of none = default_retry_delay
retry_delay_of (some s) =
    if ltb_ℤ (pos 0) s.retry_delay then wrap64 (scale second s.retry_delay) else default_retry_delay

-- Twice the delay, at most five minutes.
unfoldable pub next_delay : ℤ → ℤ
next_delay d =
    let twice = wrap64 (scale 2 d) in if ltb_ℤ max_retry_delay twice then max_retry_delay else twice

-- How the attempts end: with an agent's result, with the last failure, or because the context is
-- done.
pub data Ending (A : Type 0) : Type 0 where
  finished : A → Ending A
  gave_up : Failure → Ending A
  interrupted : Ending A

-- The ending, the number of calls of the agent and the delays waited for between them.
pub record Run (A : Type 0) : Type 0 where
  pub ending : Ending A
  pub calls : ℕ
  pub waits : List ℤ

abbrev pub one_call : {A : Type 0} → Ending A → Run A
one_call e = record { ending = e; calls = 1; waits = [] }

abbrev pub after_wait : {A : Type 0} → ℤ → Run A → Run A
after_wait d r = record { ending = r.ending; calls = r.calls + 1; waits = d ∷ r.waits }

module _ {A : Type 0} (answers : ℕ → Failure ⊎ A) (is_done : ℕ → Bool) where
  -- The call of that number, and the loop from there, with so many retries left.
  unfoldable pub attempt_from : ℕ → ℕ → ℤ → Run A
  attempt_from zero n delay = elim (answers n) [
    | inr result ↦ one_call (finished result)
    | inl failure ↦ one_call (gave_up failure)
  ]
  attempt_from (suc left) n delay =
      let later = attempt_from left (n + 1) (next_delay delay) in
      elim (answers n) [
        | inr result ↦ one_call (finished result)
        | inl failure ↦
            if is_retryable failure
            then if is_done (n + 1) then one_call interrupted else after_wait delay later
            else one_call (gave_up failure)
      ]

  -- The loop of `executeSingleRun`.
  unfoldable pub execute_single_run : Option RetrySettings → Run A
  execute_single_run settings = attempt_from (max_retries_of settings) 0 (retry_delay_of settings)
