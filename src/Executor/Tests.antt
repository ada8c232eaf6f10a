-- ===== src/Executor/Tests.antt =====
-- Runs with an agent that fails twice, for good, or without end.
use verustcode.Base.{
  ℕ, zero, suc, String, Bool, true, false, Option, none, some, [], ◌∷◌, ◌≡◌, ◌⊎◌, inl, inr, refl,
}
use verustcode.Base.Int.{pos, wrap64}
use verustcode.Executor.{
  Failure, client_error, wrapped, is_retryable, RetrySettings, max_retries_of, retry_delay_of,
  next_delay, finished, attempt_from, execute_single_run,
}
use verustcode.Executor.Attempts.{Explained, execute_single_run-Explained}

abbrev busy : Failure
busy = wrapped "agent" (client_error true)

abbrev third_time : ℕ → Failure ⊎ String
third_time zero = inl busy
third_time (suc zero) = inl busy
third_time (suc (suc n)) = inr "done"

abbrev never : ℕ → Failure ⊎ String
never n = inl busy

abbrev not_done : ℕ → Bool
not_done n = false

abbrev settings : Option RetrySettings
settings = some (record { max_retries = pos 4; retry_delay = pos 100 })

third_ends : (execute_single_run third_time not_done none).ending ≡ finished "done"
unfolding execute_single_run attempt_from max_retries_of retry_delay_of is_retryable
third_ends = refl

waits_double :
    (execute_single_run never not_done settings).waits
    ≡ pos 100000000000 ∷ pos 200000000000 ∷ pos 300000000000 ∷ pos 300000000000 ∷ []
unfolding execute_single_run attempt_from max_retries_of retry_delay_of is_retryable next_delay
    wrap64
waits_double = refl

first_delay : retry_delay_of settings ≡ pos 100000000000
unfolding retry_delay_of wrap64
first_delay = refl

execute_single_run-Explained_example :
    Explained third_time 0
      (max_retries_of settings)
      (execute_single_run third_time not_done settings)
execute_single_run-Explained_example = execute_single_run-Explained third_time not_done settings
