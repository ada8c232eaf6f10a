-- ===== src/Llm/Tests.antt =====
-- Errors as clients report them.
use verustcode.Base.{
  true, false, some, ◌≡◌, ◌||◌, refl, ℕ, [], ◌∷◌, none, str_eq, if◌then◌else◌, String,
}
use verustcode.Llm.{
  CallError, bytes, to_lower, bytes_eq, starts_with, find_from, find_ignore_case,
  contains_ignore_case, is_model_error,
}
use verustcode.Llm.Fallback.{Reply, answered, refused, execute_with_fallback, try_fallbacks}
use verustcode.Llm.Keyword.{occurs, is_model_error-eq}

abbrev unsupported : CallError
unsupported = record { is_model_not_available = false; message = bytes "Unsupported MODEL x" }

abbrev network : CallError
network = record { is_model_not_available = false; message = bytes "connection reset" }

detects : is_model_error (some unsupported) (bytes "") ≡ true
unfolding is_model_error contains_ignore_case find_ignore_case find_from starts_with bytes_eq
    to_lower
detects = refl

ignores : is_model_error (some network) (bytes "") ≡ false
unfolding is_model_error contains_ignore_case find_ignore_case find_from starts_with bytes_eq
    to_lower
ignores = refl

is_model_error-eq_example : is_model_error (some unsupported) (bytes "usage") ≡ (
    false
    || (occurs (bytes "model") (to_lower (bytes "Unsupported MODEL x"))
        || occurs (bytes "model") (to_lower (bytes "usage"))))
is_model_error-eq_example = is_model_error-eq unsupported (bytes "usage")

-- The second fallback answers; the primary model stands among the fallbacks too.
abbrev pick_b : ℕ → String → Reply String
pick_b n m = if str_eq m "b" then answered "ok" else refused unsupported none

skips_primary :
    (execute_with_fallback pick_b "p" ("p" ∷ "a" ∷ "b" ∷ "c" ∷ [])).tried ≡ "p" ∷ "a" ∷ "b" ∷ []
unfolding execute_with_fallback try_fallbacks is_model_error contains_ignore_case find_ignore_case
    find_from starts_with bytes_eq to_lower
skips_primary = refl
