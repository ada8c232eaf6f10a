-- ===== src/Llm/Fallback.antt =====
-- `ExecuteWithFallback` of internal/llm/base.go. The client's function for one model is an argument:
-- its reply to each of its calls, by their number and the model.
use verustcode.Base.{
  ℕ, ◌+◌, String, Option, none, some, List, [], ◌∷◌, ◌++◌, ◌≡◌, ◌⊎◌, inl, inr, refl, ap, not,
  is_empty, str_eq, Bool-cases, if◌then◌else◌, ◌||◌,
}
use verustcode.Llm.{CallError, is_model_error}

-- A response, or an error with the output, if there was one.
pub data Reply (R : Type 0) : Type 0 where
  answered : R → Reply R
  refused : CallError → Option (List ℕ) → Reply R

-- The response, the error of the only call, or the client's own error around the last one.
pub data Result (R : Type 0) : Type 0 where
  response : R → Result R
  call_failed : CallError → Result R
  all_failed : CallError → Result R

-- What comes of a request, and the models tried for it, in order.
pub record Execution (R : Type 0) : Type 0 where
  pub result : Result R
  pub tried : List String

abbrev pub after : {R : Type 0} → String → Execution R → Execution R
after m x = record { result = x.result; tried = m ∷ x.tried }

abbrev pub output_of : Option (List ℕ) → List ℕ
output_of none = []
output_of (some s) = s

module _ {R : Type 0} (exec : ℕ → String → Reply R) where
  -- The loop over the fallback models, from call `n` on, with the last error.
  unfoldable pub try_fallbacks : String → ℕ → CallError → List String → Execution R
  try_fallbacks primary n last [] = record { result = all_failed last; tried = [] }
  try_fallbacks primary n last (m ∷ ms) =
      let skipped = try_fallbacks primary n last ms in
      if str_eq m primary then skipped else elim (exec n m) [
        | answered r ↦ record { result = response r; tried = m ∷ [] }
        | refused e out ↦ after m (try_fallbacks primary (n + 1) e ms)
      ]

  unfoldable pub execute_with_fallback : String → List String → Execution R
  execute_with_fallback primary fallbacks =
      let tried = primary ∷ [] in
      elim (exec 0 primary) [
        | answered r ↦ record { result = response r; tried = tried }
        | refused e out ↦
            if str_eq primary ""
              || not (is_model_error (some e) (output_of out))
              || is_empty fallbacks
            then record { result = call_failed e; tried = tried }
            else after primary (try_fallbacks primary 1 e fallbacks)
      ]

-- The models other than that one.
abbrev pub others : String → List String → List String
others primary [] = []
others primary (m ∷ ms) =
    let rest = others primary ms in if str_eq m primary then rest else m ∷ rest

-- The models tried are the first of these, and all of them if the request failed with every one.
abbrev pub Exhausts : {R : Type 0} → Result R → List String → Type 0
Exhausts (response r) rest = Unit
Exhausts (call_failed e) rest = Unit
Exhausts (all_failed e) rest = rest ≡ []

abbrev pub TriesOf : {R : Type 0} → List String → Execution R → Type 0
TriesOf models x = (rest : List String) × (models ≡ x.tried ++ rest) × Exhausts x.result rest

module _ {R : Type 0} (exec : ℕ → String → Reply R) where
  reply-cases :
      (r : Reply R)
      → ((a : R) × (r ≡ answered a)) ⊎ ((e : CallError) × (o : Option (List ℕ)) × (r ≡ refused e o))
  reply-cases (answered a) = inl (a, refl)
  reply-cases (refused e o) = inr (e, o, refl)

  after-TriesOf :
      (m : String) (models : List String) (x : Execution R)
      → TriesOf models x
      → TriesOf (m ∷ models) (after m x)
  after-TriesOf m models x (rest, same, ends) = (rest, ap (λ (ms : List String). m ∷ ms) same, ends)

  try_fallbacks-TriesOf :
      (primary : String) (n : ℕ) (last : CallError) (ms : List String)
      → TriesOf (others primary ms) (try_fallbacks exec primary n last ms)
  unfolding try_fallbacks
  try_fallbacks-TriesOf primary n last [] = ([], refl, refl)
  try_fallbacks-TriesOf primary n last (m ∷ ms) = elim (Bool-cases (str_eq m primary)) [
    | inl same ↦ rw (same, try_fallbacks) (try_fallbacks-TriesOf primary n last ms)
    | inr other ↦ elim (reply-cases (exec n m)) [
      | inl (r, ok) ↦ rw (other, ok, try_fallbacks) (others primary ms, refl, tt)
      | inr (e, out, bad) ↦
          rw (other, bad, try_fallbacks)
            (after-TriesOf m (others primary ms) _ (try_fallbacks-TriesOf primary (n + 1) e ms))
    ]
  ]

  -- The models tried are the primary one and then the fallbacks other than it, in order, up to some
  -- point; and the request fails as one that all models failed only when none of these is left.
  pub execute_with_fallback-TriesOf :
      (primary : String) (fallbacks : List String)
      → TriesOf (primary ∷ others primary fallbacks) (execute_with_fallback exec primary fallbacks)
  unfolding execute_with_fallback
  execute_with_fallback-TriesOf primary fallbacks = elim (reply-cases (exec 0 primary)) [
    | inl (r, ok) ↦ rw (ok, execute_with_fallback) (others primary fallbacks, refl, tt)
    | inr (e, out, bad) ↦
        elim (Bool-cases (
          str_eq primary ""
          || not (is_model_error (some e) (output_of out))
          || is_empty fallbacks)) [
            | inl stop ↦ rw (bad, stop, execute_with_fallback) (others primary fallbacks, refl, tt)
            | inr go_on ↦
                rw (bad, go_on, execute_with_fallback)
                  (after-TriesOf primary (others primary fallbacks) _
                    (try_fallbacks-TriesOf primary 1 e fallbacks))
          ]
  ]
