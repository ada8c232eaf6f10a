-- ===== src/Llm/Keyword.antt =====
-- The keywords of `IsModelError`, internal/llm/errors.go, against the first of them.
use verustcode.Base.{
  ℕ, ◌+◌, ◌≤◌, String, Bool, true, false, some, List, [], ◌∷◌, ◌++◌, ◌||◌, ◌≡◌, refl, sym, ap, ◌∙◌,
  arith, length, is_empty, any, map, All,
}
use verustcode.Queue.{is_some}
use verustcode.Llm.{
  CallError, bytes, lower_byte, to_lower, bytes_eq, starts_with, find_from, find_ignore_case,
  contains_ignore_case, keywords, is_model_error,
}

-- A substring somewhere in a text.
abbrev pub occurs : List ℕ → List ℕ → Bool
occurs sub [] = starts_with sub []
occurs sub (b ∷ s) = starts_with sub (b ∷ s) || occurs sub s

find_from-occurs : (sub : List ℕ) (i : ℕ) (s : List ℕ) → is_some (find_from sub i s) ≡ occurs sub s
unfolding find_from
find_from-occurs sub i [] = ground arith
find_from-occurs sub i (b ∷ s) = ground (arith, find_from-occurs sub (i + 1) s)

starts_with-append : (a b s : List ℕ) → starts_with (a ++ b) s ≡ true → starts_with a s ≡ true
unfolding starts_with
starts_with-append [] b s h = refl
starts_with-append (x ∷ a) b [] h = cc
starts_with-append (x ∷ a) b (y ∷ s) h = ground (arith, starts_with-append a b s)

occurs-starts_with : (sub s : List ℕ) → starts_with sub s ≡ true → occurs sub s ≡ true
occurs-starts_with sub [] h = h
occurs-starts_with sub (b ∷ s) h = rw h

occurs-append : (a b s : List ℕ) → occurs (a ++ b) s ≡ true → occurs a s ≡ true
occurs-append a b [] h = starts_with-append a b [] h
occurs-append a b (y ∷ s) h = ground (arith, starts_with-append a b (y ∷ s), occurs-append a b s)

occurs-after : (a sub s : List ℕ) → starts_with (a ++ sub) s ≡ true → occurs sub s ≡ true
unfolding starts_with
occurs-after [] sub s h = occurs-starts_with sub s h
occurs-after (x ∷ a) sub [] h = cc
occurs-after (x ∷ a) sub (y ∷ s) h = ground (arith, occurs-after a sub s)

occurs-front : (a sub b s : List ℕ) → starts_with (a ++ (sub ++ b)) s ≡ true → occurs sub s ≡ true
occurs-front a sub b s h = occurs-append sub b s (occurs-after a (sub ++ b) s h)

occurs-inside : (a sub b s : List ℕ) → occurs (a ++ (sub ++ b)) s ≡ true → occurs sub s ≡ true
occurs-inside a sub b [] h = occurs-front a sub b [] h
occurs-inside a sub b (y ∷ s) h =
    ground (arith, occurs-inside a sub b s, occurs-front a sub b (y ∷ s))

length-map : (f : ℕ → ℕ) (s : List ℕ) → length (map f s) ≡ length s
length-map f [] = refl
length-map f (b ∷ s) = omega (arith, length-map f s)

starts_with-length : (sub s : List ℕ) → starts_with sub s ≡ true → length sub ≤ length s
unfolding starts_with
starts_with-length [] s h = omega arith
starts_with-length (a ∷ sub) [] h = cc
starts_with-length (a ∷ sub) (b ∷ s) h = ground (arith, starts_with-length sub s)

occurs-length : (sub s : List ℕ) → occurs sub s ≡ true → length sub ≤ length s
occurs-length sub [] h = starts_with-length sub [] h
occurs-length sub (b ∷ s) h = ground (arith, starts_with-length sub (b ∷ s), occurs-length sub s)

bytes_eq-starts_with :
    (s sub : List ℕ) → bytes_eq s sub ≡ true → starts_with (to_lower sub) (to_lower s) ≡ true
unfolding bytes_eq starts_with to_lower
bytes_eq-starts_with [] [] h = refl
bytes_eq-starts_with [] (b ∷ sub) h = cc
bytes_eq-starts_with (a ∷ s) [] h = refl
bytes_eq-starts_with (a ∷ s) (b ∷ sub) h = ground (arith, bytes_eq-starts_with s sub)

occurs-length_lower :
    (s sub : List ℕ) → occurs (to_lower sub) (to_lower s) ≡ true → length sub ≤ length s
unfolding to_lower
occurs-length_lower s sub h = omega (
  arith,
  occurs-length (to_lower sub) (to_lower s) h,
  length-map lower_byte s,
  length-map lower_byte sub,
)

contains-occurs_nonempty :
    (s sub : List ℕ)
    → is_empty sub ≡ false
    → contains_ignore_case s sub ≡ occurs (to_lower sub) (to_lower s)
unfolding contains_ignore_case find_ignore_case
contains-occurs_nonempty s sub nonempty = ground (
  arith,
  find_from-occurs (to_lower sub) 0 (to_lower s),
  occurs-length_lower s sub,
  bytes_eq-starts_with s sub,
  occurs-starts_with (to_lower sub) (to_lower s),
)

same_Bool : (a b : Bool) → (a ≡ true → b ≡ true) → (b ≡ true → a ≡ true) → a ≡ b
same_Bool true b f g = sym (f refl)
same_Bool false true f g = g refl
same_Bool false false f g = refl

-- A keyword around the word "model".
abbrev pub IsAround : String → Type 0
IsAround k =
    (is_empty (bytes k) ≡ false)
    × ((a : String) × (b : String) × (to_lower (bytes k) ≡ bytes a ++ (bytes "model" ++ bytes b)))

keywords-IsAround : All IsAround keywords
unfolding to_lower
keywords-IsAround = (
  (refl, ("", "", refl)),
  (
    (refl, ("invalid ", "", refl)),
    (
      (refl, ("", " not found", refl)),
      (
        (refl, ("", " unavailable", refl)),
        (
          (refl, ("", " not available", refl)),
          (
            (refl, ("unknown ", "", refl)),
            ((refl, ("unsupported ", "", refl)), ((refl, ("", " error", refl)), tt)),
          ),
        ),
      ),
    ),
  ),
)

contains-model :
    (k : String) (s : List ℕ)
    → IsAround k
    → contains_ignore_case s (bytes k) ≡ true
    → occurs (bytes "model") (to_lower s) ≡ true
contains-model k s (nonempty, (a, b, around)) h =
    occurs-inside (bytes a) (bytes "model") (bytes b) (to_lower s) (
      ap (λ (sub : List ℕ). occurs sub (to_lower s)) (sym around)
      ∙ sym (contains-occurs_nonempty s (bytes k) nonempty)
      ∙ h)

any-model :
    (message output : List ℕ) (ks : List String)
    → All IsAround ks
    → any (λ k. contains_ignore_case message (bytes k) || contains_ignore_case output (bytes k)) ks
      ≡ true
    → (occurs (bytes "model") (to_lower message) || occurs (bytes "model") (to_lower output)) ≡ true
any-model message output [] around h = cc
any-model message output (k ∷ ks) (first, rest) h = ground (
  arith,
  contains-model k message first,
  contains-model k output first,
  any-model message output ks rest,
)

model-any :
    (message output : List ℕ)
    → (occurs (bytes "model") (to_lower message) || occurs (bytes "model") (to_lower output)) ≡ true
    → any
        (λ k. contains_ignore_case message (bytes k) || contains_ignore_case output (bytes k))
        keywords
      ≡ true
unfolding to_lower
model-any message output h = ground (
  arith,
  contains-occurs_nonempty message (bytes "model") refl,
  contains-occurs_nonempty output (bytes "model") refl,
)

-- An error counts as one of the model exactly when it wraps `ErrModelNotAvailable` or the word
-- "model" occurs in its text or in the output, in capitals or not: the other keywords add nothing.
pub is_model_error-eq :
    (e : CallError) (output : List ℕ)
    → is_model_error (some e) output ≡ (
        e.is_model_not_available
        || (occurs (bytes "model") (to_lower e.message)
            || occurs (bytes "model") (to_lower output)))
unfolding is_model_error
is_model_error-eq e output =
    ap (λ (b : Bool). e.is_model_not_available || b)
      (same_Bool _ _ (any-model e.message output keywords keywords-IsAround)
        (model-any e.message output))
