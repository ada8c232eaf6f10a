-- ===== src/Llm.antt =====
-- The test for an error of the model, `IsModelError` of internal/llm/errors.go, which decides whether
-- a client goes on to its fallback models. A text is the list of its bytes.
mod Keyword
mod Fallback
mod Tests
use Prim.Native.Char.{code}
use verustcode.Base.{
  ℕ, zero, suc, ◌+◌, String, Bool, true, false, Option, none, some, List, [], ◌∷◌, ◌&&◌, ◌||◌, ◌==◌,
  leb, length, is_empty, any, map, if◌then◌else◌,
}
use verustcode.Queue.{is_some}

-- The bytes of an ASCII text.
abbrev pub bytes : String → List ℕ
bytes String.[] = []
bytes (String.◌∷◌ c s) = code c ∷ bytes s

-- An error other than nil: whether `errors.Is` finds `ErrModelNotAvailable` in it, and its text.
pub record CallError : Type 0 where
  pub is_model_not_available : Bool
  pub message : List ℕ

unfoldable pub lower_byte : ℕ → ℕ
lower_byte c = if leb 65 c && leb c 90 then c + 32 else c

unfoldable pub to_lower : List ℕ → List ℕ
unfolding lower_byte
to_lower s = map lower_byte s

unfoldable pub bytes_eq : List ℕ → List ℕ → Bool
bytes_eq [] [] = true
bytes_eq [] (b ∷ t) = false
bytes_eq (a ∷ s) [] = false
bytes_eq (a ∷ s) (b ∷ t) = (a == b) && bytes_eq s t

-- The slice of that length at the front of the text equals the substring.
unfoldable pub starts_with : List ℕ → List ℕ → Bool
starts_with [] s = true
starts_with (a ∷ sub) [] = false
starts_with (a ∷ sub) (b ∷ s) = (b == a) && starts_with sub s

-- The loop of `findIgnoreCase` on lowered texts, from that index on.
unfoldable pub find_from : List ℕ → ℕ → List ℕ → Option ℕ
find_from sub i [] = if starts_with sub [] then some i else none
find_from sub i (b ∷ s) =
    let rest = find_from sub (i + 1) s in if starts_with sub (b ∷ s) then some i else rest

-- `findIgnoreCase`; `none` is the index -1.
unfoldable pub find_ignore_case : List ℕ → List ℕ → Option ℕ
find_ignore_case s sub =
    if is_empty sub
    then some 0
    else if leb (length sub) (length s)
    then find_from (to_lower sub) 0 (to_lower s)
    else none

unfoldable pub contains_ignore_case : List ℕ → List ℕ → Bool
contains_ignore_case s sub =
    leb (length sub) (length s)
    && (bytes_eq s sub || is_empty sub || is_some (find_ignore_case s sub))

abbrev pub keywords : List String
keywords =
    "model" ∷ "invalid model" ∷ "model not found" ∷ "model unavailable" ∷ "model not available"
    ∷ "unknown model" ∷ "unsupported model" ∷ "model error" ∷ []

-- `IsModelError`, `none` for a nil error.
unfoldable pub is_model_error : Option CallError → List ℕ → Bool
is_model_error none output = false
is_model_error (some e) output =
    e.is_model_not_available
    || any (λ k. contains_ignore_case e.message (bytes k) || contains_ignore_case output (bytes k))
        keywords
