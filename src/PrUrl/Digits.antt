-- ===== src/PrUrl/Digits.antt =====
-- Decimal numbers in the URLs of internal/git/prurl/parser.go and internal/engine/utils/git.go.
use Prim.Native.Nat.{◌/◌, ◌%◌}
use verustcode.Base.{
  ℕ, zero, suc, ◌+◌, ◌-◌, ◌*◌, ◌<◌, true, false, [], ◌∷◌, ◌++◌, ◌≡◌, inl, inr, refl, ◌∙◌, ap, arith,
  All, Bool-cases, ltb, is_empty,
}
use verustcode.PrUrl.Text.{Bytes, value, digits, is_digit}
use verustcode.PrUrl.Build.{decimal_from, decimal}

abbrev IsDigit : ℕ → Type 0
IsDigit c = is_digit c ≡ true

decimal_from-value :
    (fuel n : ℕ) (out : Bytes) → n < fuel → value 0 (decimal_from fuel n out) ≡ value n out
unfolding decimal_from value
decimal_from-value zero n out enough = absurd (omega (arith, enough))
decimal_from-value (suc fuel) n out enough = elim (Bool-cases (ltb n 10)) [
  | inl small ↦
      let digit : 0 * 10 + ((48 + n % 10) - 48) ≡ n = ground (arith, small) in
      rw small (ap (λ (k : ℕ). value k out) digit)
  | inr large ↦
      let same : n / 10 * 10 + ((48 + n % 10) - 48) ≡ n = omega arith in
      let less : n / 10 < fuel = ground (arith, large, enough) in
      rw large (
        decimal_from-value fuel (n / 10) ((48 + n % 10) ∷ out) less
        ∙ ap (λ (k : ℕ). value k out) same)
]

decimal_from-digits :
    (fuel n : ℕ) (out : Bytes) → All IsDigit out → All IsDigit (decimal_from fuel n out)
unfolding decimal_from
decimal_from-digits zero n out all = all
decimal_from-digits (suc fuel) n out all =
    let digit : IsDigit (48 + n % 10) = ground arith in
    elim (Bool-cases (ltb n 10)) [
      | inl small ↦ rw small (digit, all)
      | inr large ↦ rw large (decimal_from-digits fuel (n / 10) ((48 + n % 10) ∷ out) (digit, all))
    ]

decimal_from-filled :
    (fuel n : ℕ) (c : ℕ) (out : Bytes) → is_empty (decimal_from fuel n (c ∷ out)) ≡ false
unfolding decimal_from
decimal_from-filled zero n c out = refl
decimal_from-filled (suc fuel) n c out = elim (Bool-cases (ltb n 10)) [
  | inl small ↦ rw small refl
  | inr large ↦ rw large (decimal_from-filled fuel (n / 10) (48 + n % 10) (c ∷ out))
]

pub decimal-value : (n : ℕ) → value 0 (decimal n) ≡ n
unfolding decimal value
decimal-value n = decimal_from-value (suc n) n [] (omega arith)

pub decimal-filled : (n : ℕ) → is_empty (decimal n) ≡ false
unfolding decimal decimal_from
decimal-filled n = elim (Bool-cases (ltb n 10)) [
  | inl small ↦ rw small refl
  | inr large ↦ rw large (decimal_from-filled n (n / 10) (48 + n % 10) [])
]

-- What follows a number is not another digit.
abbrev pub Ends : Bytes → Type 0
Ends [] = Unit
Ends (c ∷ s) = is_digit c ≡ false

digits-All : (ds rest : Bytes) → All IsDigit ds → Ends rest → digits (ds ++ rest) ≡ ds
unfolding digits
digits-All [] [] all ends = refl
digits-All [] (c ∷ rest) all ends = rw ends refl
digits-All (d ∷ ds) rest (digit, all) ends = rw (digit, digits-All ds rest all ends) refl

pub digits-decimal : (n : ℕ) (rest : Bytes) → Ends rest → digits (decimal n ++ rest) ≡ decimal n
unfolding decimal
digits-decimal n rest ends = digits-All (decimal n) rest (decimal_from-digits (suc n) n [] tt) ends
