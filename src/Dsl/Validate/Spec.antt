-- ===== src/Dsl/Validate/Spec.antt =====
-- What a configuration has to satisfy, said without the order of the checks.
use Prim.Native.String.{len}
use verustcode.Base.{
  ◌≤◌, String, Bool, true, Option, none, some, List, [], ◌∷◌, ◌≡◌, ◌≢◌, ◌⊎◌, All, length,
}
use verustcode.Base.Int.{ℤ, pos, ◌≤ℤ◌}
use verustcode.Base.Float.{Float64, is_nonzero, is_negative, exceeds_one}
use verustcode.Dsl.Schema.{
  ConstraintsConfig, ExtraFieldConfig, OutputItemConfig, OutputConfig, ReviewRuleConfig,
  ReviewRulesConfig, severity_levels,
}
use verustcode.Dsl.Validate.{
  valid_types, valid_formats, valid_tones, reserved_finding_fields, valid_extra_field_types,
}

-- Membership of a text in a list, by recursion.
abbrev pub Elem : String → List String → Type 0
Elem s [] = ⊥
Elem s (x ∷ xs) = (x ≡ s) ⊎ Elem s xs

-- What holds of the value of a pointer, if it is not nil.
abbrev pub IfSome {ℓ κ} : {A : Type ℓ} → (A → Type κ) → Option A → Type κ
IfSome P none = Unit
IfSome P (some a) = P a

-- 0 stands for the default; any other value lies in the range.
abbrev pub InRangeOrZero : ℤ → ℤ → ℤ → Type 0
InRangeOrZero low high n = (n ≡ pos 0) ⊎ ((low ≤ℤ n) × (n ≤ℤ high))

pub record IsValidWebhook (item : OutputItemConfig) : Type 0 where
  pub url : item.url ≢ ""
  pub timeout : InRangeOrZero (pos 30) (pos 300) item.timeout
  pub retries : InRangeOrZero (pos 3) (pos 12) item.max_retries
  pub secret :
      (len item.header_secret ≡ 0) ⊎ ((12 ≤ len item.header_secret) × (len item.header_secret ≤ 64))

pub record IsValidChannel (item : OutputItemConfig) : Type 0 where
  pub type : Elem item.type valid_types
  pub format : (item.format ≡ "") ⊎ Elem item.format valid_formats
  pub webhook : item.type ≡ "webhook" → IsValidWebhook item

-- An extra field after the names `seen`.
pub record IsValidField (seen : List String) (f : ExtraFieldConfig) : Type 0 where
  pub name : f.name ≢ ""
  pub fresh : ¬ Elem f.name seen
  pub free : ¬ Elem f.name reserved_finding_fields
  pub type : Elem f.type valid_extra_field_types
  pub description : f.description ≢ ""
  pub enum : (f.enum ≡ []) ⊎ (f.type ≡ "string")

abbrev pub AreValidFields : List String → List ExtraFieldConfig → Type 0
AreValidFields seen [] = Unit
AreValidFields seen (f ∷ fields) = IsValidField seen f × AreValidFields (f.name ∷ seen) fields

pub record IsValidOutput (o : OutputConfig) : Type 0 where
  pub style : IfSome (λ s. (s.tone ≡ "") ⊎ Elem s.tone valid_tones) o.style
  pub channels : All IsValidChannel o.channels
  pub schema : IfSome (λ s. AreValidFields [] s.extra_fields) o.schema

-- `sim == 0` or 0 ≤ sim ≤ 1; a NaN passes.
abbrev pub IsSimilarity : Float64 → Type 0
IsSimilarity x = is_nonzero x ≡ true → (is_negative x ≢ true) × (exceeds_one x ≢ true)

pub record IsValidConstraints (c : ConstraintsConfig) : Type 0 where
  pub severity : IfSome (λ s. (s.min_report ≡ "") ⊎ Elem s.min_report severity_levels) c.severity
  pub duplicates : IfSome (λ d. IsSimilarity d.similarity) c.duplicates

pub record IsValidRule (strict : Bool) (r : ReviewRuleConfig) : Type 0 where
  pub id : r.id ≢ ""
  pub areas : strict ≡ true → r.goals.areas ≢ []
  pub docs : length r.reference_docs ≤ 5
  pub constraints : IfSome IsValidConstraints r.constraints
  pub output : IfSome IsValidOutput r.output
  pub multi_run : IfSome (λ m. m.runs ≤ℤ pos 3) r.multi_run

-- Rules after the ids `seen`: each is valid, and no id is repeated.
abbrev pub AreValidRules : Bool → List String → List ReviewRuleConfig → Type 0
AreValidRules strict seen [] = Unit
AreValidRules strict seen (r ∷ rules) =
    (IsValidRule strict r × (¬ Elem r.id seen)) × AreValidRules strict (r.id ∷ seen) rules

pub record IsValidConfig (strict : Bool) (config : ReviewRulesConfig) : Type 0 where
  pub some_rules : config.rules ≢ []
  pub rules : AreValidRules strict [] config.rules
