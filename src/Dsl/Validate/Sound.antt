-- ===== src/Dsl/Validate/Sound.antt =====
-- `Validate` of internal/dsl/parser.go against its specification.
use verustcode.Base.{
  ℕ, suc, String, Bool, Option, none, some, List, [], ◌∷◌, ◌≡◌, ◌↔◌, refl, arith, eq_iff,
}
use verustcode.Base.Int.{pos, ◌≤ℤ◌}
use verustcode.Dsl.Schema.{
  ConstraintsConfig, OutputConfig, MultiRunConfig, ReviewRuleConfig, ReviewRulesConfig,
}
use verustcode.Dsl.Validate.{
  validate_constraints, validate_extra_fields, validate_output, validate_multi_run, validate_rule,
  validate_rules_from, validate,
}
use verustcode.Dsl.Validate.Spec.{
  IfSome, IsValidOutput, IsValidConstraints, IsValidRule, AreValidRules, IsValidConfig,
}
use verustcode.Dsl.Validate.Checks.{
  contains_iff, severity_iff, similarity_iff, check_tone_iff, check_channels_iff, fields_iff,
}

-- A check of what a pointer points to.
IfSome-iff :
    {A : Type 0} {E : Type 0} (P : A → Type 0) (check : A → Option E)
    → ((a : A) → (check a ≡ none) ↔ P a)
    → (o : Option A) → (elim o [ none ↦ none | some a ↦ check a ] ≡ none) ↔ IfSome P o
IfSome-iff P check h none = (λ e. tt, λ e. refl)
IfSome-iff P check h (some a) = h a

constraints_iff : (c : ConstraintsConfig) → (validate_constraints c ≡ none) ↔ IsValidConstraints c
unfolding validate_constraints
constraints_iff c =
    ground
      (arith, IfSome-iff _ _ severity_iff c.severity, IfSome-iff _ _ similarity_iff c.duplicates)

output_iff : (o : OutputConfig) → (validate_output o ≡ none) ↔ IsValidOutput o
unfolding validate_output validate_extra_fields
output_iff o = ground (
  arith,
  IfSome-iff _ _ check_tone_iff o.style,
  check_channels_iff 0 o.channels,
  IfSome-iff _ _ (λ s. fields_iff [] 0 s.extra_fields) o.schema,
)

multi_run_iff : (m : MultiRunConfig) → (validate_multi_run m ≡ none) ↔ (m.runs ≤ℤ pos 3)
unfolding validate_multi_run
multi_run_iff m = ground arith

rule_iff :
    (strict : Bool) (r : ReviewRuleConfig) → (validate_rule strict r ≡ none) ↔ IsValidRule strict r
unfolding validate_rule
rule_iff strict r = ground (
  arith,
  eq_iff r.id "",
  IfSome-iff _ _ constraints_iff r.constraints,
  IfSome-iff _ _ output_iff r.output,
  IfSome-iff _ _ multi_run_iff r.multi_run,
)

rules_iff :
    (strict : Bool) (ids : List String) (i : ℕ) (rules : List ReviewRuleConfig)
    → (validate_rules_from strict ids i rules ≡ none) ↔ AreValidRules strict ids rules
unfolding validate_rules_from
rules_iff strict ids i [] = (λ h. tt, λ h. refl)
rules_iff strict ids i (r ∷ rules) =
    ground
      (arith, rule_iff strict r, contains_iff ids r.id, rules_iff strict (r.id ∷ ids) (suc i) rules)

-- `Validate` returns nil exactly on the valid configurations: at least one rule, no id twice, and
-- each rule with an id, in strict mode an area, at most 5 reference documents and 3 runs, a known
-- severity and tone, a similarity from 0 to 1, channels of known types and formats, webhooks with a
-- URL and limits in range, and extra fields with new, free names, known types and a description.
pub validate_iff :
    (strict : Bool) (config : ReviewRulesConfig)
    → (validate strict config ≡ none) ↔ IsValidConfig strict config
unfolding validate
validate_iff strict config = ground (arith, rules_iff strict [] 0 config.rules)
