-- ===== src/Dsl/Parse/Laws.antt =====
-- What a caller of `Parse` may rely on.
use verustcode.Base.{
  String, Bool, Option, none, some, List, [], ◌∷◌, ◌≡◌, ◌≢◌, refl, sym, ◌∙◌, arith, eq_iff, eq_refl,
  All, inl, inr,
}
use verustcode.Dsl.Schema.{ReviewRuleConfig, ReviewRulesConfig}
use verustcode.Dsl.Inherit.{apply_rule_base, get_rule_by_id}
use verustcode.Dsl.Inherit.Laws.{IsComplete, apply_rule_base-IsComplete}
use verustcode.Dsl.Validate.{ConfigError, validate}
use verustcode.Dsl.Validate.Spec.{Elem, AreValidRules, IsValidConfig}
use verustcode.Dsl.Validate.Sound.{validate_iff}
use verustcode.Dsl.Parse.{parsed, parse, decoded, check_parsed}

check_parsed-eq-parsed :
    (e : Option ConfigError) (c config : ReviewRulesConfig)
    → check_parsed e c ≡ parsed config
    → (e ≡ none) × (c ≡ config)
unfolding check_parsed
check_parsed-eq-parsed none c config h = (refl, cc)
check_parsed-eq-parsed (some e) c config h = cc

decoded-eq-parsed :
    (strict : Bool) (o : Option ReviewRulesConfig) (config : ReviewRulesConfig)
    → decoded strict o ≡ parsed config
    → (raw : ReviewRulesConfig) × (o ≡ some raw)
      × (config ≡ apply_rule_base raw)
      × (validate strict config ≡ none)
unfolding decoded
decoded-eq-parsed strict none config h = cc
decoded-eq-parsed strict (some raw) config h =
    let (accepted, same) =
      check_parsed-eq-parsed (validate strict (apply_rule_base raw)) (apply_rule_base raw) config
        h in
    (raw, refl, sym same, rw same at accepted)

-- A configuration that `Parse` returns is what it decoded, with inheritance applied; it is valid,
-- and each of its rules has an agent, constraints and an output section.
pub parse-IsValid :
    (unmarshal : String → Option ReviewRulesConfig) (strict : Bool) (text : String)
    (config : ReviewRulesConfig)
    → parse unmarshal strict text ≡ parsed config
    → (raw : ReviewRulesConfig) × (unmarshal text ≡ some raw)
      × (config ≡ apply_rule_base raw)
      × IsValidConfig strict config
      × All IsComplete config.rules
unfolding parse
parse-IsValid unmarshal strict text config h =
    let (raw, found, same, accepted) = decoded-eq-parsed strict (unmarshal text) config h in
    (
      raw,
      found,
      same,
      (validate_iff strict config).0 accepted,
      rw same (apply_rule_base-IsComplete raw).0,
    )

-- Conversely, if the decoded file is valid after inheritance, `Parse` returns it so.
pub parse_complete :
    (unmarshal : String → Option ReviewRulesConfig) (strict : Bool) (text : String)
    (raw : ReviewRulesConfig)
    → unmarshal text ≡ some raw
    → IsValidConfig strict (apply_rule_base raw)
    → parse unmarshal strict text ≡ parsed (apply_rule_base raw)
unfolding parse decoded check_parsed
parse_complete unmarshal strict text raw found valid =
    rw (found, decoded) (rw ((validate_iff strict (apply_rule_base raw)).1 valid, check_parsed))

-- A later rule with another id is not found first.
get_rule_by_id-cons :
    (r : ReviewRuleConfig) (rules : List ReviewRuleConfig) (q : ReviewRuleConfig)
    → r.id ≢ q.id
    → get_rule_by_id (r ∷ rules) q.id ≡ get_rule_by_id rules q.id
unfolding get_rule_by_id
get_rule_by_id-cons r rules q h = ground (arith, eq_iff r.id q.id)

abbrev pub FindsOwn : List ReviewRuleConfig → ReviewRuleConfig → Type 0
FindsOwn rules r = get_rule_by_id rules r.id ≡ some r

rules_fresh :
    (strict : Bool) (seen : List String) (rules : List ReviewRuleConfig) (id : String)
    → Elem id seen
    → AreValidRules strict seen rules
    → All (λ q. id ≢ q.id) rules
rules_fresh strict seen [] id e h = tt
rules_fresh strict seen (r ∷ rules) id e h =
    (λ p. h.0.1 (rw (sym p) e), rules_fresh strict (r.id ∷ seen) rules id (inr e) h.1)

own_rules :
    (strict : Bool) (seen : List String) (rules : List ReviewRuleConfig)
    → AreValidRules strict seen rules
    → All (FindsOwn rules) rules
unfolding get_rule_by_id
own_rules strict seen [] h = tt
own_rules strict seen (r ∷ rules) h = (
  rw (eq_refl r.id),
  all_later rules (rules_fresh strict (r.id ∷ seen) rules r.id (inl refl) h.1)
      (own_rules strict (r.id ∷ seen) rules h.1),
)
  where
    all_later :
        (later : List ReviewRuleConfig)
        → All (λ q. r.id ≢ q.id) later
        → All (FindsOwn rules) later
        → All (FindsOwn (r ∷ rules)) later
    all_later [] ne found = tt
    all_later (q ∷ later) ne found =
        (get_rule_by_id-cons r rules q ne.0 ∙ found.0, all_later later ne.1 found.1)

-- In a valid configuration `GetRuleByID` finds each rule by its own id.
pub valid-FindsOwn :
    (strict : Bool) (config : ReviewRulesConfig)
    → IsValidConfig strict config
    → All (FindsOwn config.rules) config.rules
valid-FindsOwn strict config h = own_rules strict [] config.rules h.rules
