-- ===== src/Dsl/Inherit/Laws.antt =====
-- The rules that `applyRuleBase` of internal/dsl/parser.go returns.
use verustcode.Base.{
  String, Option, none, some, ◌≡◌, ◌≢◌, refl, ap, arith, eq_iff, List, [], ◌∷◌, All, map,
}
use verustcode.Dsl.Schema.{
  ConstraintsConfig, OutputConfig, ReviewRuleConfig, ReviewRulesConfig, RuleBaseConfig,
  default_agent_type,
}
use verustcode.Dsl.Inherit.{
  apply_rule, apply_rule_base, get_rule_ids, apply_agent_type, apply_constraints, apply_output,
  base_constraints, base_output,
}

-- What the rest of the program takes for granted of a rule that was loaded.
pub record IsComplete (r : ReviewRuleConfig) : Type 0 where
  pub agent_set : r.agent.type ≢ ""
  pub constraints_set : r.constraints ≢ none
  pub output_set : r.output ≢ none

apply_agent_type-ne_empty :
    (b : Option RuleBaseConfig) (type : String) → apply_agent_type b type ≢ ""
unfolding apply_agent_type
apply_agent_type-ne_empty none type = ground (arith, eq_iff type "", eq_iff default_agent_type "")
apply_agent_type-ne_empty (some b) type =
    ground (arith, eq_iff type "", eq_iff b.agent.type "", eq_iff default_agent_type "")

apply_constraints-ne-none : (b c : Option ConstraintsConfig) → apply_constraints b c ≢ none
unfolding apply_constraints
apply_constraints-ne-none b c = ground arith

apply_output-ne-none : (b o : Option OutputConfig) → apply_output b o ≢ none
unfolding apply_output
apply_output-ne-none b o = ground arith

pub apply_rule-IsComplete :
    (b : Option RuleBaseConfig) (r : ReviewRuleConfig) → IsComplete (apply_rule b r)
unfolding apply_rule
apply_rule-IsComplete b r = record {
  agent_set = apply_agent_type-ne_empty b r.agent.type;
  constraints_set = apply_constraints-ne-none (base_constraints b) r.constraints;
  output_set = apply_output-ne-none (base_output b) r.output;
}

apply_rules-IsComplete :
    (b : Option RuleBaseConfig) (rules : List ReviewRuleConfig)
    → All IsComplete (map (apply_rule b) rules)
apply_rules-IsComplete b [] = tt
apply_rules-IsComplete b (r ∷ rules) = (apply_rule-IsComplete b r, apply_rules-IsComplete b rules)

apply_rules-ids :
    (b : Option RuleBaseConfig) (rules : List ReviewRuleConfig)
    → get_rule_ids (map (apply_rule b) rules) ≡ get_rule_ids rules
unfolding get_rule_ids apply_rule
apply_rules-ids b [] = refl
apply_rules-ids b (r ∷ rules) = ap (λ ids. r.id ∷ ids) (apply_rules-ids b rules)

-- After inheritance every rule has an agent, constraints and an output section, whatever the file
-- leaves out, and the rules keep their ids, in order.
pub apply_rule_base-IsComplete :
    (config : ReviewRulesConfig)
    → All IsComplete (apply_rule_base config).rules
      × (get_rule_ids (apply_rule_base config).rules ≡ get_rule_ids config.rules)
unfolding apply_rule_base
apply_rule_base-IsComplete config = (
  apply_rules-IsComplete config.rule_base config.rules,
  apply_rules-ids config.rule_base config.rules,
)

-- Without one it keeps the setting of `rule_base`, if that has a constraints section.
pub apply_rule-keeps_focus :
    (b : RuleBaseConfig) (r : ReviewRuleConfig)
    → r.constraints ≡ none
    → b.constraints ≢ none
    → (apply_rule (some b) r).constraints ≡ b.constraints
unfolding apply_rule
apply_rule-keeps_focus b r h k = ground arith
