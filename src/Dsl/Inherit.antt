-- ===== src/Dsl/Inherit.antt =====
-- `applyRuleBase` of internal/dsl/parser.go: each rule takes what it leaves out from `rule_base`,
-- or, where `rule_base` has no such section, from the defaults.
pub mod Laws
pub mod Spec
pub mod Resolve
use verustcode.Base.{
  String, Bool, true, false, Option, none, some, List, [], ◌∷◌, map, str_eq, not, if◌then◌else◌,
  ◌&&◌,
}
use verustcode.Dsl.Schema.{
  AgentConfig, ConstraintsConfig, OutputConfig, RuleBaseConfig, ReviewRuleConfig, ReviewRulesConfig,
  default_review_rule_config,
}
use verustcode.Dsl.Merge.{merge_constraints, merge_output}

-- `ruleBase != nil && ruleBase.Agent.Type != ""`
apply_agent_type : Option RuleBaseConfig → String → String
apply_agent_type none type = if str_eq type "" then default_review_rule_config.agent.type else type
apply_agent_type (some b) type =
    if str_eq type ""
    then (if not (str_eq b.agent.type "")
        then b.agent.type
        else default_review_rule_config.agent.type)
    else type

apply_agent_model : Option RuleBaseConfig → String → String
apply_agent_model none model = model
apply_agent_model (some b) model =
    if str_eq model ""
    then (if not (str_eq b.agent.model "") then b.agent.model else model)
    else model

-- `ruleBase.Constraints`, nil also where there is no `ruleBase`.
base_constraints : Option RuleBaseConfig → Option ConstraintsConfig
base_constraints none = none
base_constraints (some b) = b.constraints

base_output : Option RuleBaseConfig → Option OutputConfig
base_output none = none
base_output (some b) = b.output

apply_constraints : Option ConstraintsConfig → Option ConstraintsConfig → Option ConstraintsConfig
unfolding merge_constraints
apply_constraints (some b) none = merge_constraints none (some b)
apply_constraints none none = default_review_rule_config.constraints
apply_constraints (some b) (some c) = merge_constraints (some c) (some b)
apply_constraints none (some c) = merge_constraints (some c) default_review_rule_config.constraints

apply_output : Option OutputConfig → Option OutputConfig → Option OutputConfig
unfolding merge_output
apply_output (some b) none = merge_output none (some b)
apply_output none none = default_review_rule_config.output
apply_output (some b) (some o) = merge_output (some o) (some b)
apply_output none (some o) = merge_output (some o) default_review_rule_config.output

-- One round of the loop.
unfoldable pub apply_rule : Option RuleBaseConfig → ReviewRuleConfig → ReviewRuleConfig
unfolding apply_agent_type apply_agent_model apply_constraints apply_output base_constraints
    base_output
apply_rule base rule = record rule {
  agent = record {
    type = apply_agent_type base rule.agent.type;
    model = apply_agent_model base rule.agent.model;
  };
  constraints = apply_constraints (base_constraints base) rule.constraints;
  output = apply_output (base_output base) rule.output;
}

unfoldable pub apply_rule_base : ReviewRulesConfig → ReviewRulesConfig
apply_rule_base config = record config { rules = map (apply_rule config.rule_base) config.rules }

-- `GetRuleByID` and `GetRuleIDs`
unfoldable pub get_rule_by_id : List ReviewRuleConfig → String → Option ReviewRuleConfig
get_rule_by_id [] id = none
get_rule_by_id (r ∷ rules) id = if str_eq r.id id then some r else get_rule_by_id rules id

unfoldable pub get_rule_ids : List ReviewRuleConfig → List String
get_rule_ids [] = []
get_rule_ids (r ∷ rules) = r.id ∷ get_rule_ids rules
