-- ===== src/Dsl/Inherit/Spec.antt =====
-- The specification of inheritance in internal/dsl/parser.go: a value of a section of a rule is the
-- rule's own if it has one, else its parent's, but for two; the parent section is that of `rule_base` or, if
-- `rule_base` has no such section, the defaults'.
use verustcode.Base.{String, Bool, Option, none, some, ◌≡◌, List, [], ◌∷◌, if◌then◌else◌, str_eq}
use verustcode.Dsl.Schema.{
  SeverityConfig, DuplicatesConfig, ConstraintsConfig, OutputConfig, OutputStyleConfig,
  OutputSchemaConfig, OutputItemConfig, ReviewRuleConfig, RuleBaseConfig,
  default_review_rule_config, default_agent_type,
}

-- The values of a section that may be missing, as the zero value.
abbrev pub style_of : Option OutputConfig → Option OutputStyleConfig
style_of none = none
style_of (some o) = o.style

abbrev pub schema_of : Option OutputConfig → Option OutputSchemaConfig
schema_of none = none
schema_of (some o) = o.schema

abbrev pub channels_of : Option OutputConfig → List OutputItemConfig
channels_of none = []
channels_of (some o) = o.channels

abbrev pub text_of {ℓ} : {A : Type ℓ} → (A → String) → Option A → String
text_of f none = ""
text_of f (some a) = f a

abbrev pub flag_of {ℓ κ} : {A : Type ℓ} {B : Type κ} → (A → Option B) → Option A → Option B
flag_of f none = none
flag_of f (some a) = f a

abbrev pub scope_of : Option ConstraintsConfig → List String
scope_of none = []
scope_of (some c) = c.scope_control

abbrev pub severity_of : Option ConstraintsConfig → Option SeverityConfig
severity_of none = none
severity_of (some c) = c.severity

abbrev pub duplicates_of : Option ConstraintsConfig → Option DuplicatesConfig
duplicates_of none = none
duplicates_of (some c) = c.duplicates

-- The first text that is not empty, the first value that is there, the first list with items.
abbrev pub first_text : String → String → String
first_text s t = if str_eq s "" then t else s

abbrev pub first_some {ℓ} : {A : Type ℓ} → Option A → Option A → Option A
first_some (some a) b = some a
first_some none b = b

abbrev pub first_items {ℓ} : {A : Type ℓ} → List A → List A → List A
first_items [] ys = ys
first_items (x ∷ xs) ys = x ∷ xs

abbrev pub base_agent_type : RuleBaseConfig → String
base_agent_type b = b.agent.type

abbrev pub base_agent_model : RuleBaseConfig → String
base_agent_model b = b.agent.model

-- The section that a rule inherits from.
abbrev pub parent_output : Option RuleBaseConfig → Option OutputConfig
parent_output none = default_review_rule_config.output
parent_output (some b) = first_some b.output default_review_rule_config.output

abbrev pub parent_constraints : Option RuleBaseConfig → Option ConstraintsConfig
parent_constraints none = default_review_rule_config.constraints
parent_constraints (some b) = first_some b.constraints default_review_rule_config.constraints

-- Each value of a style is the rule's own or the parent's.
pub record ResolvesStyle (own parent result : Option OutputStyleConfig) : Type 0 where
  pub tone :
      text_of OutputStyleConfig.tone result
      ≡ first_text (text_of OutputStyleConfig.tone own) (text_of OutputStyleConfig.tone parent)
  pub language :
      text_of OutputStyleConfig.language result
      ≡ first_text
          (text_of OutputStyleConfig.language own)
          (text_of OutputStyleConfig.language parent)
  pub concise :
      flag_of OutputStyleConfig.concise result
      ≡ first_some
          (flag_of OutputStyleConfig.concise own)
          (flag_of OutputStyleConfig.concise parent)
  pub no_emoji :
      flag_of OutputStyleConfig.no_emoji result
      ≡ first_some
          (flag_of OutputStyleConfig.no_emoji own)
          (flag_of OutputStyleConfig.no_emoji parent)
  pub no_date :
      flag_of OutputStyleConfig.no_date result
      ≡ first_some
          (flag_of OutputStyleConfig.no_date own)
          (flag_of OutputStyleConfig.no_date parent)

-- So is the list of channels; the schema is never inherited.
pub record ResolvesOutput (own parent result : Option OutputConfig) : Type 0 where
  pub style : ResolvesStyle (style_of own) (style_of parent) (style_of result)
  pub channels : channels_of result ≡ first_items (channels_of own) (channels_of parent)
  pub schema : schema_of result ≡ schema_of own

-- `focus_on_issues_only` is the parent's where the rule has no section of its own, and else unset.
abbrev pub focus_of : Option ConstraintsConfig → Option Bool
focus_of none = none
focus_of (some c) = c.focus_on_issues_only

abbrev pub resolved_focus : Option ConstraintsConfig → Option ConstraintsConfig → Option Bool
resolved_focus none parent = focus_of parent
resolved_focus (some own) parent = none

-- The values of a constraints section.
pub record ResolvesConstraints (own parent result : Option ConstraintsConfig) : Type 0 where
  pub scope_control : scope_of result ≡ first_items (scope_of own) (scope_of parent)
  pub min_report :
      text_of SeverityConfig.min_report (severity_of result)
      ≡ first_text
          (text_of SeverityConfig.min_report (severity_of own))
          (text_of SeverityConfig.min_report (severity_of parent))
  pub duplicates : duplicates_of result ≡ first_some (duplicates_of own) (duplicates_of parent)
  pub focus : focus_of result ≡ resolved_focus own parent

-- The agent, output and constraints of a rule after inheritance, each value from the first of the
-- rule, its parent section and, for the type of the agent, the default that has it.
pub record Resolves (b : Option RuleBaseConfig) (r result : ReviewRuleConfig) : Type 0 where
  pub agent_type :
      result.agent.type
      ≡ first_text r.agent.type (first_text (text_of base_agent_type b) default_agent_type)
  pub agent_model : result.agent.model ≡ first_text r.agent.model (text_of base_agent_model b)
  pub output : ResolvesOutput r.output (parent_output b) result.output
  pub constraints : ResolvesConstraints r.constraints (parent_constraints b) result.constraints
