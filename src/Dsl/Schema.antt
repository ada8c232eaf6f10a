-- ===== src/Dsl/Schema.antt =====
-- The configuration types and defaults of internal/dsl/schema.go. A pointer is an `Option`, a Go
-- `int` an integer, and a list left out is the empty list, as `len` reads it.
use verustcode.Base.{
  String, Bool, true, false, Option, none, some, List, [], ◌∷◌, str_eq, if◌then◌else◌,
}
use verustcode.Base.Int.{ℤ, negsuc}
use verustcode.Base.Float.{Float64, finite}

pub record AgentConfig : Type 0 where
  pub type : String
  pub model : String

pub record MultiRunConfig : Type 0 where
  pub runs : ℤ
  pub models : List String
  pub merge_model : String

pub record HistoryCompareConfig : Type 0 where
  pub enabled : Bool

pub record GoalsConfig : Type 0 where
  pub areas : List String
  pub avoid : List String

pub record SeverityConfig : Type 0 where
  pub min_report : String

pub record DuplicatesConfig : Type 0 where
  pub suppress_similar : Option Bool
  pub similarity : Float64

pub record ConstraintsConfig : Type 0 where
  pub scope_control : List String
  pub focus_on_issues_only : Option Bool
  pub severity : Option SeverityConfig
  pub duplicates : Option DuplicatesConfig

pub record OutputStyleConfig : Type 0 where
  pub tone : String
  pub concise : Option Bool
  pub no_emoji : Option Bool
  pub no_date : Option Bool
  pub language : String

pub record ExtraFieldConfig : Type 0 where
  pub name : String
  pub type : String
  pub description : String
  pub required : Bool
  pub enum : List String

pub record OutputSchemaConfig : Type 0 where
  pub extra_fields : List ExtraFieldConfig

pub record OutputItemConfig : Type 0 where
  pub type : String
  pub format : String
  pub dir : String
  pub overwrite : Bool
  pub marker_prefix : String
  pub url : String
  pub header_secret : String
  pub timeout : ℤ
  pub max_retries : ℤ

pub record OutputConfig : Type 0 where
  pub style : Option OutputStyleConfig
  pub schema : Option OutputSchemaConfig
  pub channels : List OutputItemConfig

pub record RuleBaseConfig : Type 0 where
  pub agent : AgentConfig
  pub constraints : Option ConstraintsConfig
  pub output : Option OutputConfig

pub record ReviewRuleConfig : Type 0 where
  pub id : String
  pub description : String
  pub agent : AgentConfig
  pub reference_docs : List String
  pub goals : GoalsConfig
  pub constraints : Option ConstraintsConfig
  pub output : Option OutputConfig
  pub multi_run : Option MultiRunConfig
  pub history_compare : Option HistoryCompareConfig

pub record ReviewRulesConfig : Type 0 where
  pub version : String
  pub rule_base : Option RuleBaseConfig
  pub rules : List ReviewRuleConfig

abbrev pub default_agent_type : String
default_agent_type = "cursor"

abbrev pub default_tone : String
default_tone = "constructive"

-- The double nearest to 0.88.
abbrev pub default_similarity_score : Float64
default_similarity_score = finite false 7926335344172073 (negsuc 52)

abbrev pub severity_levels : List String
severity_levels = "info" ∷ "low" ∷ "medium" ∷ "high" ∷ "critical" ∷ []

unfoldable pub get_type : AgentConfig → String
get_type a = if str_eq a.type "" then default_agent_type else a.type

abbrev pub default_review_rule_config : ReviewRuleConfig
default_review_rule_config = record {
  id = "";
  description = "";
  agent = record { type = default_agent_type; model = "" };
  reference_docs = [];
  goals = record { areas = []; avoid = [] };
  constraints = some (record {
    scope_control = [];
    focus_on_issues_only = some true;
    severity = none;
    duplicates =
        some (record { suppress_similar = some true; similarity = default_similarity_score });
  });
  output = some (record {
    style = some (record {
      tone = default_tone;
      concise = some true;
      no_emoji = some true;
      no_date = some true;
      language = "";
    });
    schema = none;
    channels = [];
  });
  multi_run = none;
  history_compare = none;
}
