-- ===== src/Dsl/Parse/Tests.antt =====
-- A configuration in the manner of the README, parsed.
use verustcode.Base.{String, false, Option, none, some, [], ◌∷◌, ◌≡◌, ◌↔◌, refl, All}
use verustcode.Base.Int.{pos}
use verustcode.Dsl.Schema.{
  ConstraintsConfig, OutputItemConfig, RuleBaseConfig, ReviewRuleConfig, ReviewRulesConfig,
  default_review_rule_config,
}
use verustcode.Dsl.Inherit.{apply_rule, apply_rule_base, get_rule_ids, get_rule_by_id}
use verustcode.Dsl.Inherit.Laws.{IsComplete}
use verustcode.Dsl.Inherit.Spec.{Resolves}
use verustcode.Dsl.Inherit.Resolve.{apply_rule-Resolves}
use verustcode.Dsl.Validate.{validate, validation, in_rule, channel, url_required}
use verustcode.Dsl.Validate.Spec.{IsValidConfig}
use verustcode.Dsl.Validate.Sound.{validate_iff}
use verustcode.Dsl.Parse.{parsed, invalid, parse, decoded, check_parsed}
use verustcode.Dsl.Parse.Laws.{parse-IsValid}

abbrev webhook : String → OutputItemConfig
webhook url = record {
  type = "webhook";
  format = "json";
  dir = "";
  overwrite = false;
  marker_prefix = "";
  url = url;
  header_secret = "0123456789ab";
  timeout = pos 60;
  max_retries = pos 0;
}

abbrev own_constraints : ConstraintsConfig
own_constraints = record {
  scope_control = "diff only" ∷ [];
  focus_on_issues_only = some false;
  severity = some (record { min_report = "medium" });
  duplicates = none;
}

abbrev security : String → ReviewRuleConfig
security url = record default_review_rule_config {
  id = "security";
  agent = record { type = ""; model = "large" };
  constraints = some own_constraints;
  output = some (record { style = none; schema = none; channels = webhook url ∷ [] });
}

abbrev quality : ReviewRuleConfig
quality = record default_review_rule_config { id = "quality"; constraints = none; output = none }

abbrev base : RuleBaseConfig
base = record {
  agent = record { type = "gemini"; model = "small" };
  constraints = some own_constraints;
  output = none;
}

abbrev file : String → ReviewRulesConfig
file url = record { version = "1.0"; rule_base = some base; rules = security url ∷ quality ∷ [] }

-- A decoder that reads one file.
abbrev unmarshal : String → Option ReviewRulesConfig
unmarshal url = some (file url)

abbrev good : ReviewRulesConfig
good = apply_rule_base (file "https://h")

parsing : Unit {0}
unfolding parse decoded check_parsed validation apply_rule_base apply_rule get_rule_ids
    get_rule_by_id
parsing = tt

good_parses : parse unmarshal false "https://h" ≡ parsed good
unfolding parsing
good_parses = refl

bad_url : parse unmarshal false "" ≡ invalid (in_rule 0 "security" (channel 0 url_required))
unfolding parsing
bad_url = refl

parse-IsValid_example :
    (raw : ReviewRulesConfig) × (unmarshal "https://h" ≡ some raw)
    × (good ≡ apply_rule_base raw)
    × IsValidConfig false good
    × All IsComplete good.rules
parse-IsValid_example = parse-IsValid unmarshal false "https://h" good good_parses

validate_iff_example : (validate false good ≡ none) ↔ IsValidConfig false good
validate_iff_example = validate_iff false good

apply_rule-Resolves_example :
    Resolves (some base) (security "https://h") (apply_rule (some base) (security "https://h"))
apply_rule-Resolves_example = apply_rule-Resolves (some base) (security "https://h")
