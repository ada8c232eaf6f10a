-- ===== src/Dsl/Inherit/Resolve.antt =====
-- The merge functions and `applyRuleBase` of internal/dsl/parser.go against the specification.
use verustcode.Base.{
  String, Bool, Option, none, some, not, is_empty, ◌≡◌, refl, arith, eq_iff, List, [], ◌∷◌,
  if◌then◌else◌,
}
use verustcode.Dsl.Schema.{
  SeverityConfig, DuplicatesConfig, ConstraintsConfig, OutputConfig, OutputStyleConfig,
  OutputItemConfig, ReviewRuleConfig, RuleBaseConfig, default_review_rule_config,
}
use verustcode.Dsl.Merge.{
  merge_string, merge_bool_ptr, merge_severity, merge_constraints, merge_output,
  merge_output_channels, merge_output_style,
}
use verustcode.Dsl.Inherit.{apply_rule, apply_constraints, apply_output}
use verustcode.Dsl.Inherit.Spec.{
  text_of, first_text, first_some, first_items, ResolvesStyle, ResolvesOutput, ResolvesConstraints,
  Resolves,
}

first_text-empty : (t : String) → t ≡ first_text t ""
first_text-empty t = ground (arith, eq_iff t "")

first_some-none {ℓ} : {A : Type ℓ} (a : Option A) → a ≡ first_some a none
first_some-none none = refl
first_some-none (some a) = refl

first_items-nil {ℓ} : {A : Type ℓ} (xs : List A) → xs ≡ first_items xs []
first_items-nil [] = refl
first_items-nil (x ∷ xs) = refl

merge_string-first_text : (s t : String) → merge_string s t ≡ first_text s t
unfolding merge_string
merge_string-first_text s t = ground arith

merge_bool_ptr-first_some : (a b : Option Bool) → merge_bool_ptr a b ≡ first_some a b
unfolding merge_bool_ptr
merge_bool_ptr-first_some none b = refl
merge_bool_ptr-first_some (some a) b = refl

merge_channels-first_items :
    (xs ys : List OutputItemConfig) → merge_output_channels xs ys ≡ first_items xs ys
unfolding merge_output_channels
merge_channels-first_items [] ys = refl
merge_channels-first_items (x ∷ xs) ys = refl

merge_style_resolves : (s p : Option OutputStyleConfig) → ResolvesStyle s p (merge_output_style s p)
unfolding merge_output_style
merge_style_resolves none p = record {
  tone = refl;
  language = refl;
  concise = refl;
  no_emoji = refl;
  no_date = refl;
}
merge_style_resolves (some s) none = record {
  tone = first_text-empty s.tone;
  language = first_text-empty s.language;
  concise = first_some-none s.concise;
  no_emoji = first_some-none s.no_emoji;
  no_date = first_some-none s.no_date;
}
merge_style_resolves (some s) (some p) = record {
  tone = merge_string-first_text s.tone p.tone;
  language = merge_string-first_text s.language p.language;
  concise = merge_bool_ptr-first_some s.concise p.concise;
  no_emoji = merge_bool_ptr-first_some s.no_emoji p.no_emoji;
  no_date = merge_bool_ptr-first_some s.no_date p.no_date;
}

own_style :
    (s p : Option OutputStyleConfig)
    → elim s [ some s ↦ merge_output_style (some s) p | none ↦ p ] ≡ merge_output_style s p
unfolding merge_output_style
own_style none p = refl
own_style (some s) p = refl

merge_output_resolves :
    (o : Option OutputConfig) (p : OutputConfig)
    → ResolvesOutput o (some p) (merge_output o (some p))
unfolding merge_output
merge_output_resolves none p = record {
  style = record { tone = refl; language = refl; concise = refl; no_emoji = refl; no_date = refl };
  channels = refl;
  schema = refl;
}
merge_output_resolves (some o) p = record {
  style = rw (own_style o.style p.style) (merge_style_resolves o.style p.style);
  channels = merge_channels-first_items o.channels p.channels;
  schema = refl;
}

merge_severity_text :
    (s p : Option SeverityConfig)
    → text_of SeverityConfig.min_report (elim s [ some s ↦ merge_severity (some s) p | none ↦ p ])
      ≡ first_text (text_of SeverityConfig.min_report s) (text_of SeverityConfig.min_report p)
unfolding merge_severity
merge_severity_text none p = refl
merge_severity_text (some s) none = first_text-empty s.min_report
merge_severity_text (some s) (some p) = merge_string-first_text s.min_report p.min_report

merge_scope : (xs ys : List String) → (if not (is_empty xs) then xs else ys) ≡ first_items xs ys
merge_scope [] ys = refl
merge_scope (x ∷ xs) ys = refl

merge_duplicates :
    (d p : Option DuplicatesConfig) → elim d [ some d ↦ some d | none ↦ p ] ≡ first_some d p
merge_duplicates none p = refl
merge_duplicates (some d) p = refl

merge_constraints_resolves :
    (c : Option ConstraintsConfig) (p : ConstraintsConfig)
    → ResolvesConstraints c (some p) (merge_constraints c (some p))
unfolding merge_constraints
merge_constraints_resolves none p = record {
  scope_control = refl;
  min_report = refl;
  duplicates = refl;
  focus = refl;
}
merge_constraints_resolves (some c) p = record {
  scope_control = merge_scope c.scope_control p.scope_control;
  min_report = merge_severity_text c.severity p.severity;
  duplicates = merge_duplicates c.duplicates p.duplicates;
  focus = refl;
}

apply_output_resolves :
    (b o : Option OutputConfig)
    → ResolvesOutput o (first_some b default_review_rule_config.output) (apply_output b o)
unfolding apply_output
apply_output_resolves (some b) none = merge_output_resolves none b
apply_output_resolves (some b) (some o) = merge_output_resolves (some o) b
apply_output_resolves none (some o) = merge_output_resolves (some o) _
apply_output_resolves none none = record {
  style = record { tone = refl; language = refl; concise = refl; no_emoji = refl; no_date = refl };
  channels = refl;
  schema = refl;
}

apply_constraints_resolves :
    (b c : Option ConstraintsConfig)
    → ResolvesConstraints c
        (first_some b default_review_rule_config.constraints)
        (apply_constraints b c)
unfolding apply_constraints
apply_constraints_resolves (some b) none = merge_constraints_resolves none b
apply_constraints_resolves (some b) (some c) = merge_constraints_resolves (some c) b
apply_constraints_resolves none (some c) = merge_constraints_resolves (some c) _
apply_constraints_resolves none none = record {
  scope_control = refl;
  min_report = refl;
  duplicates = refl;
  focus = refl;
}

-- A rule after inheritance: the agent's type and model, each value of the output's style, the
-- channels, the scope, the reported severity and the duplicates setting are the rule's own where it
-- has one, else its parent's, and for the type of the agent else the default. The output's schema is
-- always the rule's own; focus_on_issues_only is the parent's if the rule has no constraints section,
-- and else unset.
pub apply_rule-Resolves :
    (b : Option RuleBaseConfig) (r : ReviewRuleConfig) → Resolves b r (apply_rule b r)
unfolding apply_rule
apply_rule-Resolves none r = record {
  agent_type = refl;
  agent_model = first_text-empty r.agent.model;
  output = apply_output_resolves none r.output;
  constraints = apply_constraints_resolves none r.constraints;
}
apply_rule-Resolves (some b) r = record {
  agent_type = ground (arith, eq_iff r.agent.type "", eq_iff b.agent.type "");
  agent_model = ground (arith, eq_iff r.agent.model "", eq_iff b.agent.model "");
  output = apply_output_resolves b.output r.output;
  constraints = apply_constraints_resolves b.constraints r.constraints;
}
