-- ===== src/Dsl/Merge.antt =====
-- The merge functions of internal/dsl/merge_utils.go and internal/dsl/parser.go: a value of the
-- rule takes precedence over the value of the base.
use verustcode.Base.{
  String, Bool, true, false, Option, none, some, List, [], ◌∷◌, str_eq, is_empty, not,
  if◌then◌else◌,
}
use verustcode.Dsl.Schema.{
  SeverityConfig, ConstraintsConfig, OutputStyleConfig, OutputItemConfig, OutputConfig,
}

unfoldable pub merge_string : String → String → String
merge_string override base = if not (str_eq override "") then override else base

unfoldable pub merge_bool_ptr : Option Bool → Option Bool → Option Bool
merge_bool_ptr (some b) base = some b
merge_bool_ptr none base = base

unfoldable pub contains_string : List String → String → Bool
contains_string [] item = false
contains_string (s ∷ slice) item = if str_eq s item then true else contains_string slice item

unfoldable pub merge_severity :
    Option SeverityConfig → Option SeverityConfig → Option SeverityConfig
unfolding merge_string
merge_severity none base = base
merge_severity (some o) none = some o
merge_severity (some o) (some b) =
    some (record { min_report = merge_string o.min_report b.min_report })

-- The result is built from a zero value: the three fields below are set, the fourth,
-- `FocusOnIssuesOnly`, stays nil.
unfoldable pub merge_constraints :
    Option ConstraintsConfig → Option ConstraintsConfig → Option ConstraintsConfig
unfolding merge_severity
merge_constraints none base = base
merge_constraints (some o) none = some o
merge_constraints (some o) (some b) = some (record {
  scope_control = if not (is_empty o.scope_control) then o.scope_control else b.scope_control;
  focus_on_issues_only = none;
  severity = elim o.severity [ some s ↦ merge_severity (some s) b.severity | none ↦ b.severity ];
  duplicates = elim o.duplicates [ some d ↦ some d | none ↦ b.duplicates ];
})

unfoldable pub merge_output_channels :
    List OutputItemConfig → List OutputItemConfig → List OutputItemConfig
merge_output_channels override base = if not (is_empty override) then override else base

unfoldable pub merge_output_style :
    Option OutputStyleConfig → Option OutputStyleConfig → Option OutputStyleConfig
unfolding merge_string merge_bool_ptr
merge_output_style none base = base
merge_output_style (some o) none = some o
merge_output_style (some o) (some b) = some (record {
  tone = merge_string o.tone b.tone;
  concise = merge_bool_ptr o.concise b.concise;
  no_emoji = merge_bool_ptr o.no_emoji b.no_emoji;
  no_date = merge_bool_ptr o.no_date b.no_date;
  language = merge_string o.language b.language;
})

unfoldable pub merge_output : Option OutputConfig → Option OutputConfig → Option OutputConfig
unfolding merge_output_style merge_output_channels
merge_output none none = none
merge_output none (some b) = some (record { style = b.style; schema = none; channels = b.channels })
merge_output (some o) none = some o
merge_output (some o) (some b) = some (record {
  style = elim o.style [ some s ↦ merge_output_style (some s) b.style | none ↦ b.style ];
  schema = o.schema;
  channels = merge_output_channels o.channels b.channels;
})
