-- ===== src/Dsl/Validate.antt =====
-- Validation of a configuration, internal/dsl/parser.go. Every error has the code
-- ErrCodeConfigInvalid, and a constructor here for its message. A set of names is a list.
-- `validateAreas` only logs, and returns nil for every list.

pub mod Spec
mod Checks
pub mod Sound
use Prim.Native.String.{len}
use verustcode.Base.{
  ℕ, suc, String, Bool, true, false, Option, none, some, List, [], ◌∷◌, str_eq, is_empty, not, ltb,
  length, ◌&&◌, ◌||◌, if◌then◌else◌,
}
use verustcode.Base.Int.{ℤ, pos, ltb_ℤ, eqb_ℤ}
use verustcode.Base.Float.{is_nonzero, is_negative, exceeds_one}
use verustcode.Dsl.Schema.{
  SeverityConfig, DuplicatesConfig, ConstraintsConfig, OutputStyleConfig, ExtraFieldConfig,
  OutputItemConfig, OutputConfig, MultiRunConfig, ReviewRuleConfig, ReviewRulesConfig,
  severity_levels,
}
use verustcode.Dsl.Merge.{contains_string}

abbrev pub min_webhook_timeout : ℤ
min_webhook_timeout = pos 30

abbrev pub max_webhook_timeout : ℤ
max_webhook_timeout = pos 300

abbrev pub min_webhook_retries : ℤ
min_webhook_retries = pos 3

abbrev pub max_webhook_retries : ℤ
max_webhook_retries = pos 12

abbrev pub min_header_secret_length : ℕ
min_header_secret_length = 12

abbrev pub max_header_secret_length : ℕ
max_header_secret_length = 64

abbrev pub min_multi_run_runs : ℤ
min_multi_run_runs = pos 2

abbrev pub max_multi_run_runs : ℤ
max_multi_run_runs = pos 3

abbrev pub max_reference_docs : ℕ
max_reference_docs = 5

abbrev pub valid_formats : List String
valid_formats = "markdown" ∷ "json" ∷ []

abbrev pub valid_types : List String
valid_types = "file" ∷ "comment" ∷ "webhook" ∷ []

abbrev pub valid_tones : List String
valid_tones = "strict" ∷ "constructive" ∷ "neutral" ∷ "friendly" ∷ "professional" ∷ []

abbrev pub reserved_finding_fields : List String
reserved_finding_fields =
    "severity" ∷ "title" ∷ "description" ∷ "category" ∷ "location" ∷ "suggestion" ∷ "code_snippet"
    ∷ []

abbrev pub valid_extra_field_types : List String
valid_extra_field_types = "string" ∷ "integer" ∷ "boolean" ∷ "array" ∷ []

-- What the message of an error says, by the check that failed; a number is the index printed.
pub data ChannelError : Type 0 where
  type_required invalid_type invalid_format url_required : ChannelError
  invalid_timeout invalid_retries invalid_secret : ChannelError

pub data FieldError : Type 0 where
  name_required duplicate_name reserved_name : FieldError
  field_type_required invalid_field_type description_required enum_not_string : FieldError

pub data RuleError : Type 0 where
  id_required area_required too_many_docs : RuleError
  invalid_similarity invalid_severity invalid_tone too_many_runs : RuleError
  channel : ℕ → ChannelError → RuleError
  extra_field : ℕ → FieldError → RuleError

pub data ConfigError : Type 0 where
  no_rules : ConfigError
  duplicate_rule_id : String → ConfigError
  in_rule : ℕ → String → RuleError → ConfigError

-- `if err := …; err != nil { return err }`, then the rest.
infixr 5 ◌>>◌
abbrev pub ◌>>◌ : {E : Type 0} → Option E → Option E → Option E
some e >> k = some e
none >> k = k

-- `if test { return error }`
abbrev pub reject : {E : Type 0} → Bool → E → Option E
reject true e = some e
reject false e = none

-- An error inside a part, as an error of the whole.
abbrev pub within : {E F : Type 0} → (E → F) → Option E → Option F
within f none = none
within f (some e) = some (f e)

pub validate_severity : SeverityConfig → Option RuleError
validate_severity s =
    reject (not (str_eq s.min_report "") && not (contains_string severity_levels s.min_report))
      invalid_severity

pub check_similarity : DuplicatesConfig → Option RuleError
check_similarity d =
    reject (is_nonzero d.similarity && (is_negative d.similarity || exceeds_one d.similarity))
      invalid_similarity

pub validate_constraints : ConstraintsConfig → Option RuleError
validate_constraints c = do
  elim c.severity [ none ↦ none | some s ↦ validate_severity s ]
  elim c.duplicates [ none ↦ none | some d ↦ check_similarity d ]

-- `n != 0 && (n < low || n > high)`
abbrev pub out_of_range : ℤ → ℤ → ℤ → Bool
out_of_range low high n = not (eqb_ℤ n (pos 0)) && (ltb_ℤ n low || ltb_ℤ high n)

pub check_webhook : OutputItemConfig → Option ChannelError
check_webhook item = do
  reject (str_eq item.url "") url_required
  reject (out_of_range min_webhook_timeout max_webhook_timeout item.timeout) invalid_timeout
  reject (out_of_range min_webhook_retries max_webhook_retries item.max_retries) invalid_retries
  let secret_len = len item.header_secret
  reject
      (ltb 0 secret_len
        && (ltb secret_len min_header_secret_length || ltb max_header_secret_length secret_len))
      invalid_secret

-- One round of the loop over the channels.
pub check_channel : OutputItemConfig → Option ChannelError
check_channel item = do
  reject (str_eq item.type "") type_required
  reject (not (contains_string valid_types item.type)) invalid_type
  reject (not (str_eq item.format "") && not (contains_string valid_formats item.format))
      invalid_format
  if str_eq item.type "webhook" then check_webhook item else none

pub check_channels : ℕ → List OutputItemConfig → Option RuleError
check_channels i [] = none
check_channels i (item ∷ items) =
    within (channel i) (check_channel item) >> check_channels (suc i) items

-- One round of the loop over the extra fields; `seen` holds the names before this one.
pub check_field : List String → ExtraFieldConfig → Option FieldError
check_field seen field = do
  reject (str_eq field.name "") name_required
  reject (contains_string seen field.name) duplicate_name
  reject (contains_string reserved_finding_fields field.name) reserved_name
  reject (str_eq field.type "") field_type_required
  reject (not (contains_string valid_extra_field_types field.type)) invalid_field_type
  reject (str_eq field.description "") description_required
  reject (not (is_empty field.enum) && not (str_eq field.type "string")) enum_not_string

pub validate_fields_from : List String → ℕ → List ExtraFieldConfig → Option RuleError
validate_fields_from seen i [] = none
validate_fields_from seen i (field ∷ fields) =
    within (extra_field i) (check_field seen field)
    >> validate_fields_from (field.name ∷ seen) (suc i) fields

pub validate_extra_fields : List ExtraFieldConfig → Option RuleError
validate_extra_fields fields = validate_fields_from [] 0 fields

pub check_tone : OutputStyleConfig → Option RuleError
check_tone style =
    reject (not (str_eq style.tone "") && not (contains_string valid_tones style.tone)) invalid_tone

pub validate_output : OutputConfig → Option RuleError
validate_output o = do
  elim o.style [ none ↦ none | some style ↦ check_tone style ]
  check_channels 0 o.channels
  elim o.schema [ none ↦ none | some schema ↦ validate_extra_fields schema.extra_fields ]

pub validate_multi_run : MultiRunConfig → Option RuleError
validate_multi_run m =
    if ltb_ℤ m.runs min_multi_run_runs
    then none
    else reject (ltb_ℤ max_multi_run_runs m.runs) too_many_runs

-- `strict` is the field of the parser.
pub validate_rule : Bool → ReviewRuleConfig → Option RuleError
validate_rule strict rule = do
  reject (str_eq rule.id "") id_required
  reject (is_empty rule.goals.areas && strict) area_required
  reject (ltb max_reference_docs (length rule.reference_docs)) too_many_docs
  elim rule.constraints [ none ↦ none | some c ↦ validate_constraints c ]
  elim rule.output [ none ↦ none | some o ↦ validate_output o ]
  elim rule.multi_run [ none ↦ none | some m ↦ validate_multi_run m ]

pub validate_rules_from : Bool → List String → ℕ → List ReviewRuleConfig → Option ConfigError
validate_rules_from strict ids i [] = none
validate_rules_from strict ids i (rule ∷ rules) =
    within (in_rule i rule.id) (validate_rule strict rule)
    >> reject (contains_string ids rule.id) (duplicate_rule_id rule.id)
    >> validate_rules_from strict (rule.id ∷ ids) (suc i) rules

pub validate : Bool → ReviewRulesConfig → Option ConfigError
validate strict config = do
  reject (is_empty config.rules) no_rules
  validate_rules_from strict [] 0 config.rules

-- For tests: all that `validate` calls.
unfoldable pub validation : Unit {0}
unfolding contains_string validate_severity check_similarity validate_constraints check_webhook
    check_channel check_channels check_field validate_fields_from validate_extra_fields check_tone
    validate_output validate_multi_run validate_rule validate_rules_from validate
validation = tt
