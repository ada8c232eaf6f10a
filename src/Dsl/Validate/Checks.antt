-- ===== src/Dsl/Validate/Checks.antt =====
-- Each check of internal/dsl/parser.go passes exactly on what the specification allows.
use verustcode.Base.{
  ℕ, suc, String, true, false, Option, none, some, List, [], ◌∷◌, ◌≡◌, ◌≢◌, ◌↔◌, ◌⊎◌, refl, ap,
  arith, eq_iff, All,
}
use verustcode.Dsl.Schema.{
  SeverityConfig, DuplicatesConfig, OutputStyleConfig, ExtraFieldConfig, OutputItemConfig,
  severity_levels,
}
use verustcode.Dsl.Merge.{contains_string}
use verustcode.Dsl.Validate.{
  within, ◌>>◌, validate_severity, check_similarity, check_webhook, check_channel, check_channels,
  check_field, check_tone, validate_fields_from, valid_types, valid_formats, valid_tones,
  reserved_finding_fields, valid_extra_field_types,
}
use verustcode.Dsl.Validate.Spec.{
  Elem, IsValidWebhook, IsValidChannel, IsValidField, AreValidFields, IsSimilarity,
}

pub contains_iff : (xs : List String) (s : String) → (contains_string xs s ≡ true) ↔ Elem s xs
unfolding contains_string
contains_iff [] s = ground arith
contains_iff (x ∷ xs) s = ground (arith, eq_iff x s, contains_iff xs s)

pub seq_iff : {E : Type 0} (a b : Option E) → ((a >> b) ≡ none) ↔ ((a ≡ none) × (b ≡ none))
seq_iff none b = (λ h. (refl, h), λ h. h.1)
seq_iff (some e) b = (λ h. cc, λ h. h.0)

pub within_iff : {E F : Type 0} (f : E → F) (a : Option E) → (within f a ≡ none) ↔ (a ≡ none)
within_iff f none = (λ h. refl, λ h. refl)
within_iff f (some e) = (λ h. cc, λ h. cc)

pub check_webhook_iff :
    (item : OutputItemConfig) → (check_webhook item ≡ none) ↔ IsValidWebhook item
unfolding check_webhook
check_webhook_iff item = ground (arith, eq_iff item.url "")

-- A valid type is not empty, so the check for a missing type adds nothing but its message.
Elem-ne_empty : (t : String) (xs : List String) → contains_string xs "" ≡ false → Elem t xs → t ≢ ""
Elem-ne_empty t xs h e =
    λ p. ground (arith, (contains_iff xs t).1 e, ap (λ s. contains_string xs s) p)

pub check_channel_iff :
    (item : OutputItemConfig) → (check_channel item ≡ none) ↔ IsValidChannel item
unfolding check_channel
check_channel_iff item = ground (
  arith,
  eq_iff item.type "",
  eq_iff item.format "",
  eq_iff item.type "webhook",
  contains_iff valid_types item.type,
  Elem-ne_empty item.type valid_types (unfold contains_string in refl),
  contains_iff valid_formats item.format,
  check_webhook_iff item,
)

pub check_channels_iff :
    (i : ℕ) (items : List OutputItemConfig)
    → (check_channels i items ≡ none) ↔ All IsValidChannel items
unfolding check_channels
check_channels_iff i [] = (λ h. tt, λ h. refl)
check_channels_iff i (item ∷ items) =
    ground (arith, check_channel_iff item, check_channels_iff (suc i) items)

pub check_field_iff :
    (seen : List String) (f : ExtraFieldConfig) → (check_field seen f ≡ none) ↔ IsValidField seen f
unfolding check_field
check_field_iff seen f = ground (
  arith,
  eq_iff f.name "",
  eq_iff f.type "",
  eq_iff f.description "",
  eq_iff f.type "string",
  contains_iff seen f.name,
  contains_iff reserved_finding_fields f.name,
  contains_iff valid_extra_field_types f.type,
  Elem-ne_empty f.type valid_extra_field_types (unfold contains_string in refl),
)

pub fields_iff :
    (seen : List String) (i : ℕ) (fields : List ExtraFieldConfig)
    → (validate_fields_from seen i fields ≡ none) ↔ AreValidFields seen fields
unfolding validate_fields_from
fields_iff seen i [] = (λ h. tt, λ h. refl)
fields_iff seen i (f ∷ fields) =
    ground (arith, check_field_iff seen f, fields_iff (f.name ∷ seen) (suc i) fields)

pub check_tone_iff :
    (s : OutputStyleConfig) → (check_tone s ≡ none) ↔ ((s.tone ≡ "") ⊎ Elem s.tone valid_tones)
unfolding check_tone
check_tone_iff s = ground (arith, eq_iff s.tone "", contains_iff valid_tones s.tone)

pub severity_iff :
    (s : SeverityConfig)
    → (validate_severity s ≡ none) ↔ ((s.min_report ≡ "") ⊎ Elem s.min_report severity_levels)
unfolding validate_severity
severity_iff s = ground (arith, eq_iff s.min_report "", contains_iff severity_levels s.min_report)

pub similarity_iff :
    (d : DuplicatesConfig) → (check_similarity d ≡ none) ↔ IsSimilarity d.similarity
unfolding check_similarity
similarity_iff d = ground arith
