-- ===== src/Dsl/Parse.antt =====
-- `Parse` of internal/dsl/parser.go: decode, inherit, validate. The YAML decoder is a library
-- function of the bytes and stands as a parameter.
pub mod Laws
mod Tests
use verustcode.Base.{String, Bool, Option, none, some}
use verustcode.Dsl.Schema.{ReviewRulesConfig}
use verustcode.Dsl.Inherit.{apply_rule_base}
use verustcode.Dsl.Validate.{ConfigError, validate}

pub data ParseResult : Type 0 where
  invalid_yaml : ParseResult
  invalid : ConfigError → ParseResult
  parsed : ReviewRulesConfig → ParseResult

check_parsed : Option ConfigError → ReviewRulesConfig → ParseResult
check_parsed none config = parsed config
check_parsed (some e) config = invalid e

decoded : Bool → Option ReviewRulesConfig → ParseResult
decoded strict none = invalid_yaml
decoded strict (some config) =
    let config' = apply_rule_base config in check_parsed (validate strict config') config'

pub parse : (String → Option ReviewRulesConfig) → Bool → String → ParseResult
parse unmarshal strict text = decoded strict (unmarshal text)
