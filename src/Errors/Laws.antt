-- ===== src/Errors/Laws.antt =====
-- The codes of pkg/errors/errors.go as the API's callers meet them.
use verustcode.Base.{
  String, Option, none, some, ◌≡◌, refl, sym, ap, ◌∙◌, str_eq, if◌then◌else◌, List, [], ◌∷◌,
}
use verustcode.Errors.{
  ErrorCode, code_text, internal, validation, not_found, conflict, forbidden, unauthorized,
  git_clone, git_auth, git_not_found, git_webhook, agent_not_found, agent_unavailable,
  agent_timeout, agent_execution, review_not_found, review_failed, review_pending, db_connection,
  db_query, db_migration, config_not_found, config_invalid, config_parse, admin_credentials_empty,
  password_complexity, jwt_secret_invalid,
}

-- All codes.
abbrev pub codes : List ErrorCode
codes =
    internal ∷ validation ∷ not_found ∷ conflict ∷ forbidden ∷ unauthorized ∷ git_clone ∷ git_auth
    ∷ git_not_found ∷ git_webhook ∷ agent_not_found ∷ agent_unavailable ∷ agent_timeout
    ∷ agent_execution ∷ review_not_found ∷ review_failed ∷ review_pending ∷ db_connection ∷ db_query
    ∷ db_migration ∷ config_not_found ∷ config_invalid ∷ config_parse ∷ admin_credentials_empty
    ∷ password_complexity ∷ jwt_secret_invalid ∷ []

-- The first of them with that text.
abbrev pub code_from : String → List ErrorCode → Option ErrorCode
code_from s [] = none
code_from s (c ∷ cs) = if str_eq (code_text c) s then some c else code_from s cs

code_from-code_text : (c : ErrorCode) → code_from (code_text c) codes ≡ some c
unfolding code_text
code_from-code_text internal = refl
code_from-code_text validation = refl
code_from-code_text not_found = refl
code_from-code_text conflict = refl
code_from-code_text forbidden = refl
code_from-code_text unauthorized = refl
code_from-code_text git_clone = refl
code_from-code_text git_auth = refl
code_from-code_text git_not_found = refl
code_from-code_text git_webhook = refl
code_from-code_text agent_not_found = refl
code_from-code_text agent_unavailable = refl
code_from-code_text agent_timeout = refl
code_from-code_text agent_execution = refl
code_from-code_text review_not_found = refl
code_from-code_text review_failed = refl
code_from-code_text review_pending = refl
code_from-code_text db_connection = refl
code_from-code_text db_query = refl
code_from-code_text db_migration = refl
code_from-code_text config_not_found = refl
code_from-code_text config_invalid = refl
code_from-code_text config_parse = refl
code_from-code_text admin_credentials_empty = refl
code_from-code_text password_complexity = refl
code_from-code_text jwt_secret_invalid = refl

some_injective : {a b : ErrorCode} → ◌≡◌ {A = Option ErrorCode} (some a) (some b) → a ≡ b
some_injective h = cc

-- No two codes have the same text.
pub code_text-injective : (c d : ErrorCode) → code_text c ≡ code_text d → c ≡ d
code_text-injective c d h =
    some_injective (
      sym (code_from-code_text c)
      ∙ ap (λ (s : String). code_from s codes) h
      ∙ code_from-code_text d)
