-- ===== src/Process/Config.antt =====
-- The two copies of the choice of a review configuration: `loadDSLConfigWithPriority` of
-- internal/engine/engine.go and of internal/engine/retry/handler.go.
use verustcode.Base.{
  String, none, some, ◌≡◌, inl, inr, refl, ap, Bool-cases, Option-cases, str_eq, not, if◌then◌else◌,
}
use verustcode.Dsl.Schema.{ReviewRulesConfig}
use verustcode.Process.{
  Loader, Loaded, bad, good, load_dsl_config_for_repo, load_dsl_config_with_priority,
  handler_configured, handler_load_dsl_config_with_priority,
}

configured-agrees :
    (l : Loader) (repo_url : String)
    → handler_configured l repo_url ≡ load_dsl_config_for_repo l repo_url
unfolding handler_configured load_dsl_config_for_repo
configured-agrees l repo_url = elim (Option-cases (l.review_file repo_url)) [
  | inl missing ↦ rw (missing, handler_configured, load_dsl_config_for_repo) refl
  | inr (file, named) ↦ elim (Bool-cases (str_eq file "")) [
    | inl empty ↦ rw (named, empty, handler_configured, load_dsl_config_for_repo) refl
    | inr filled ↦ rw (named, filled, handler_configured, load_dsl_config_for_repo) refl
  ]
]

-- The retry handler chooses the configuration that the engine chooses, whichever of the files there
-- are and can be read.
pub load_dsl_config-agrees :
    (l : Loader) (path repo_url : String)
    → handler_load_dsl_config_with_priority l path repo_url
      ≡ load_dsl_config_with_priority l path repo_url
unfolding handler_load_dsl_config_with_priority load_dsl_config_with_priority
load_dsl_config-agrees l path repo_url =
    ap
      (λ (configured : Loaded ReviewRulesConfig).
        if not (str_eq path "")
        then elim (l.from_repo_root path) [
          | bad msg ↦ configured
          | good root ↦ elim root [ none ↦ configured | some cfg ↦ good cfg ]
        ]
        else configured)
      (configured-agrees l repo_url)
