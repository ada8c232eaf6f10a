-- ===== src/Submit/Run.antt =====
-- A review from `Submit` to the end of `processTask`, internal/engine/engine.go.
use verustcode.Base.{String, true, false, some, List, [], ◌≡◌, is_empty}
use verustcode.Model.{Review, ReviewRule}
use verustcode.Dsl.Schema.{ReviewRulesConfig}
use verustcode.Store.{Database, get_by_id, get_rules_by_review_id, is_open}
use verustcode.Process.{Machine, Statement, good, load_dsl_config_with_priority}
use verustcode.Process.Ended.{Ended}
use verustcode.Submit.{Intake, submit_columns, submitted_source, built_url}
use verustcode.Submit.Queued.{submitted_database}
use verustcode.Submit.Rows.{DistinctIds}

module _ (env : Intake) (review row : Review) (cfg : ReviewRulesConfig) (db : Database)
    (created : (rule : String) → env.create_fails rule ≡ false)
    (there : get_by_id review.id db.reviews ≡ some row)
    (fresh : get_rules_by_review_id review.id db.rules ≡ []) where
  abbrev columns : Review → Review
  columns =
      submit_columns (submitted_source review)
        (built_url env (env.surroundings.detect_from_url review.repo_url) review)

  abbrev left : Database
  left = submitted_database env cfg review db

  module _ (m : Machine) (set : m.on_error ≡ true) (writes : (s : Statement) → m.fails s ≡ false)
      (live : is_open row.status ≡ true) (some_rules : is_empty cfg.rules ≡ false)
      (distinct : DistinctIds cfg.rules)
      (same_rules : (path : String) (cfg' : ReviewRulesConfig)
        → load_dsl_config_with_priority m.loader path row.repo_url ≡ good cfg'
        → cfg'.rules ≡ cfg.rules) where
    abbrev rows_of : String → List ReviewRule
    rows_of id = get_rules_by_review_id id left.rules
