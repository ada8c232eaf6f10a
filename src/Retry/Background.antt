-- ===== src/Retry/Background.antt =====
-- The execution of a retried rule in the background, `executeRuleRetry` of
-- internal/engine/retry/handler.go with `ExecuteSingleRule` of internal/engine/runner/runner.go.
-- What the rule's execution comes to is an argument; its result, saved and published in the code,
-- is left out. The statements are taken to succeed, as in Runner.
use Prim.Native.String.{◌++◌}
use verustcode.Base.{
  ℕ, String, false, none, some, List, [], ◌∷◌, ◌≡◌, ◌⊎◌, inl, inr, refl, sym, subst, All,
  Bool-cases, Option-cases, ◌==◌, ◌||◌, str_eq, if◌then◌else◌,
}
use verustcode.Model.{ReviewRule, failed}
use verustcode.Dsl.Schema.{ReviewRuleConfig}
use verustcode.Store.{Database, first_where, update_where, delete_where, run_of, result_of}
use verustcode.Store.Rows.{update_where-All}
use verustcode.Runner.{Execution, row_failed, row_running, execute_rule, update_review_status}
use verustcode.Runner.Closing.{IsClosed, SameOr, execute_rule-ends, ended_rule-IsClosed}
use verustcode.Runner.Verdict.{update_review_status-rules}
use verustcode.Process.{Loader, bad, good, handler_load_dsl_config_with_priority, Loaded-cases}
use verustcode.Retry.{Started}

-- `ExecuteSingleRule`: the results and runs of an earlier execution go first.
unfoldable pub execute_single_rule : Execution → ReviewRuleConfig → ReviewRule → Database → Database
execute_single_rule env rule row db = execute_rule env rule row (
    if row_failed row || row_running row
    then record db {
      runs = delete_where (run_of (row.id ∷ [])) db.runs;
      results = delete_where (result_of (row.id ∷ [])) db.results;
    }
    else db)

-- `UpdateRuleStatusWithError` to failed.
unfoldable pub fail_rule : ℕ → String → Database → Database
fail_rule id msg db = record db {
  rules =
      update_where (λ (r : ReviewRule). r.id == id)
        (λ r. record r { status = failed; error_message = msg }) db.rules;
}

-- The rule's part of `executeRuleRetry`.
unfoldable pub retry_execution : Loader → Execution → String → Started → Database → Database
retry_execution l env rule_id s db =
    elim (handler_load_dsl_config_with_priority l s.review.repo_path s.review.repo_url) [
      | bad msg ↦ fail_rule s.rule.id ("failed to load DSL config: " ++ msg) db
      | good cfg ↦ elim (first_where (λ (r : ReviewRuleConfig). str_eq r.id rule_id) cfg.rules) [
        | none ↦ fail_rule s.rule.id "rule config not found in DSL config" db
        | some rule ↦ execute_single_rule env rule s.rule db
      ]
    ]

-- `executeRuleRetry`.
unfoldable pub execute_rule_retry : Loader → Execution → String → Started → Database → Database
execute_rule_retry l env rule_id s db =
    update_review_status env s.review.id (retry_execution l env rule_id s db)

-- A row is another one, or has ended.
abbrev pub OtherOrClosed : ℕ → ReviewRule → Type 0
OtherOrClosed id r = ((r.id == id) ≡ false) ⊎ IsClosed r

fail_rule-closes :
    (id : ℕ) (msg : String) (db : Database) → All (OtherOrClosed id) (fail_rule id msg db).rules
unfolding fail_rule
fail_rule-closes id msg db =
    update_where-All (λ (r : ReviewRule). r.id == id) (OtherOrClosed id)
      (λ r. record r { status = failed; error_message = msg }) db.rules (λ r this. inr refl)
      (λ r other. inl other)

any_row : (id : ℕ) (rs : List ReviewRule) → All (SameOr (OtherOrClosed id) id) rs
any_row id [] = tt
any_row id (r ∷ rs) = elim (Bool-cases (r.id == id)) [
  | inl same ↦ (inl same, any_row id rs)
  | inr other ↦ (inr (inl other), any_row id rs)
]

execute_single_rule-closes :
    (env : Execution) (rule : ReviewRuleConfig) (row : ReviewRule) (db : Database)
    → All (OtherOrClosed row.id) (execute_single_rule env rule row db).rules
unfolding execute_single_rule
execute_single_rule-closes env rule row db =
    execute_rule-ends (OtherOrClosed row.id) row.id env rule row _ refl
      (inr (ended_rule-IsClosed env rule row)) (any_row row.id _)

-- A retried rule comes to an end in the background, whether its configuration cannot be loaded, has
-- lost the rule, or the rule runs: its row says afterwards that it has completed or failed.
pub execute_rule_retry-closes :
    (l : Loader) (env : Execution) (rule_id : String) (s : Started) (db : Database)
    → All (OtherOrClosed s.rule.id) (execute_rule_retry l env rule_id s db).rules
unfolding execute_rule_retry retry_execution
execute_rule_retry-closes l env rule_id s db =
    subst (λ (rs : List ReviewRule). All (OtherOrClosed s.rule.id) rs)
      (sym (update_review_status-rules env s.review.id (retry_execution l env rule_id s db)))
      (elim (Loaded-cases
        (handler_load_dsl_config_with_priority l s.review.repo_path s.review.repo_url)) [
          | inl (msg, lost) ↦ rw (lost, retry_execution) (fail_rule-closes s.rule.id _ db)
          | inr (cfg, loaded) ↦
              elim (Option-cases
                (first_where (λ (r : ReviewRuleConfig). str_eq r.id rule_id) cfg.rules)) [
                  | inl missing ↦
                      rw (loaded, missing, retry_execution) (fail_rule-closes s.rule.id _ db)
                  | inr (rule, found) ↦
                      rw (loaded, found, retry_execution)
                        (execute_single_rule-closes env rule s.rule db)
                ]
        ])
