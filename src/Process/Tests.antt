-- ===== src/Process/Tests.antt =====
-- Tasks of a review of one rule.
use verustcode.Base.{
  String, true, false, none, some, List, [], ◌∷◌, ◌≡◌, refl, inl, inr, All, subst, sym, ◌∙◌, lookup,
  insert, Bool-cases, str_eq, is_empty,
}
use verustcode.Base.Int.{pos}
use verustcode.Model.{Review, ReviewRule, ReviewStatus, Task, pending, completed, failed}
use verustcode.Dsl.Schema.{ReviewRulesConfig, default_review_rule_config}
use verustcode.Samples.{sample_review, sample_task}
use verustcode.Store.{
  Database, get_by_id, first_where, get_rules_by_review_id, update_where, close_review, update_rule,
  update_status_to_running_if_pending,
}
use verustcode.Runner.{
  Execution, success, after_execution, execute_rule, resume_rule, run_rule, run_rules,
  existing_rules, decided_status, run_review_with_tracking, update_review_status,
}
use verustcode.Runner.Closing.{IsListed}
use verustcode.Runner.Verdict.{DistinctRules}
use verustcode.Process.{
  Loader, Machine, Loaded, bad, good, load_dsl_config_for_repo, load_dsl_config_with_priority,
  handle_error, write_review, prepare, end_run, process_repository, process_started, process_task,
}
use verustcode.Process.Ended.{Ended, process_task-Ended}

abbrev config : ReviewRulesConfig
config = record {
  version = "1.0";
  rule_base = none;
  rules = record default_review_rule_config { id = "style" } ∷ [];
}

abbrev loader : Loader
loader = record {
  from_repo_root = λ path. bad "unreadable";
  review_file = λ url. some "team.yaml";
  load = λ file. bad "missing";
  default_config = good config;
}

abbrev execution : Execution
execution = record { outcome = λ id. success; begun = λ id. 1; done = λ id. 2; closed_at = 3 }

abbrev machine : Machine
machine = record {
  fails = λ statement. false;
  started_at = 1;
  running_at = 2;
  completed_at = 3;
  ensure_pr_repository = λ t. good "/work/pr";
  make_dir = λ t. none;
  clone = λ t. good "/work/repo";
  loader = loader;
  get_pull_request = λ t. none;
  run = λ req. execution;
  on_error = true;
}

abbrev broken : Machine
broken = record machine { ensure_pr_repository = λ t. bad "no route" }

abbrev row : ReviewRule
row = record {
  id = 1;
  review_id = "r1";
  rule_index = pos 0;
  rule_id = "style";
  status = pending;
  started_at = none;
  completed_at = none;
  error_message = "";
  retry_count = pos 0;
}

abbrev tables : Database
tables = record {
  reviews = sample_review "r1" "a" ∷ sample_review "r2" "a" ∷ [];
  rules = row ∷ [];
  next_rule_id = 2;
  runs = [];
  results = [];
}

abbrev todo : Task
todo = sample_task "r1" "a"

abbrev statuses : List Review → List ReviewStatus
statuses [] = []
statuses (r ∷ rs) = r.status ∷ statuses rs

completes : statuses (process_task machine todo tables).0.reviews ≡ completed ∷ pending ∷ []
unfolding process_task process_started process_repository prepare write_review end_run
    load_dsl_config_with_priority load_dsl_config_for_repo get_by_id first_where update_where
    update_status_to_running_if_pending run_review_with_tracking run_rules run_rule resume_rule
    execute_rule after_execution update_rule get_rules_by_review_id existing_rules decided_status
    update_review_status close_review lookup insert
completes = refl

clone_fails : statuses (process_task broken todo tables).0.reviews ≡ failed ∷ pending ∷ []
unfolding process_task process_started prepare get_by_id first_where update_where
    update_status_to_running_if_pending handle_error close_review
clone_fails = refl

found : get_by_id "r1" tables.reviews ≡ some (sample_review "r1" "a")
unfolding get_by_id first_where
found = refl

distinct : DistinctRules (get_rules_by_review_id "r1" tables.rules)
unfolding get_rules_by_review_id
distinct = (tt, tt)

loads_default : (path : String) → load_dsl_config_with_priority loader path "a" ≡ good config
unfolding load_dsl_config_with_priority load_dsl_config_for_repo
loads_default path = elim (Bool-cases (str_eq path "")) [
  | inl empty ↦ rw empty refl
  | inr named ↦ rw named refl
]

listed :
    (path : String) (cfg : ReviewRulesConfig)
    → load_dsl_config_with_priority loader path "a" ≡ good cfg
    → (is_empty cfg.rules ≡ false)
      × All (λ r. IsListed r.rule_id cfg.rules) (get_rules_by_review_id "r1" tables.rules)
unfolding get_rules_by_review_id
listed path cfg loaded =
    subst
      (λ (c : Loaded ReviewRulesConfig). elim c [
        | bad msg ↦ Unit
        | good k ↦ (is_empty k.rules ≡ false) × (IsListed "style" k.rules × Unit)
      ])
      (sym (loads_default path) ∙ loaded) (refl, (inl refl, tt))

process_task-Ended_example : Ended "r1" (process_task machine todo tables).0
process_task-Ended_example =
    process_task-Ended machine refl (λ s. refl) todo (sample_review "r1" "a") tables found refl
      distinct listed
