-- ===== src/Submit/Tests.antt =====
-- The submission of a review of one rule, and its processing.
use verustcode.Base.{true, false, none, some, [], ◌∷◌, ◌≡◌, refl, str_eq, if◌then◌else◌, is_empty}
use verustcode.Base.Int.{pos}
use verustcode.Model.{Review, Task}
use verustcode.Dsl.Schema.{ReviewRulesConfig, default_review_rule_config}
use verustcode.Samples.{sample_review}
use verustcode.Errors.{new, git_not_found}
use verustcode.Queue.{new_repo_task_queue}
use verustcode.Recovery.{Surroundings}
use verustcode.Runner.{success}
use verustcode.Process.{Loader, Machine, bad, good}
use verustcode.Process.Ended.{Ended}
use verustcode.Retry.{Engine}
use verustcode.Submit.{
  Intake, SubmitError, app, not_submitted, submit, submit_task, submitted_pr_url,
}

abbrev surroundings : Surroundings
surroundings = record {
  config = record { max_retry_count = pos 3; task_timeout_hours = pos 24 };
  detect_from_url = λ url. if str_eq url "x" then "" else "github";
  parse_repo_path = λ name. some (λ url. some ("octo", url));
  describe = λ reason. "no";
  now = λ id. 0;
  request_id = λ id. "req";
  writes = λ id. true;
}

abbrev rules_file : ReviewRulesConfig
rules_file = record {
  version = "1.0";
  rule_base = none;
  rules = record default_review_rule_config { id = "style" } ∷ [];
}

abbrev loader : Loader
loader = record {
  from_repo_root = λ path. good none;
  review_file = λ url. none;
  load = λ file. bad "missing";
  default_config = good rules_file;
}

abbrev intake : Intake
intake = record {
  surroundings = surroundings;
  loader = loader;
  text = λ s. if is_empty s then "" else "https://github.com/o/r/pull/7";
  update_fails = false;
  create_fails = λ rule. false;
  fault = "locked";
}

abbrev incoming : Review
incoming = sample_review "r1" "a"

abbrev engine : Engine
engine = record {
  queue = new_repo_task_queue;
  database = record {
    reviews = incoming ∷ [];
    rules = [];
    next_rule_id = 1;
    runs = [];
    results = [];
  };
}

abbrev taken_in : Engine
taken_in = (submit intake none "" incoming engine).0

abbrev todo : Task
todo =
    submit_task intake "github" ("octo", "a") rules_file none ""
      (record incoming { pr_url = submitted_pr_url intake "github" incoming })

abbrev unknown : SubmitError
unknown = app (new git_not_found "could not detect provider from repository URL")

refuses : submit intake none "" (sample_review "r1" "x") engine ≡ (engine, not_submitted unknown)
unfolding submit
refuses = refl

abbrev machine : Machine
machine = record {
  fails = λ statement. false;
  started_at = 1;
  running_at = 2;
  completed_at = 3;
  ensure_pr_repository = λ t. good "/work/pr";
  make_dir = λ t. none;
  clone = λ t. good "/work/repo";
  loader = loader;
  get_pull_request = λ t. none;
  run = λ req. record { outcome = λ id. success; begun = λ id. 1; done = λ id. 2; closed_at = 3 };
  on_error = true;
}
