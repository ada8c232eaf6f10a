-- ===== src/Retry/Tests.antt =====
-- Retries on a table with a failed review of two rules and a running review.
use verustcode.Base.{
  ℕ, String, true, false, Option, none, some, [], ◌∷◌, ◌≡◌, refl, arith, All, lookup,
}
use verustcode.Base.Int.{pos}
use verustcode.Model.{Review, ReviewRule, running, completed, failed}
use verustcode.Errors.{AppError, new, validation}
use verustcode.Queue.{RepoQueue, new_repo_task_queue}
use verustcode.Queue.Finish.{has_task, find_current}
use verustcode.Queue.Progress.{IsVisited}
use verustcode.Schedule.{start, Reach, here}
use verustcode.Samples.{sample_review}
use verustcode.Recovery.{Surroundings, build_recovery_task}
use verustcode.Recovery.Indexed.{Indexed}
use verustcode.Store.{
  Database, get_by_id, get_rule_by_id, first_where, update_where, reset_review_state,
  reset_rule_state,
}
use verustcode.Retry.{
  Handler, Engine, Started, retry, retry_reset, retry_task, only_failed, next_count, retry_rule,
  retry_rule_reset,
}
use verustcode.Retry.Queued.{IsReset, retry_queues}
use verustcode.Retry.Reachable.{retry-Reach}
use verustcode.Dsl.Schema.{default_review_rule_config}
use verustcode.Process.{Loader, bad, good}
use verustcode.Runner.{Execution, success}
use verustcode.Retry.Background.{OtherOrClosed, execute_rule_retry, execute_rule_retry-closes}
use verustcode.Retry.Rule.{Restarts, retry_rule_starts}

abbrev machine : Surroundings
machine = record {
  config = record { max_retry_count = pos 3; task_timeout_hours = pos 24 };
  detect_from_url = λ url. "github";
  parse_repo_path = λ name. some (λ url. some ("octo", url));
  describe = λ reason. "no";
  now = λ id. 0;
  request_id = λ id. "req";
  writes = λ id. true;
}

abbrev handler : Handler
handler = record { surroundings = machine; now = 9; fails = λ statement. false; fault = "locked" }

abbrev broken : Review
broken = record (sample_review "r1" "a") {
  status = failed;
  retry_count = pos 1;
  error_message = "boom";
}

abbrev busy : Review
busy = record (sample_review "r2" "b") { status = running }

abbrev rule_row : ℕ → String → ReviewRule
rule_row id name = record {
  id = id;
  review_id = "r1";
  rule_index = pos 0;
  rule_id = name;
  status = failed;
  started_at = none;
  completed_at = some 5;
  error_message = "boom";
  retry_count = pos 0;
}

abbrev tables : Database
tables = record {
  reviews = broken ∷ busy ∷ [];
  rules = rule_row 1 "style" ∷ record (rule_row 2 "bugs") { status = completed } ∷ [];
  next_rule_id = 3;
  runs = [];
  results = [];
}

abbrev engine : Engine
engine = record { queue = new_repo_task_queue; database = tables }

abbrev retried : Engine
retried = (retry handler [] "r1" engine).0

retries : retry handler [] "r1" engine ≡ (retried, none)
unfolding retry retry_reset retry_task has_task find_current get_by_id first_where
    reset_review_state build_recovery_task update_where lookup new_repo_task_queue
retries = refl

retry_queues_example :
    (review : Review) × (get_by_id "r1" engine.database.reviews ≡ some review)
    × (review.status ≡ failed)
    × (has_task engine.queue "r1" [] ≡ false)
    × Indexed retried.queue "r1"
    × IsReset "r1" (next_count review.retry_count) engine.database retried.database
retry_queues_example = retry_queues handler [] "r1" engine retried retries

refuses : retry handler [] "r2" engine ≡ (engine, some (only_failed running))
unfolding retry get_by_id first_where
refuses = refl

none_yet :
    (repo : String) (rq : RepoQueue)
    → lookup repo new_repo_task_queue.queues ≡ some rq
    → IsVisited repo []
unfolding lookup new_repo_task_queue
none_yet repo rq h = cc

retry-Reach_example : Reach start (record start {
  queue = (retry handler [] "r1" (record { queue = start.queue; database = tables })).0.queue;
})
retry-Reach_example = retry-Reach handler [] "r1" start tables none_yet here

abbrev restarted : Database × Option AppError × Option Started
restarted = retry_rule handler "r1" "style" tables

rule_restarts : restarted ≡ (restarted.0, none, restarted.2)
unfolding retry_rule retry_rule_reset get_by_id get_rule_by_id first_where reset_rule_state
    update_where
rule_restarts = refl

retry_rule_starts_example :
    (s : Started) × (restarted.2 ≡ some s)
    × (target : ReviewRule) × Restarts handler "r1" "style" tables restarted.0 s target
retry_rule_starts_example =
    retry_rule_starts handler "r1" "style" tables restarted.0 restarted.2
      (((λ e. omega (arith, e)), tt), (tt, tt)) rule_restarts

abbrev finished : AppError
finished =
    new validation "cannot retry rule with status 'completed', only failed rules can be retried"

rule_refused : retry_rule handler "r1" "bugs" tables ≡ (tables, some finished, none)
unfolding retry_rule get_by_id first_where
rule_refused = refl

abbrev no_run : Option Started
no_run = none

abbrev loader : Loader
loader = record {
  from_repo_root = λ path. bad "unreadable";
  review_file = λ url. none;
  load = λ file. bad "missing";
  default_config = good (record {
    version = "1.0";
    rule_base = none;
    rules = record default_review_rule_config { id = "style" } ∷ [];
  });
}

abbrev execution : Execution
execution = record { outcome = λ id. success; begun = λ id. 1; done = λ id. 2; closed_at = 3 }

abbrev launched : Started
launched = record { review = broken; rule = rule_row 1 "style" }

execute_rule_retry-closes_example :
    All (OtherOrClosed 1) (execute_rule_retry loader execution "style" launched restarted.0).rules
execute_rule_retry-closes_example =
    execute_rule_retry-closes loader execution "style" launched restarted.0
