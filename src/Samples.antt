-- ===== src/Samples.antt =====
-- A review and its task, for the tests: the structures of internal/model/model.go.
use verustcode.Base.{String, none, []}
use verustcode.Base.Int.{pos}
use verustcode.Model.{Review, Task, pending}

abbrev pub sample_review : String → String → Review
sample_review id repo = record {
  id = id;
  ref = "main";
  commit_sha = "c0ffee";
  pr_number = pos 7;
  pr_url = "";
  repo_url = repo;
  repo_path = "";
  source = "webhook";
  status = pending;
  current_rule_index = pos 0;
  retry_count = pos 0;
  started_at = none;
  completed_at = none;
  merged_at = none;
  revision_count = pos 1;
  error_message = "";
}

abbrev pub sample_task : String → String → Task
sample_task id repo = record {
  review = sample_review id repo;
  request = record {
    repo_path = "";
    repo_url = repo;
    owner = "o";
    repo_name = "r";
    ref = "main";
    commit_sha = "c0ffee";
    pr_number = pos 7;
    pr_title = "";
    pr_body = "";
    changed_files = [];
    request_id = "req";
    rule_id = "";
    review_id = "";
    model = "";
  };
  provider_name = "github";
  agent_name = "";
  created_at = 0;
  base_commit_sha = "";
  review_rules_config = none;
  output_dir = "";
}
