-- ===== src/Model.antt =====
-- The database models of internal/model/model.go and the task of internal/engine/task/types.go. A
-- time is a number of nanoseconds, `*time.Time` an `Option`; gorm's bookkeeping columns, the rule's
-- snapshot and statistics that no modelled code reads are left out.
use verustcode.Base.{ℕ, String, Option, List}
use verustcode.Base.Int.{ℤ}
use verustcode.Dsl.Schema.{ReviewRulesConfig}

pub data ReviewStatus : Type 0 where
  pending running completed failed cancelled : ReviewStatus

pub data RuleStatus : Type 0 where
  pending running completed failed skipped : RuleStatus

pub record ReviewRule : Type 0 where
  pub id : ℕ
  pub review_id : String
  pub rule_index : ℤ
  pub rule_id : String
  pub status : RuleStatus
  pub started_at : Option ℕ
  pub completed_at : Option ℕ
  pub error_message : String
  pub retry_count : ℤ

pub data RunStatus : Type 0 where
  pending running completed failed : RunStatus

-- One run of a rule that is run several times.
pub record ReviewRuleRun : Type 0 where
  pub id : ℕ
  pub review_rule_id : ℕ
  pub run_index : ℕ
  pub model : String
  pub agent : String
  pub status : RunStatus
  pub started_at : Option ℕ
  pub completed_at : Option ℕ
  pub error_message : String

-- The answer of the agent, the text of a JSON object.
pub record ReviewResult : Type 0 where
  pub id : ℕ
  pub review_rule_id : ℕ
  pub json : String

pub record Review : Type 0 where
  pub id : String
  pub ref : String
  pub commit_sha : String
  pub pr_number : ℤ
  pub pr_url : String
  pub repo_url : String
  pub repo_path : String
  pub source : String
  pub status : ReviewStatus
  pub current_rule_index : ℤ
  pub retry_count : ℤ
  pub started_at : Option ℕ
  pub completed_at : Option ℕ
  pub merged_at : Option ℕ
  pub revision_count : ℤ
  pub error_message : String

pub record ReviewRequest : Type 0 where
  pub repo_path : String
  pub repo_url : String
  pub owner : String
  pub repo_name : String
  pub ref : String
  pub commit_sha : String
  pub pr_number : ℤ
  pub pr_title : String
  pub pr_body : String
  pub changed_files : List String
  pub request_id : String
  pub rule_id : String
  pub review_id : String
  pub model : String

-- A task whose `Review` is set; `Submission` of Queue.antt has the other pointers.
pub record Task : Type 0 where
  pub review : Review
  pub request : ReviewRequest
  pub provider_name : String
  pub agent_name : String
  pub created_at : ℕ
  pub base_commit_sha : String
  pub review_rules_config : Option ReviewRulesConfig
  pub output_dir : String
