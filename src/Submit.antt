-- ===== src/Submit.antt =====
-- The submission of a review, `Submit` of internal/engine/engine.go: the configuration known before
-- the clone gives the review its rows, and the task goes into the queue. The providers, the
-- configuration files, the clock and the identifiers are arguments. The snapshot of a rule's
-- configuration and the columns of several runs are left out.
pub mod Queued
pub mod Rows
mod Run
mod Tests
use Prim.Native.String.{◌++◌}
use verustcode.Base.{
  ℕ, suc, ◌+◌, String, Bool, true, false, Option, none, some, List, [], ◌∷◌, str_eq, not,
  if◌then◌else◌, ◌&&◌,
}
use verustcode.Base.Int.{ℤ, pos, ltb_ℤ}
use verustcode.Model.{Review, ReviewRule, ReviewRequest, Task, pending}
use verustcode.Dsl.Schema.{ReviewRulesConfig, ReviewRuleConfig}
use verustcode.Errors.{AppError, new, wrap, git_not_found, validation, db_query}
use verustcode.Llm.{bytes}
use verustcode.PrUrl.Text.{Bytes}
use verustcode.PrUrl.Build.{build_pr_url}
use verustcode.Queue.{task, enqueue}
use verustcode.Store.{Database, is_review, update_where, create_rule}
use verustcode.Recovery.{Surroundings}
use verustcode.Process.{Loader, bad, good, load_dsl_config_for_repo}
use verustcode.Retry.{Engine}

-- `PRInfo` of a webhook's payload.
pub record PrDetails : Type 0 where
  pub title : String
  pub description : String
  pub base_sha : String
  pub changed_files : Option (List String)

-- What the submission meets: which statements fail, with the error's text, and `text`, the string of
-- those bytes.
pub record Intake : Type 0 where
  pub surroundings : Surroundings
  pub loader : Loader
  pub text : Bytes → String
  pub update_fails : Bool
  pub create_fails : String → Bool
  pub fault : String

-- An error of the configuration is handed on as it is.
pub data SubmitError : Type 0 where
  app : AppError → SubmitError
  config : String → SubmitError

pub data Submitted : Type 0 where
  not_submitted : SubmitError → Submitted
  submitted : Task → Submitted

abbrev pub submitted_source : Review → String
submitted_source review = if str_eq review.source "" then "webhook" else review.source

-- The review's URL: that of its pull request, if it has none yet. The repository's URL is ASCII.
unfoldable pub submitted_pr_url : Intake → String → Review → String
submitted_pr_url env provider_name review =
    let url =
      env.text (build_pr_url (bytes review.repo_url) (bytes provider_name) review.pr_number) in
    if ltb_ℤ (pos 0) review.pr_number && str_eq review.pr_url "" then url else review.pr_url

-- The columns that the metadata update writes: the URL only if one was built.
unfoldable pub submit_columns : String → String → Review → Review
submit_columns source built r =
    if str_eq built ""
    then record r { source = source }
    else record r { source = source; pr_url = built }

abbrev pub built_url : Intake → String → Review → String
built_url env provider_name review =
    if str_eq review.pr_url "" then submitted_pr_url env provider_name review else ""

abbrev pub pending_rule : String → ℕ → String → ℕ → ReviewRule
pending_rule review_id index rule_id id = record {
  id = id;
  review_id = review_id;
  rule_index = pos index;
  rule_id = rule_id;
  status = pending;
  started_at = none;
  completed_at = none;
  error_message = "";
  retry_count = pos 0;
}

-- The loop that creates the rows, from that index on; a row that cannot be created is passed over.
unfoldable pub create_rules :
    (String → Bool) → String → ℕ → List ReviewRuleConfig → Database → Database
create_rules fails id index [] db = db
create_rules fails id index (rule ∷ rules) db =
    create_rules fails id (suc index) rules
      (if fails rule.id then db else create_rule (pending_rule id index rule.id db.next_rule_id) db)

unfoldable pub submit_request : Intake → Review → String × String → Option PrDetails → ReviewRequest
submit_request env review (owner, repo_name) details =
    let req : ReviewRequest = record {
      repo_path = "";
      repo_url = review.repo_url;
      owner = owner;
      repo_name = repo_name;
      ref = review.ref;
      commit_sha = review.commit_sha;
      pr_number = review.pr_number;
      pr_title = "";
      pr_body = "";
      changed_files = [];
      request_id = env.surroundings.request_id review.id;
      rule_id = "";
      review_id = "";
      model = "";
    } in
    elim details [
      | none ↦ req
      | some pr ↦ elim pr.changed_files [
        | none ↦ record req { pr_title = pr.title; pr_body = pr.description }
        | some files ↦ record req {
          pr_title = pr.title;
          pr_body = pr.description;
          changed_files = files;
        }
      ]
    ]

abbrev pub base_of : Option PrDetails → String
base_of none = ""
base_of (some pr) = pr.base_sha

unfoldable pub submit_task :
    Intake
    → String
    → String × String
    → ReviewRulesConfig
    → Option PrDetails
    → String
    → Review
    → Task
unfolding submit_request
submit_task env provider_name names cfg details output_dir review = record {
  review = review;
  request = submit_request env review names details;
  provider_name = provider_name;
  agent_name = "";
  created_at = env.surroundings.now review.id;
  base_commit_sha = base_of details;
  review_rules_config = some cfg;
  output_dir = output_dir;
}

-- From the metadata update on. A task that is queued already counts as submitted.
unfoldable pub submit_configured :
    Intake
    → String
    → String × String
    → ReviewRulesConfig
    → Option PrDetails
    → String
    → Review
    → Engine
    → Engine × Submitted
unfolding submit_columns
submit_configured env provider_name names cfg details output_dir review st =
    let review' = record review { pr_url = submitted_pr_url env provider_name review } in
    let t = submit_task env provider_name names cfg details output_dir review' in
    let columns = submit_columns (submitted_source review) (built_url env provider_name review) in
    let db = record st.database {
      reviews = update_where (is_review review.id) columns st.database.reviews;
    } in
    if env.update_fails
    then (st, not_submitted (app (wrap db_query "failed to update review" env.fault)))
    else (
      record {
        queue = (enqueue st.queue (task t)).0;
        database = create_rules env.create_fails review.id 0 cfg.rules db;
      },
      submitted t,
    )

-- `Submit`; without an output directory that argument is empty.
unfoldable pub submit : Intake → Option PrDetails → String → Review → Engine → Engine × Submitted
submit env details output_dir review st =
    let provider_name = env.surroundings.detect_from_url review.repo_url in
    if str_eq provider_name ""
    then (
      st,
      not_submitted (app (new git_not_found "could not detect provider from repository URL")),
    )
    else elim (env.surroundings.parse_repo_path provider_name) [
      | none ↦ (
        st,
        not_submitted
            (app (new git_not_found ("provider " ++ (provider_name ++ " not configured")))),
      )
      | some parse_repo_path ↦ elim (parse_repo_path review.repo_url) [
        | none ↦
            (st, not_submitted (app (wrap validation "failed to parse repository URL" env.fault)))
        | some names ↦ elim (load_dsl_config_for_repo env.loader review.repo_url) [
          | bad msg ↦ (st, not_submitted (config msg))
          | good cfg ↦ submit_configured env provider_name names cfg details output_dir review st
        ]
      ]
    ]
