-- ===== src/Process.antt =====
-- The processing of one task, `processTask` and `handleError` of internal/engine/engine.go, with the
-- choice of the review configuration there and in internal/engine/retry/handler.go, and the callback
-- `onReviewError` of internal/api/handler/review.go. Cloning, the configuration files, the
-- provider's pull requests and the clock are arguments. A statement that fails ends the task where
-- the code returns, and is passed over where the code logs it. The statistics columns, the metrics
-- and the notifications are left out.
mod Config
pub mod Ended
mod Others
mod Tests
use verustcode.Base.{
  ℕ, String, Bool, true, false, Option, none, some, List, str_eq, not, ◌≡◌, ◌⊎◌, inl, inr, refl,
  if◌then◌else◌,
}
use verustcode.Base.Int.{ℤ, pos, ltb_ℤ}
use verustcode.Model.{Review, Task, ReviewRequest, running, failed}
use verustcode.Dsl.Schema.{ReviewRulesConfig}
use verustcode.Errors.{AppError, wrap, error_text, git_clone, config_invalid, internal}
use verustcode.Store.{
  Database, get_by_id, is_open, is_review, update_where, close_review,
  update_status_to_running_if_pending,
}
use verustcode.Runner.{Execution, run_review_with_tracking}

-- A file or a clone: the error's text, or what was read.
pub data Loaded (A : Type 0) : Type 0 where
  bad : String → Loaded A
  good : A → Loaded A

pub Loaded-cases :
    {A : Type 0} (r : Loaded A) → ((msg : String) × (r ≡ bad msg)) ⊎ ((a : A) × (r ≡ good a))
Loaded-cases (bad msg) = inl (msg, refl)
Loaded-cases (good a) = inr (a, refl)

-- `LoadFromRepoRoot` gives nil without a file; `review_file` is that of `GetByRepoURL`, `none` when
-- it returns an error; `load` takes the name of a file of the reviews' directory.
pub record Loader : Type 0 where
  pub from_repo_root : String → Loaded (Option ReviewRulesConfig)
  pub review_file : String → Option String
  pub load : String → Loaded ReviewRulesConfig
  pub default_config : Loaded ReviewRulesConfig

unfoldable pub load_dsl_config_for_repo : Loader → String → Loaded ReviewRulesConfig
load_dsl_config_for_repo l repo_url = elim (l.review_file repo_url) [
  | none ↦ l.default_config
  | some file ↦
      if str_eq file ""
      then l.default_config
      else elim (l.load file) [ bad msg ↦ l.default_config | good cfg ↦ good cfg ]
]

unfoldable pub load_dsl_config_with_priority : Loader → String → String → Loaded ReviewRulesConfig
load_dsl_config_with_priority l repo_path repo_url =
    if not (str_eq repo_path "")
    then elim (l.from_repo_root repo_path) [
      | bad msg ↦ load_dsl_config_for_repo l repo_url
      | good none ↦ load_dsl_config_for_repo l repo_url
      | good (some cfg) ↦ good cfg
    ]
    else load_dsl_config_for_repo l repo_url

-- The second copy of this choice, a method of the retry handler: the second and third priority of
-- it, and all of it.
unfoldable pub handler_configured : Loader → String → Loaded ReviewRulesConfig
handler_configured l repo_url = elim (l.review_file repo_url) [
  | none ↦ l.default_config
  | some file ↦
      if not (str_eq file "")
      then elim (l.load file) [ bad msg ↦ l.default_config | good cfg ↦ good cfg ]
      else l.default_config
]

unfoldable pub handler_load_dsl_config_with_priority :
    Loader → String → String → Loaded ReviewRulesConfig
handler_load_dsl_config_with_priority l repo_path repo_url =
    if not (str_eq repo_path "")
    then elim (l.from_repo_root repo_path) [
      | bad msg ↦ handler_configured l repo_url
      | good root ↦ elim root [ none ↦ handler_configured l repo_url | some cfg ↦ good cfg ]
    ]
    else handler_configured l repo_url

-- The pull request as the provider describes it.
pub record PullRequest : Type 0 where
  pub title : String
  pub description : String
  pub base_sha : String

-- `ReviewRequest` of the engine.
pub record RunRequest : Type 0 where
  pub repo_path : String
  pub repo_url : String
  pub ref : String
  pub commit_sha : String
  pub pr_number : ℤ
  pub pr_title : String
  pub pr_description : String
  pub base_commit_sha : String
  pub changed_files : List String
  pub output_dir : String

-- The statements of which `processTask` looks at the error, and those whose errors it only logs.
pub data Statement : Type 0 where
  load_review start repo_path metadata finish mark_failed report : Statement

-- What the task meets. `ensure_pr_repository` and `clone` give the path or an error, `make_dir` an
-- error; `run` is the execution of the rules for a request; `on_error` says whether the callback
-- is set.
pub record Machine : Type 0 where
  pub fails : Statement → Bool
  pub started_at : ℕ
  pub running_at : ℕ
  pub completed_at : ℕ
  pub ensure_pr_repository : Task → Loaded String
  pub make_dir : Task → Option String
  pub clone : Task → Loaded String
  pub loader : Loader
  pub get_pull_request : Task → Option PullRequest
  pub run : RunRequest → Execution
  pub on_error : Bool

-- How it ends: nothing to do, an error with its text, or the rules have run without an error.
pub data TaskResult : Type 0 where
  skipped : TaskResult
  errored : String → TaskResult
  finished : TaskResult

abbrev pub or_text : String → String → String
or_text s t = if str_eq s "" then t else s

-- The pull request fills in what the task lacks, when its base is not known.
unfoldable pub build_request : Machine → Task → String → RunRequest
build_request m t path =
    let req : RunRequest = record {
      repo_path = path;
      repo_url = t.request.repo_url;
      ref = t.request.ref;
      commit_sha = t.request.commit_sha;
      pr_number = t.request.pr_number;
      pr_title = t.request.pr_title;
      pr_description = t.request.pr_body;
      base_commit_sha = t.base_commit_sha;
      changed_files = t.request.changed_files;
      output_dir = t.output_dir;
    } in
    if not (ltb_ℤ (pos 0) t.request.pr_number)
    then req
    else if not (str_eq req.base_commit_sha "")
    then req
    else elim (m.get_pull_request t) [
      | none ↦ req
      | some pr ↦ record req {
        base_commit_sha = pr.base_sha;
        pr_title = or_text req.pr_title pr.title;
        pr_description = or_text req.pr_description pr.description;
      }
    ]

-- `handleError` with the callback of the review handler.
unfoldable pub handle_error : Machine → String → String → Database → Database × TaskResult
handle_error m id msg db = (
  if m.on_error
      then if m.fails report
        then db
        else record db { reviews = close_review id failed msg m.completed_at db.reviews }
      else db,
  errored msg,
)

-- The repository on disk: the pull request's, or a clone of the branch.
pub data Prepared : Type 0 where
  no_repository : AppError → Prepared
  repository : String → Prepared

pub Prepared-cases :
    (p : Prepared)
    → ((e : AppError) × (p ≡ no_repository e)) ⊎ ((path : String) × (p ≡ repository path))
Prepared-cases (no_repository e) = inl (e, refl)
Prepared-cases (repository path) = inr (path, refl)

unfoldable pub prepare : Machine → Task → Prepared
prepare m t =
    if ltb_ℤ (pos 0) t.request.pr_number
    then elim (m.ensure_pr_repository t) [
      | bad msg ↦ no_repository (wrap git_clone "failed to clone PR repository" msg)
      | good path ↦ repository path
    ]
    else elim (m.make_dir t) [
      | some msg ↦ no_repository (wrap internal "failed to create workspace" msg)
      | none ↦ elim (m.clone t) [
        | bad msg ↦ no_repository (wrap git_clone "failed to clone repository" msg)
        | good path ↦ repository path
      ]
    ]

abbrev pub runs_from : ℕ → Review → Review
runs_from now r = record r { status = running; started_at = some now }

-- The columns that end a successful run.
abbrev pub finish_review : ℕ → Review → Review
finish_review now r = record r { completed_at = some now; error_message = "" }

abbrev pub rules_failed : String
rules_failed = "one or more rules failed"

-- An `UPDATE` of the review's row, unless it fails and is passed over.
unfoldable pub write_review : Bool → String → (Review → Review) → Database → Database
write_review fails id f db =
    if fails then db else record db { reviews = update_where (is_review id) f db.reviews }

-- From the end of the rules' execution on.
unfoldable pub end_run : Machine → String → Database × Bool → Database × TaskResult
end_run m id (db, true) = handle_error m id rules_failed (
    if m.fails mark_failed
    then db
    else record db { reviews = close_review id failed rules_failed m.completed_at db.reviews })
end_run m id (db, false) =
    (write_review (m.fails finish) id (finish_review m.completed_at) db, finished)

-- From the repository on.
unfoldable pub process_repository :
    Machine → Task → Review → String → Database → Database × TaskResult
process_repository m t review path db =
    let db1 = write_review (m.fails repo_path) review.id (λ r. record r { repo_path = path }) db in
    elim (load_dsl_config_with_priority m.loader path review.repo_url) [
      | bad msg ↦
          handle_error m review.id
            (error_text (wrap config_invalid "failed to load review configuration" msg)) db1
      | good cfg ↦
          let db2 = write_review (m.fails metadata) review.id (runs_from m.running_at) db1 in
          end_run m review.id
            (run_review_with_tracking (m.run (build_request m t path)) review cfg.rules db2)
    ]

-- From the row that is now running on.
unfoldable pub process_started : Machine → Task → Review → Database → Database × TaskResult
process_started m t review db = elim (prepare m t) [
  | no_repository e ↦ handle_error m review.id (error_text e) db
  | repository path ↦ process_repository m t review path db
]

-- `processTask`.
unfoldable pub process_task : Machine → Task → Database → Database × TaskResult
process_task m t db =
    if m.fails load_review then (db, skipped) else elim (get_by_id t.review.id db.reviews) [
      | none ↦ (db, skipped)
      | some current ↦
          if not (is_open current.status)
          then (db, skipped)
          else if m.fails start
          then (db, skipped)
          else let (rows, updated) =
              update_status_to_running_if_pending current.id m.started_at db.reviews in
            let db' = record db { reviews = rows } in
            if not updated
            then (db', skipped)
            else process_started m t (runs_from m.started_at current) db'
    ]
