-- ===== src/Api/Review.antt =====
-- `CreateReview` and `CancelReview` of internal/api/handler/review.go.
use verustcode.Base.{
  String, Bool, Option, none, some, List, [], ◌∷◌, ◌++◌, ◌&&◌, any, str_eq, if◌then◌else◌,
}
use verustcode.Base.Int.{ℤ, pos}
use verustcode.Model.{Review, pending, failed, cancelled}
use verustcode.Errors.{http_status, error_text}
use verustcode.Store.{is_review, is_open, update_where, update_status_with_error}
use verustcode.PrUrl.Text.{Bytes}
use verustcode.Retry.{Engine}
use verustcode.Submit.{
  Intake, SubmitError, app, config, Submitted, not_submitted, submitted, submit,
}
use verustcode.Report.Handler.{Answer, answer}
use verustcode.Api.Names.{Names, Resolution, crashed, invalid, resolved, resolve, request_pr_url}

-- What a request meets: the engine's surroundings, the statements that fail and the new identifier.
pub record Environment : Type 0 where
  pub intake : Intake
  pub insert_fails : Bool
  pub update_fails : Bool
  pub cancel_fails : Bool
  pub new_id : String

pub record CreateReviewRequest : Type 0 where
  pub repository : Bytes
  pub ref : String
  pub provider : Bytes
  pub pr_number : ℤ

abbrev pub new_review : Environment → CreateReviewRequest → Bytes → Names → Review
new_review env req url names = record {
  id = env.new_id;
  ref = req.ref;
  commit_sha = "";
  pr_number = req.pr_number;
  pr_url = env.intake.text (request_pr_url names req.pr_number);
  repo_url = env.intake.text url;
  repo_path = "";
  source = "api";
  status = pending;
  current_rule_index = pos 0;
  retry_count = pos 0;
  started_at = none;
  completed_at = none;
  merged_at = none;
  revision_count = pos 1;
  error_message = "";
}

-- `Create`.
unfoldable pub create_row : Review → Engine → Engine
create_row row st = record st {
  database = record st.database { reviews = st.database.reviews ++ (row ∷ []) };
}

-- The status and the text of an error of `Submit`.
abbrev pub submit_answer : SubmitError → Answer
submit_answer (app e) = answer (http_status e) (error_text e)
submit_answer (config msg) = answer 500 msg

-- The review is marked as failed, if the update is carried out.
unfoldable pub fail_review : Environment → String → Engine → Engine
fail_review env msg st = if env.update_fails then st else record st {
  database = record st.database {
    reviews = update_status_with_error env.new_id failed msg st.database.reviews;
  };
}

abbrev pub submit_outcome : Environment → Engine × Submitted → Engine × Answer
submit_outcome env (st, submitted t) = (st, answer 202 "")
submit_outcome env (st, not_submitted e) =
    (fail_review env (submit_answer e).message st, submit_answer e)

abbrev pub invalid_repository : String
invalid_repository = "Invalid repository format, expected 'owner/repo' or full URL"

-- `CreateReview` of a repository that resolves like that; `none` is a panic.
unfoldable pub create_resolved :
    Environment → CreateReviewRequest → Resolution → Engine → Option (Engine × Answer)
unfolding create_row
create_resolved env req crashed st = none
create_resolved env req invalid st = some (st, answer 400 invalid_repository)
create_resolved env req (resolved url names) st =
    let row : Review = new_review env req url names in
    some (
      if env.insert_fails
      then (st, answer 500 "Failed to create review")
      else submit_outcome env (submit env.intake none "" row (create_row row st)))

-- `CreateReview`.
unfoldable pub create_review : Environment → CreateReviewRequest → Engine → Option (Engine × Answer)
create_review env req st = create_resolved env req (resolve req.repository req.provider) st

-- `UpdateStatusIfAllowed` to cancelled, for pending and running reviews, with whether a row was changed.
abbrev pub may_cancel : String → Review → Bool
may_cancel id r = is_review id r && is_open r.status

unfoldable pub cancel_if_open : String → List Review → List Review × Bool
cancel_if_open id rs =
    (update_where (may_cancel id) (λ r. record r { status = cancelled }) rs, any (may_cancel id) rs)

-- `CancelReview`.
unfoldable pub cancel_review : Environment → String → Engine → Engine × Answer
unfolding cancel_if_open
cancel_review env id st =
    let (rows, changed) = cancel_if_open id st.database.reviews in
    let st' : Engine = record st { database = record st.database { reviews = rows } } in
    if str_eq id ""
    then (st, answer 400 "Invalid review ID")
    else if env.cancel_fails
    then (st, answer 500 "Failed to cancel review")
    else if changed
    then (st', answer 200 "Review cancelled")
    else (st', answer 404 "Review not found or cannot be cancelled")
