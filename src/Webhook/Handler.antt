-- ===== src/Webhook/Handler.antt =====
-- `HandleWebhook` of internal/api/handler/webhook.go and its handlers of the kinds of event.
use Prim.Native.String.{◌++◌}
use verustcode.Base.{ℕ, String, Bool, Option, none, some, List, ◌&&◌, not, str_eq, if◌then◌else◌}
use verustcode.Base.Int.{ℤ, pos, ◌+ℤ◌, wrap64}
use verustcode.Model.{Review, pending}
use verustcode.PrUrl.Text.{Bytes}
use verustcode.Retry.{Engine}
use verustcode.Submit.{PrDetails, Submitted, not_submitted, submitted, submit}
use verustcode.Api.Review.{Environment, create_row, submit_answer, fail_review}
use verustcode.Webhook.Event.{
  EventType, WebhookEvent, push, pull_request, merge_request, comment, should_process_pr_event,
  is_pr_merged_event, is_pr_update_event, build_repo_url, event_pr_url,
}
use verustcode.Webhook.Rows.{
  Insertion, added, clash, lost, insertion, get_by_pr_url_and_commit, get_max_revision_by_pr_url,
  update_merged_at_by_pr_url,
}

-- What a delivery meets: besides the engine's surroundings, which of the lookups of a review by its
-- commit fail (the first or the second), whether the others do, and the configured base URLs.
pub record Hook : Type 0 where
  pub environment : Environment
  pub first_lookup_fails : Bool
  pub second_lookup_fails : Bool
  pub max_fails : Bool
  pub merge_fails : Bool
  pub configured : Bytes → Bytes
  pub now : ℕ

pub record WebhookReply : Type 0 where
  pub code : ℕ
  pub message : String
  pub review_id : String

abbrev pub reply : ℕ → String → WebhookReply
reply code message = record { code = code; message = message; review_id = "" }

abbrev pub replied : ℕ → String → String → WebhookReply
replied code message id = record { code = code; message = message; review_id = id }

abbrev pub event_url : Hook → WebhookEvent → String
event_url hook event = hook.environment.intake.text (event_pr_url hook.configured event)

-- The row of a push has the default revision.
abbrev pub new_push_review : Hook → WebhookEvent → Review
new_push_review hook event = record {
  id = hook.environment.new_id;
  ref = event.ref;
  commit_sha = event.commit_sha;
  pr_number = pos 0;
  pr_url = "";
  repo_url = hook.environment.intake.text (build_repo_url hook.configured event);
  repo_path = "";
  source = "webhook";
  status = pending;
  current_rule_index = pos 0;
  retry_count = pos 0;
  started_at = none;
  completed_at = none;
  merged_at = none;
  revision_count = pos 1;
  error_message = "";
}

abbrev pub new_pr_review : Hook → WebhookEvent → String → ℤ → Review
new_pr_review hook event url revision = record (new_push_review hook event) {
  pr_number = event.pr_number;
  pr_url = url;
  revision_count = revision;
}

-- The answer to the submission of a created row.
unfoldable pub submitted_event : Hook → Engine × Submitted → Engine × WebhookReply
submitted_event hook (st, submitted t) =
    (st, replied 202 "Review triggered" hook.environment.new_id)
submitted_event hook (st, not_submitted e) =
    let msg = (submit_answer e).message in (fail_review hook.environment msg st, reply 500 msg)

unfoldable pub submit_event : Hook → Option PrDetails → Review → Engine → Engine × WebhookReply
unfolding submitted_event create_row
submit_event hook details row st =
    submitted_event hook (submit hook.environment.intake details "" row (create_row row st))

abbrev pub not_created : WebhookReply
not_created = reply 500 "Failed to create review"

-- `handlePushEvent` from the row's creation on.
unfoldable pub push_after : Hook → Review → Insertion → Engine → Engine × WebhookReply
unfolding submit_event
push_after hook row added st = submit_event hook none row st
push_after hook row clash st = (st, not_created)
push_after hook row lost st = (st, not_created)

-- `handlePushEvent`.
unfoldable pub handle_push_event : Hook → WebhookEvent → Engine → Engine × WebhookReply
unfolding push_after
handle_push_event hook event st =
    let row : Review = new_push_review hook event in
    push_after hook row (insertion hook.environment.insert_fails row st.database.reviews) st

-- `handlePRMergedEvent`.
unfoldable pub handle_pr_merged_event : Hook → String → Engine → Engine × WebhookReply
handle_pr_merged_event hook url st =
    if str_eq url ""
    then (st, reply 200 "Merged event received but PR URL is empty")
    else if hook.merge_fails
    then (st, reply 500 "Failed to update merged time")
    else (
      record st {
        database = record st.database {
          reviews = update_merged_at_by_pr_url url hook.now st.database.reviews;
        };
      },
      reply 200 "Merged event processed",
    )

-- The number of the revision that the event's row gets.
unfoldable pub next_revision : Hook → WebhookEvent → String → List Review → ℤ
unfolding wrap64
next_revision hook event url rs =
    if is_pr_update_event event.action && not (str_eq url "") && not hook.max_fails
    then wrap64 (get_max_revision_by_pr_url url rs +ℤ pos 1)
    else pos 1

abbrev pub pr_details : WebhookEvent → PrDetails
pr_details event = record {
  title = event.pr_title;
  description = event.pr_description;
  base_sha = event.base_commit_sha;
  changed_files = event.changed_files;
}

abbrev pub existing_review : Bool → WebhookEvent → String → Engine → Option Review
existing_review fails event url st =
    if fails then none else get_by_pr_url_and_commit url event.commit_sha st.database.reviews

-- The answer that a review exists, or else another.
unfoldable pub if_found : Option Review → Engine → Engine × WebhookReply → Engine × WebhookReply
if_found none st other = other
if_found (some r) st other = (st, replied 200 "Review already exists for this PR + commit" r.id)

-- `handlePREvent` from the row's creation on.
unfoldable pub create_after :
    Hook → WebhookEvent → String → Review → Insertion → Engine → Engine × WebhookReply
unfolding if_found
create_after hook event url row added st = submit_event hook (some (pr_details event)) row st
create_after hook event url row clash st =
    if_found (existing_review hook.second_lookup_fails event url st) st (st, not_created)
create_after hook event url row lost st = (st, not_created)

unfoldable pub create_for_event : Hook → WebhookEvent → String → Engine → Engine × WebhookReply
unfolding create_after next_revision
create_for_event hook event url st =
    let row : Review =
      new_pr_review hook event url (next_revision hook event url st.database.reviews) in
    create_after hook event url row
      (insertion hook.environment.insert_fails row st.database.reviews) st

-- `handlePREvent` of an action that is to be reviewed.
unfoldable pub review_event : Hook → WebhookEvent → String → Engine → Engine × WebhookReply
unfolding create_for_event if_found
review_event hook event url st =
    let made = create_for_event hook event url st in
    if not (str_eq url "") && not (str_eq event.commit_sha "")
    then if_found (existing_review hook.first_lookup_fails event url st) st made
    else made

-- `handlePREvent`.
unfoldable pub handle_pr_event : Hook → WebhookEvent → Engine → Engine × WebhookReply
handle_pr_event hook event st =
    let url = event_url hook event in
    if is_pr_merged_event event.action
    then handle_pr_merged_event hook url st
    else if should_process_pr_event event.action
    then review_event hook event url st
    else (st, reply 200 "PR action not supported for code review, skipping")

-- The end of `HandleWebhook`, by the kind of the event.
unfoldable pub handle_as : EventType → Hook → WebhookEvent → Engine → Engine × WebhookReply
unfolding handle_push_event handle_pr_event
handle_as push hook event st = handle_push_event hook event st
handle_as pull_request hook event st = handle_pr_event hook event st
handle_as merge_request hook event st = handle_pr_event hook event st
handle_as comment hook event st = (st, reply 200 "Event received but not processed")

-- What a provider makes of a request under a secret.
pub data ParseOutcome : Type 0 where
  unparsed : String → ParseOutcome
  parsed : WebhookEvent → ParseOutcome

unfoldable pub handle_parsed : Hook → ParseOutcome → Engine → Engine × WebhookReply
handle_parsed hook (unparsed msg) st = (st, reply 400 ("Failed to parse webhook: " ++ msg))
handle_parsed hook (parsed event) st = handle_as event.event_type hook event st

-- `HandleWebhook` for that provider, which is `none` if it is not registered; the secret is empty if
-- none is configured.
unfoldable pub handle_webhook :
    Hook → String → Option (String → ParseOutcome) → String → Engine → Engine × WebhookReply
unfolding handle_parsed
handle_webhook hook name none secret st = (st, reply 404 ("Unknown provider: " ++ name))
handle_webhook hook name (some parse_webhook) secret st =
    handle_parsed hook (parse_webhook secret) st
