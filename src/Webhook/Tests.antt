-- ===== src/Webhook/Tests.antt =====
-- Deliveries of a pull request's events.
use verustcode.Base.{true, false, none, some, [], ◌∷◌, ◌≡◌, refl, arith, All, length}
use verustcode.Base.Int.{pos, ◌<ℤ◌}
use verustcode.Llm.{bytes, bytes_eq, to_lower}
use verustcode.PrUrl.Build.{decimal_from}
use verustcode.Store.{first_where, create_rule, update_where}
use verustcode.Submit.{submit, submit_configured, create_rules}
use verustcode.Webhook.Rows.{get_max_revision_by_pr_url, get_by_pr_url_and_commit, insertion}
use verustcode.Model.{Review, running}
use verustcode.Samples.{sample_review}
use verustcode.Queue.{new_repo_task_queue}
use verustcode.Retry.{Engine}
use verustcode.Process.{good, bad, load_dsl_config_for_repo}
use verustcode.Dsl.Schema.{default_review_rule_config}
use verustcode.Webhook.Event.{
  WebhookEvent, pull_request, event_pr_url, build_repo_url, is_pr_update_event, is_pr_merged_event,
  should_process_pr_event,
}
use verustcode.Webhook.Handler.{
  Hook, parsed, next_revision, handle_pr_event, handle_webhook, review_event, submit_event,
}
use verustcode.Webhook.Repeats.{handle_pr_event-repeats}
use verustcode.Webhook.Replies.{Replied, handle_webhook-Replied}
use verustcode.Webhook.Revisions.{next_revision-exceeds}

abbrev hook : Hook
hook = record {
  environment = record {
    intake = record {
      surroundings = record {
        config = record { max_retry_count = pos 3; task_timeout_hours = pos 24 };
        detect_from_url = λ url. "github";
        parse_repo_path = λ name. some (λ url. some ("octo", url));
        describe = λ reason. "no";
        now = λ id. 0;
        request_id = λ id. "req";
        writes = λ id. true;
      };
      loader = record {
        from_repo_root = λ path. bad "unreadable";
        review_file = λ url. none;
        load = λ file. bad "missing";
        default_config = good (record {
          version = "1.0";
          rule_base = none;
          rules = record default_review_rule_config { id = "style" } ∷ [];
        });
      };
      text = λ s. "u";
      update_fails = false;
      create_fails = λ id. false;
      fault = "locked";
    };
    insert_fails = false;
    update_fails = false;
    cancel_fails = false;
    new_id = "r9";
  };
  first_lookup_fails = false;
  second_lookup_fails = false;
  max_fails = false;
  merge_fails = false;
  configured = λ name. [];
  now = 5;
}

abbrev engine : Engine
engine = record {
  queue = new_repo_task_queue;
  database = record {
    reviews = record (sample_review "r1" "a") { status = running; pr_url = "u" } ∷ [];
    rules = [];
    next_rule_id = 1;
    runs = [];
    results = [];
  };
}

abbrev event : WebhookEvent
event = record {
  event_type = pull_request;
  provider = bytes "github";
  owner = bytes "octo";
  repo = bytes "app";
  ref = "main";
  commit_sha = "beef";
  pr_number = pos 7;
  action = bytes "Synchronize";
  pr_title = "title";
  pr_description = "text";
  base_commit_sha = "base";
  changed_files = none;
}

-- The later delivery goes to an engine whose statements all fail.
abbrev failing : Hook
failing = record hook {
  first_lookup_fails = true;
  second_lookup_fails = true;
  merge_fails = true;
  now = 6;
}

handle_pr_event-repeats_example :
    (handle_pr_event failing event (handle_pr_event hook event engine).0).0
    ≡ (handle_pr_event hook event engine).0
handle_pr_event-repeats_example =
    handle_pr_event-repeats hook failing event engine refl refl refl refl

handle_webhook-Replied_example :
    Replied "r9" engine
      (handle_webhook hook "github" (some (λ secret. parsed event)) "s3cret" engine)
handle_webhook-Replied_example =
    handle_webhook-Replied hook refl "github" (some (λ secret. parsed event)) "s3cret" engine

next_revision-exceeds_example :
    All
      (λ (r : Review).
        r.pr_url ≡ "u" → r.revision_count <ℤ next_revision hook event "u" engine.database.reviews)
      engine.database.reviews
unfolding is_pr_update_event bytes_eq to_lower
next_revision-exceeds_example =
    next_revision-exceeds hook event "u" engine.database.reviews refl refl refl (ground arith, tt)

-- The event's row is the second revision; its URLs.
second_revision : next_revision hook event "u" engine.database.reviews ≡ pos 2
unfolding next_revision is_pr_update_event bytes_eq to_lower get_max_revision_by_pr_url
second_revision = refl

two_reviews : length (handle_pr_event hook event engine).0.database.reviews ≡ 2
unfolding handle_pr_event is_pr_merged_event bytes_eq to_lower should_process_pr_event review_event
    get_by_pr_url_and_commit first_where insertion submit_event submit load_dsl_config_for_repo
    submit_configured create_rules create_rule update_where
two_reviews = refl

pull_request_url : event_pr_url hook.configured event ≡ bytes "https://github.com/octo/app/pull/7"
unfolding event_pr_url bytes_eq decimal_from
pull_request_url = refl

-- A self-hosted Gitea's base URL is not used.
gitea_url :
    build_repo_url
      (λ name. bytes "https://git.example.org")
      (record event { provider = bytes "gitea" })
    ≡ bytes "https://gitea.com/octo/app"
unfolding build_repo_url bytes_eq
gitea_url = refl
