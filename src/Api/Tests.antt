-- ===== src/Api/Tests.antt =====
-- Requests on reviews: the surroundings of the tests of Submit are rebuilt in small.
use verustcode.Base.{true, false, none, some, [], ◌∷◌, ◌++◌, ◌≡◌, ◌⊎◌, refl, All}
use verustcode.Base.Int.{pos}
use verustcode.Llm.{bytes}
use verustcode.PrUrl.Text.{Bytes}
use verustcode.Model.{running}
use verustcode.Samples.{sample_review}
use verustcode.Queue.{new_repo_task_queue}
use verustcode.Retry.{Engine}
use verustcode.Process.{good, bad}
use verustcode.Dsl.Schema.{default_review_rule_config}
use verustcode.Submit.{Intake}
use verustcode.Api.Names.{resolve, resolved, request_pr_url}
use verustcode.Api.Clone.{place, pull_page, resolve-clone, resolve-http}
use verustcode.Api.Review.{Environment, CreateReviewRequest, create_review, cancel_review}
use verustcode.Api.Answers.{
  IfAnswered, ClosedIf, others, create_review-Answered, cancel_review-closes,
}

abbrev intake : Intake
intake = record {
  surroundings = record {
    config = record { max_retry_count = pos 3; task_timeout_hours = pos 24 };
    detect_from_url = λ url. "github";
    parse_repo_path = λ name. some (λ url. some ("octo", url));
    describe = λ reason. "no";
    now = λ id. 0;
    request_id = λ id. "req";
    writes = λ id. true;
  };
  loader = record {
    from_repo_root = λ path. bad "unreadable";
    review_file = λ url. none;
    load = λ file. bad "missing";
    default_config = good (record {
      version = "1.0";
      rule_base = none;
      rules = record default_review_rule_config { id = "style" } ∷ [];
    });
  };
  text = λ s. "u";
  update_fails = false;
  create_fails = λ id. false;
  fault = "locked";
}

abbrev env : Environment
env = record {
  intake = intake;
  insert_fails = false;
  update_fails = false;
  cancel_fails = false;
  new_id = "r9";
}

abbrev engine : Engine
engine = record {
  queue = new_repo_task_queue;
  database = record {
    reviews = record (sample_review "r1" "a") { status = running } ∷ [];
    rules = [];
    next_rule_id = 1;
    runs = [];
    results = [];
  };
}

abbrev request : CreateReviewRequest
request = record { repository = bytes "octo/app"; ref = "main"; provider = []; pr_number = pos 7 }

create_review-Answered_example : IfAnswered "r9" engine (create_review env request engine)
create_review-Answered_example = create_review-Answered env refl request engine

cancel_review-closes_example :
    All (ClosedIf "r1") (cancel_review env "r1" engine).0.database.reviews
    × (others "r1" (cancel_review env "r1" engine).0.database.reviews
        ≡ others "r1" engine.database.reviews)
    × (((¬ All (ClosedIf "r1") engine.database.reviews)
          × ((cancel_review env "r1" engine).1.code ≡ 200))
        ⊎ (All (ClosedIf "r1") engine.database.reviews
            × ((cancel_review env "r1" engine).1.code ≡ 404)
            × ((cancel_review env "r1" engine).0.database.reviews ≡ engine.database.reviews)))
cancel_review-closes_example = cancel_review-closes env "r1" engine refl refl

resolve-clone_example :
    (resolve
        (bytes "https://github.com/" ++ (place (bytes "octo") (bytes "app") ++ bytes ".git"))
        (bytes "github")
      ≡ resolved
          (bytes "https://github.com/" ++ (place (bytes "octo") (bytes "app") ++ bytes ".git"))
          (record { owner = bytes "octo"; name = bytes "app"; provider = bytes "github" }))
    × (◌≡◌ {A = Bytes} (bytes "github") (bytes "github")
        → request_pr_url
            (record { owner = bytes "octo"; name = bytes "app"; provider = bytes "github" })
            (pos 7)
          ≡ pull_page (bytes "octo") (bytes "app") 7)
resolve-clone_example =
    resolve-clone (bytes "github") (bytes "octo") (bytes "app") 6 (refl, (refl, (refl, (refl, tt))))
      refl refl

resolve-http_example :
    (resolve (bytes "http://github.com/" ++ (place (bytes "octo") (bytes "app") ++ bytes ".git")) []
      ≡ resolved
          (bytes "http://github.com/" ++ (place (bytes "octo") (bytes "app") ++ bytes ".git"))
          (record {
            owner = bytes "ithub.com";
            name = place (bytes "octo") (bytes "app");
            provider = bytes "github";
          }))
    × (request_pr_url
          (record {
            owner = bytes "ithub.com";
            name = place (bytes "octo") (bytes "app");
            provider = bytes "github";
          })
          (pos 7)
        ≡ pull_page (bytes "ithub.com") (place (bytes "octo") (bytes "app")) 7)
resolve-http_example = resolve-http (bytes "octo") (bytes "app") 6
