-- ===== src/Recovery.antt =====
-- Recovery at startup, internal/engine/recovery/service.go, with the status updates of
-- internal/store/review.go. The providers and the clock are arguments: the service takes the first
-- by an interface, and reads the second from the system.
pub mod Indexed
pub mod Settled
mod Timeout
mod Tests
pub mod Placed
mod Requeued
use verustcode.Base.{
  ℕ, String, Bool, true, false, Option, none, some, List, [], ◌∷◌, ◌&&◌, str_eq, if◌then◌else◌, map,
  ◌+◌,
}
use Prim.Native.String.{◌++◌}
use verustcode.Base.Int.{ℤ, pos, negsuc, sub_ℕ, scale, wrap64, ltb_ℤ, leb_ℤ}
use verustcode.Store.{update_status_with_error, list_pending_or_running}
use verustcode.Model.{Review, ReviewRequest, ReviewStatus, Task, pending, running, failed}
use verustcode.Queue.{RepoTaskQueue, task, enqueue, enqueue_as_running}

-- `RecoveryConfig` of internal/config, as far as the service reads it.
pub record RecoveryConfig : Type 0 where
  pub max_retry_count : ℤ
  pub task_timeout_hours : ℤ

-- Why a review is not recovered: its retry count, or the time since its start and the timeout.
pub data Reason : Type 0 where
  retries_exceeded : ℤ → Reason
  timed_out : ℤ → ℤ → Reason

-- `parse_repo_path` is the method of the provider of that name, `none` when none is configured; it
-- fails on a URL that it cannot read. `describe` renders a reason, with the durations as
-- fmt and time print them, and `now`, `request_id` are the clock and the generator at the time at
-- which a review is visited. `writes` says whether the database carries out an update of a row.
pub record Surroundings : Type 0 where
  pub config : RecoveryConfig
  pub detect_from_url : String → String
  pub parse_repo_path : String → Option (String → Option (String × String))
  pub describe : Reason → String
  pub now : String → ℕ
  pub request_id : String → String
  pub writes : String → Bool

-- `time.Since`: the difference in nanoseconds, held within the range of an int64.
abbrev pub max_duration : ℕ
max_duration = 9223372036854775807

abbrev pub min_duration : ℤ
min_duration = negsuc max_duration

unfoldable pub clamp64 : ℤ → ℤ
clamp64 d =
    if ltb_ℤ (pos max_duration) d
    then pos max_duration
    else if ltb_ℤ d min_duration
    then min_duration
    else d

abbrev pub hour : ℕ
hour = 3600000000000

-- A setting that is not positive stands for the default.
abbrev pub or_default : ℕ → ℤ → ℤ
or_default d n = if leb_ℤ n (pos 0) then pos d else n

abbrev is_running : ReviewStatus → Bool
is_running running = true
is_running _ = false

unfoldable pub timeout_of : RecoveryConfig → ℤ
timeout_of cfg = wrap64 (scale hour (or_default 24 cfg.task_timeout_hours))

-- `shouldRecover`: the reason against it, if there is one.
unfoldable pub should_recover : RecoveryConfig → ℕ → Review → Option Reason
unfolding timeout_of clamp64
should_recover cfg now review =
    if leb_ℤ (or_default 3 cfg.max_retry_count) review.retry_count
    then some (retries_exceeded review.retry_count)
    else elim review.started_at [
      | none ↦ none
      | some t ↦
          if is_running review.status && ltb_ℤ (timeout_of cfg) (clamp64 (sub_ℕ now t))
          then some (timed_out (clamp64 (sub_ℕ now t)) (timeout_of cfg))
          else none
    ]

abbrev pub recovery_request : Surroundings → Review → String × String → ReviewRequest
recovery_request env review (owner, repo_name) = record {
  repo_path = "";
  repo_url = review.repo_url;
  owner = owner;
  repo_name = repo_name;
  ref = review.ref;
  commit_sha = review.commit_sha;
  pr_number = review.pr_number;
  pr_title = "";
  pr_body = "";
  changed_files = [];
  request_id = env.request_id review.id;
  rule_id = "";
  review_id = "";
  model = "";
}

-- `buildRecoveryTask`; `none` is the nil task.
unfoldable pub build_recovery_task : Surroundings → Review → Option Task
build_recovery_task env review =
    let provider_name = env.detect_from_url review.repo_url in
    if str_eq provider_name "" then none else elim (env.parse_repo_path provider_name) [
      | none ↦ none
      | some parse_repo_path ↦ elim (parse_repo_path review.repo_url) [
        | none ↦ none
        | some names ↦ some (record {
          review = review;
          request = recovery_request env review names;
          provider_name = provider_name;
          agent_name = "";
          created_at = env.now review.id;
          base_commit_sha = "";
          review_rules_config = none;
          output_dir = "";
        })
      ]
    ]

-- The memory queue, the table of reviews in the order of their creation, and the counts of the log.
pub record Recovered : Type 0 where
  pub queue : RepoTaskQueue
  pub reviews : List Review
  pub pending_recovered : ℕ
  pub running_recovered : ℕ
  pub failed_count : ℕ

abbrev pub could_not_build : String
could_not_build = "recovery failed: could not build recovery task"

-- A review is given up: its row says so, if the update is carried out.
unfoldable pub give_up : Surroundings → String → Review → Recovered → Recovered
give_up env msg review st = record st {
  reviews =
      if env.writes review.id
      then update_status_with_error review.id failed msg st.reviews
      else st.reviews;
  failed_count = st.failed_count + 1;
}

-- An accepted running review is counted, and so is a pending one.
unfoldable pub put_running : Recovered → RepoTaskQueue × Bool → Recovered
put_running st (q, accepted) = record st {
  queue = q;
  running_recovered = if accepted then st.running_recovered + 1 else st.running_recovered;
}

unfoldable pub put_pending : Recovered → RepoTaskQueue × Bool → Recovered
put_pending st (q, accepted) = record st {
  queue = q;
  pending_recovered = if accepted then st.pending_recovered + 1 else st.pending_recovered;
}

unfoldable pub requeue : Review → Task → Recovered → Recovered
requeue review t st =
    if is_running review.status
    then put_running st (enqueue_as_running st.queue (task t))
    else put_pending st (enqueue st.queue (task t))

-- The body of the loop of `RecoverToQueue`.
unfoldable pub recover_review : Surroundings → Review → Recovered → Recovered
recover_review env review st = elim (should_recover env.config (env.now review.id) review) [
  | some reason ↦ give_up env ("recovery failed: " ++ env.describe reason) review st
  | none ↦ elim (build_recovery_task env review) [
    | none ↦ give_up env could_not_build review st
    | some t ↦ requeue review t st
  ]
]

unfoldable pub recover_all : Surroundings → List Review → Recovered → Recovered
recover_all env [] st = st
recover_all env (review ∷ rest) st = recover_all env rest (recover_review env review st)

-- `RecoverToQueue`; `answers` says whether the query of the reviews succeeds.
unfoldable pub recover_to_queue : Surroundings → Bool → RepoTaskQueue → List Review → Recovered
recover_to_queue env answers q reviews =
    let st : Recovered = record {
      queue = q;
      reviews = reviews;
      pending_recovered = 0;
      running_recovered = 0;
      failed_count = 0;
    } in
    if answers then recover_all env (list_pending_or_running reviews) st else st
