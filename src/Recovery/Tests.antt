-- ===== src/Recovery/Tests.antt =====
-- Recovery of a table with a running, a pending, an unknown, an exhausted and a finished review.
use verustcode.Base.{
  String, true, false, Option, none, some, List, [], ◌∷◌, ◌≡◌, ◌↔◌, refl, All, arith, lookup,
  insert, delete, ne_of, str_eq, if◌then◌else◌,
}
use verustcode.Base.Int.{pos, negsuc, wrap64}
use verustcode.Model.{Review, Task, ReviewStatus, pending, running, completed, failed}
use verustcode.Queue.Finish.{mark_complete, complete_repo}
use verustcode.Queue.Dequeue.{dequeue, find_recovered, recovered, take_recovered, find_pending}
use verustcode.Queue.{RepoTaskQueue, new_repo_task_queue, enqueue, enqueue_as_running, push_back}
use verustcode.Samples.{sample_review}
use verustcode.Recovery.{
  RecoveryConfig, Surroundings, should_recover, timeout_of, clamp64, build_recovery_task, give_up,
  is_running, requeue, put_running, put_pending, recover_review, recover_all, recover_to_queue,
}
use verustcode.Store.{update_status_with_error, list_pending_or_running}
use verustcode.Recovery.Settled.{Settled, recover_to_queue-Settled}
use verustcode.Recovery.Requeued.{Apart, AllApart, IsNew}
use verustcode.Recovery.Timeout.{IsRecoverable, should_recover_iff}

abbrev defaults : RecoveryConfig
defaults = record { max_retry_count = pos 0; task_timeout_hours = negsuc 0 }

abbrev names_of : String → Option (String × String)
names_of url = some ("octo", url)

abbrev machine : Surroundings
machine = record {
  config = defaults;
  detect_from_url = λ url. if str_eq url "x" then "" else "github";
  parse_repo_path = λ name. some names_of;
  describe = λ reason. "no";
  now = λ id. 90000000000000;
  request_id = λ id. "req";
  writes = λ id. true;
}

abbrev started : Review
started = record (sample_review "r1" "a") { status = running; started_at = some 3600000000001 }

abbrev exhausted : Review
exhausted = record (sample_review "r4" "a") { retry_count = pos 3 }

abbrev finished : Review
finished = record (sample_review "r5" "a") { status = completed }

abbrev table : List Review
table = started ∷ sample_review "r2" "a" ∷ sample_review "r3" "x" ∷ exhausted ∷ finished ∷ []

abbrev statuses : List Review → List ReviewStatus
statuses [] = []
statuses (r ∷ rs) = r.status ∷ statuses rs

recovers_table :
    statuses (recover_to_queue machine true new_repo_task_queue table).reviews
    ≡ running ∷ pending ∷ failed ∷ failed ∷ completed ∷ []
unfolding recover_to_queue recover_all recover_review should_recover timeout_of clamp64
    build_recovery_task give_up requeue put_running put_pending update_status_with_error
    list_pending_or_running enqueue enqueue_as_running push_back lookup insert new_repo_task_queue
    wrap64
recovers_table = refl

counts_table : (recover_to_queue machine true new_repo_task_queue table).running_recovered ≡ 1
unfolding recover_to_queue recover_all recover_review should_recover timeout_of clamp64
    build_recovery_task give_up requeue put_running put_pending update_status_with_error
    list_pending_or_running enqueue enqueue_as_running push_back lookup insert new_repo_task_queue
    wrap64
counts_table = refl

waiting-Apart : (r s : Review) → str_eq s.id r.id ≡ false → is_running s.status ≡ false → Apart r s
waiting-Apart r s ne idle = (ne_of s.id r.id ne, λ busy other. absurd (ground arith))

apart : AllApart (list_pending_or_running table)
unfolding list_pending_or_running
apart = (
  (
    waiting-Apart started (sample_review "r2" "a") refl refl,
    (
      waiting-Apart started (sample_review "r3" "x") refl refl,
      (waiting-Apart started exhausted refl refl, tt),
    ),
  ),
  (
    (
      waiting-Apart (sample_review "r2" "a") (sample_review "r3" "x") refl refl,
      (waiting-Apart (sample_review "r2" "a") exhausted refl refl, tt),
    ),
    ((waiting-Apart (sample_review "r3" "x") exhausted refl refl, tt), (tt, tt)),
  ),
)

absent : All (IsNew new_repo_task_queue) (list_pending_or_running table)
unfolding list_pending_or_running new_repo_task_queue lookup
absent = (refl, (refl, (refl, (refl, tt))))

recover_to_queue-Settled_example :
    All
      (Settled machine (recover_to_queue machine true new_repo_task_queue table))
      (list_pending_or_running table)
recover_to_queue-Settled_example =
    recover_to_queue-Settled machine (λ id. refl) new_repo_task_queue table apart absent

-- Of two running reviews of one repository only the later one is handed out again: the other stays in
-- the index, and neither a queue nor a Dequeue has it.
abbrev shared : RepoTaskQueue
shared =
    (recover_to_queue machine true new_repo_task_queue
      (started ∷ record started { id = "r6" } ∷ [])).queue

abbrev id_of_task : Option Task → String
id_of_task none = ""
id_of_task (some t) = t.review.id

second_handed : id_of_task (dequeue shared ("a" ∷ []) ("a" ∷ [])).1 ≡ "r6"
unfolding recover_to_queue recover_all recover_review should_recover timeout_of clamp64
    build_recovery_task requeue put_running put_pending list_pending_or_running enqueue_as_running
    lookup insert delete new_repo_task_queue wrap64 dequeue find_recovered recovered take_recovered
second_handed = refl

abbrev served : RepoTaskQueue
served = mark_complete (dequeue shared ("a" ∷ []) ("a" ∷ [])).0 "a" "r6"

first_stranded : id_of_task (lookup "r1" served.tasks_by_id) ≡ "r1"
unfolding recover_to_queue recover_all recover_review should_recover timeout_of clamp64
    build_recovery_task requeue put_running put_pending list_pending_or_running enqueue_as_running
    lookup insert delete new_repo_task_queue wrap64 dequeue find_recovered recovered take_recovered
    mark_complete complete_repo
first_stranded = refl

not_handed : (dequeue served ("a" ∷ []) ("a" ∷ [])).1 ≡ none
unfolding recover_to_queue recover_all recover_review should_recover timeout_of clamp64
    build_recovery_task requeue put_running put_pending list_pending_or_running enqueue_as_running
    lookup insert delete new_repo_task_queue wrap64 dequeue find_recovered recovered take_recovered
    mark_complete complete_repo find_pending
not_handed = refl

should_recover_iff_example :
    (should_recover defaults 90000000000000 started ≡ none)
    ↔ IsRecoverable defaults 24 90000000000000 started
should_recover_iff_example =
    should_recover_iff defaults 24 refl (omega arith) 90000000000000 started
