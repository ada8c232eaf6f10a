-- ===== src/Queue/Tests.antt =====
-- Calls of the methods of internal/engine/queue.go at small queues.
use verustcode.Base.{
  String, Bool, true, false, some, List, [], ◌∷◌, ◌≡◌, refl, ◌↔◌, lookup, insert, delete, arith,
  eq_iff,
}
use verustcode.Samples.{sample_task}
use verustcode.Model.{Task}
use verustcode.Queue.{
  RepoQueue, RepoTaskQueue, new_repo_task_queue, task, nil_review, enqueue, push_back, is_some,
}
use verustcode.Queue.Dequeue.{
  dequeue, find_recovered, find_pending, recovered, next_pending, take_pending,
}
use verustcode.Queue.Finish.{has_task, find_current, remove_task, remove_pending, remove_first}
use verustcode.Queue.Stats.{get_pending_count}
use verustcode.Queue.Progress.{HasWork, dequeue-progress}
use verustcode.Queue.Again.{IsRunning, enqueue-hands_out_again}

abbrev one : Task
one = sample_task "r1" "a"

abbrev two : Task
two = sample_task "r2" "a"

abbrev filled : RepoTaskQueue
filled = (enqueue (enqueue new_repo_task_queue (task one)).0 (task two)).0

abbrev busy : RepoTaskQueue
busy = (dequeue filled ("a" ∷ []) ("a" ∷ [])).0

abbrev queue_of : List Task → Bool → String → RepoQueue
queue_of tasks running current = record {
  tasks = tasks;
  running = running;
  current_task_id = current;
  dequeued = false;
}

filled_count : get_pending_count filled ≡ 2
unfolding get_pending_count enqueue push_back new_repo_task_queue lookup insert
filled_count = refl

-- A duplicate of a pending review is refused, and so is a task without a review.
refuses : ((enqueue filled (task one)).1 ≡ false) × ((enqueue filled nil_review).1 ≡ false)
unfolding enqueue push_back new_repo_task_queue lookup insert
refuses = (refl, refl)

has_running : has_task busy "r1" ("a" ∷ []) ≡ true
unfolding has_task find_current dequeue find_recovered find_pending recovered next_pending
    take_pending enqueue push_back new_repo_task_queue lookup insert delete
has_running = refl

removes_pending : get_pending_count (remove_task filled "r2" ("a" ∷ [])).0 ≡ 1
unfolding remove_task remove_pending remove_first find_current get_pending_count enqueue push_back
    new_repo_task_queue lookup insert delete
removes_pending = refl

stored : lookup "a" filled.queues ≡ some (queue_of (one ∷ two ∷ []) false "")
unfolding enqueue push_back new_repo_task_queue lookup insert
stored = refl

dequeue-progress_example :
    (is_some (dequeue filled ("a" ∷ []) ("b" ∷ "a" ∷ [])).1 ≡ true)
    ↔ HasWork filled ("a" ∷ []) ("b" ∷ "a" ∷ [])
dequeue-progress_example = dequeue-progress filled ("a" ∷ []) ("b" ∷ "a" ∷ [])

runs : IsRunning busy one (queue_of (two ∷ []) true "r1")
unfolding dequeue find_recovered find_pending recovered next_pending take_pending enqueue push_back
    new_repo_task_queue lookup insert delete
runs = record {
  stored = refl;
  running = refl;
  dequeued = refl;
  current = refl;
  named = ground (arith, eq_iff "r1" "");
  unindexed = refl;
}

enqueue-hands_out_again_example :
    ((enqueue busy (task one)).1 ≡ true)
    × ((dequeue (enqueue busy (task one)).0 ("a" ∷ []) ("a" ∷ [])).1 ≡ some one)
enqueue-hands_out_again_example =
    enqueue-hands_out_again busy one (queue_of (two ∷ []) true "r1") [] ("a" ∷ []) runs
