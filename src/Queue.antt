-- ===== src/Queue.antt =====
-- The per-repository task queue, internal/engine/queue.go. Every method holds the mutex from its
-- first access of the state to its end, so a call is one step. Go iterates a map in any order, so a
-- method that searches `queues` takes the order of the keys as an argument; the loops that only
-- count go through the entries.
pub mod Dequeue
pub mod Finish
pub mod Lookups
pub mod Waiting
pub mod Progress
pub mod Again
pub mod Tests
pub mod Stats
use verustcode.Base.{
  ℕ, suc, ◌+◌, String, Bool, true, false, Option, none, some, List, [], ◌∷◌, ◌++◌, ◌&&◌, ◌||◌, not,
  length, is_empty, ltb, str_eq, if◌then◌else◌, lookup, insert, delete, sum_by, any,
}
use verustcode.Model.{Task}

pub record RepoQueue : Type 0 where
  pub tasks : List Task
  pub running : Bool
  pub current_task_id : String
  pub dequeued : Bool

-- The channel `taskReady`, by the number of signals that wait in it. `panicked` says that a method
-- sent on the closed channel.
pub record Signals : Type 0 where
  pub waiting : ℕ
  pub closed : Bool
  pub panicked : Bool

pub record RepoTaskQueue : Type 0 where
  pub queues : List (String × RepoQueue)
  pub tasks_by_id : List (String × Task)
  pub task_ready : Signals

-- The argument of an enqueue: a nil task, a task with a nil review, or a task.
pub data Submission : Type 0 where
  nil_task : Submission
  nil_review : Submission
  task : Task → Submission

abbrev pub signal_capacity : ℕ
signal_capacity = 100

unfoldable pub new_repo_task_queue : RepoTaskQueue
new_repo_task_queue = record {
  queues = [];
  tasks_by_id = [];
  task_ready = record { waiting = 0; closed = false; panicked = false };
}

abbrev pub empty_repo_queue : RepoQueue
empty_repo_queue = record { tasks = []; running = false; current_task_id = ""; dequeued = false }

-- `select { case c <- x: default: }`; on a closed channel the send panics.
unfoldable pub signal_task_ready : Signals → Signals
signal_task_ready s =
    if s.closed
    then record s { panicked = true }
    else if ltb s.waiting signal_capacity
    then record s { waiting = s.waiting + 1 }
    else s

-- The queue of a repository, a new one if there is none.
abbrev pub repo_queue : RepoTaskQueue → String → RepoQueue
repo_queue q repo = elim (lookup repo q.queues) [ some rq ↦ rq | none ↦ empty_repo_queue ]

abbrev pub is_some {ℓ} : {A : Type ℓ} → Option A → Bool
is_some none = false
is_some (some a) = true

unfoldable pub push_back : Task → RepoQueue → RepoQueue
push_back t rq = record rq { tasks = rq.tasks ++ (t ∷ []) }

unfoldable pub enqueue : RepoTaskQueue → Submission → RepoTaskQueue × Bool
unfolding push_back
enqueue q nil_task = (q, false)
enqueue q nil_review = (q, false)
enqueue q (task t) = if is_some (lookup t.review.id q.tasks_by_id) then (q, false) else (
  record {
    queues = insert t.review.repo_url (push_back t (repo_queue q t.review.repo_url)) q.queues;
    tasks_by_id = insert t.review.id t q.tasks_by_id;
    task_ready = signal_task_ready q.task_ready;
  },
  true,
)

unfoldable pub enqueue_as_running : RepoTaskQueue → Submission → RepoTaskQueue × Bool
enqueue_as_running q nil_task = (q, false)
enqueue_as_running q nil_review = (q, false)
enqueue_as_running q (task t) =
    let rq = repo_queue q t.review.repo_url in
    if is_some (lookup t.review.id q.tasks_by_id) then (q, false) else (
      record {
        queues =
            insert t.review.repo_url
              (record rq { running = true; current_task_id = t.review.id; dequeued = false })
              q.queues;
        tasks_by_id = insert t.review.id t q.tasks_by_id;
        task_ready = signal_task_ready q.task_ready;
      },
      true,
    )
