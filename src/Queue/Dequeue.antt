-- ===== src/Queue/Dequeue.antt =====
-- `Dequeue` of internal/engine/queue.go, each of its two loops as a search and an update.
use verustcode.Base.{
  String, Bool, true, false, Option, none, some, List, [], ◌∷◌, ◌&&◌, not, str_eq, if◌then◌else◌,
  lookup, insert, delete,
}
use verustcode.Model.{Task}
use verustcode.Queue.{RepoQueue, RepoTaskQueue}

-- The task that a repository's queue has to hand out again after a restart.
unfoldable pub recovered : RepoTaskQueue → RepoQueue → Option Task
recovered q rq =
    if rq.running && not (str_eq rq.current_task_id "") && not rq.dequeued
    then lookup rq.current_task_id q.tasks_by_id
    else none

-- A repository that a search stops at, its queue and the task found there.
pub record Choice : Type 0 where
  pub repo : String
  pub queue : RepoQueue
  pub task : Task

-- The search of the first loop of `Dequeue`, over the keys in the order given.
unfoldable pub find_recovered : RepoTaskQueue → List String → Option Choice
find_recovered q [] = none
find_recovered q (repo ∷ repos) =
    let rest = find_recovered q repos in
    elim (lookup repo q.queues) [
      | none ↦ rest
      | some rq ↦ elim (recovered q rq) [
        | none ↦ rest
        | some t ↦ some (record { repo = repo; queue = rq; task = t })
      ]
    ]

-- What the loop does at the task that it returns.
unfoldable pub take_recovered : RepoTaskQueue → Choice → RepoTaskQueue
take_recovered q c = record q {
  queues = insert c.repo (record c.queue { dequeued = true }) q.queues;
  tasks_by_id = delete c.queue.current_task_id q.tasks_by_id;
}

-- The first task of a queue that is not running.
unfoldable pub next_pending : Bool → List Task → Option Task
next_pending true tasks = none
next_pending false [] = none
next_pending false (t ∷ tasks) = some t

-- The search of the second loop.
unfoldable pub find_pending : RepoTaskQueue → List String → Option Choice
find_pending q [] = none
find_pending q (repo ∷ repos) =
    let rest = find_pending q repos in
    elim (lookup repo q.queues) [
      | none ↦ rest
      | some rq ↦ elim (next_pending rq.running rq.tasks) [
        | none ↦ rest
        | some t ↦ some (record { repo = repo; queue = rq; task = t })
      ]
    ]

abbrev pub drop_front : List Task → List Task
drop_front [] = []
drop_front (t ∷ tasks) = tasks

unfoldable pub take_pending : RepoTaskQueue → Choice → RepoTaskQueue
take_pending q c = record q {
  queues =
      insert c.repo
        (record c.queue {
          tasks = drop_front c.queue.tasks;
          running = true;
          current_task_id = c.task.review.id;
        })
        q.queues;
  tasks_by_id = delete c.task.review.id q.tasks_by_id;
}

-- `Dequeue`; the two loops may go through the map in different orders.
unfoldable pub dequeue : RepoTaskQueue → List String → List String → RepoTaskQueue × Option Task
dequeue q order order' = elim (find_recovered q order) [
  | some c ↦ (take_recovered q c, some c.task)
  | none ↦ elim (find_pending q order') [
    | some c ↦ (take_pending q c, some c.task)
    | none ↦ (q, none)
  ]
]
