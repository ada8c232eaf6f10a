-- ===== src/Queue/Finish.antt =====
-- The end of a task: `MarkComplete`, `HasTask`, `RemoveTask` and `Stop` of internal/engine/queue.go.
use verustcode.Base.{
  String, Bool, true, false, Option, none, some, List, [], ◌∷◌, is_empty, str_eq, if◌then◌else◌,
  lookup, insert, delete,
}
use verustcode.Model.{Task}
use verustcode.Queue.{RepoQueue, RepoTaskQueue, signal_task_ready, is_some}

unfoldable pub complete_repo : RepoTaskQueue → String → RepoQueue → RepoTaskQueue
complete_repo q repo rq =
    let idle = record rq { running = false; current_task_id = ""; dequeued = false } in
    record q {
      queues = if is_empty rq.tasks then delete repo q.queues else insert repo idle q.queues;
      task_ready = signal_task_ready q.task_ready;
    }

unfoldable pub mark_complete : RepoTaskQueue → String → String → RepoTaskQueue
unfolding complete_repo
mark_complete q repo id =
    let q' = record q { tasks_by_id = delete id q.tasks_by_id } in
    elim (lookup repo q.queues) [ none ↦ q' | some rq ↦ complete_repo q' repo rq ]

-- The search of the first loop of `RemoveTask`, and of `HasTask`.
unfoldable pub find_current : RepoTaskQueue → String → List String → Option (String × RepoQueue)
find_current q id [] = none
find_current q id (repo ∷ repos) =
    let rest = find_current q id repos in
    elim (lookup repo q.queues) [
      | none ↦ rest
      | some rq ↦ if str_eq rq.current_task_id id then some (repo, rq) else rest
    ]

unfoldable pub has_task : RepoTaskQueue → String → List String → Bool
unfolding find_current
has_task q id order =
    if is_some (lookup id q.tasks_by_id) then true else is_some (find_current q id order)

-- The list without the first task of that id.
unfoldable pub remove_first : String → List Task → List Task
remove_first id [] = []
remove_first id (t ∷ tasks) = if str_eq t.review.id id then tasks else t ∷ remove_first id tasks

unfoldable pub remove_running : RepoTaskQueue → String → String → RepoQueue → RepoTaskQueue
remove_running q id repo rq = record {
  queues =
      insert repo (record rq { running = false; current_task_id = ""; dequeued = false }) q.queues;
  tasks_by_id = delete id q.tasks_by_id;
  task_ready = signal_task_ready q.task_ready;
}

unfoldable pub remove_pending : RepoTaskQueue → String → Task → RepoTaskQueue
unfolding remove_first
remove_pending q id t = record q {
  queues = elim (lookup t.review.repo_url q.queues) [
    | none ↦ q.queues
    | some rq ↦ insert t.review.repo_url (record rq { tasks = remove_first id rq.tasks }) q.queues
  ];
  tasks_by_id = delete id q.tasks_by_id;
}

unfoldable pub remove_task : RepoTaskQueue → String → List String → RepoTaskQueue × Bool
unfolding find_current remove_running remove_pending
remove_task q id order = elim (find_current q id order) [
  | some (repo, rq) ↦ (remove_running q id repo rq, true)
  | none ↦ elim (lookup id q.tasks_by_id) [
    | none ↦ (q, false)
    | some t ↦ (remove_pending q id t, true)
  ]
]

-- `close` panics on a closed channel, so a second `Stop` panics too.
unfoldable pub stop : RepoTaskQueue → RepoTaskQueue
stop q =
    let s = q.task_ready in
    record q {
      task_ready = if s.closed then record s { panicked = true } else record s { closed = true };
    }
