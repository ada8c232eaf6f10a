-- ===== src/Queue/Waiting.antt =====
-- The abstract view of internal/engine/queue.go: for each repository, the list of pending tasks.
use verustcode.Base.{
  String, true, Option, none, some, List, [], ◌∷◌, ◌++◌, ◌≡◌, inl, inr, refl, sym, ap, ◌∙◌, arith,
  eq_iff, eq_refl, lookup, insert, delete, Bool-cases, lookup-insert, lookup-delete, Option-cases,
  is_empty, str_eq, str-cases, append-nil, if◌then◌else◌,
}
use verustcode.Model.{Task}
use verustcode.Queue.{
  RepoQueue, RepoTaskQueue, task, enqueue, enqueue_as_running, repo_queue, push_back,
}
use verustcode.Queue.Dequeue.{Choice, take_recovered, take_pending}
use verustcode.Queue.Finish.{mark_complete, complete_repo}
use verustcode.Queue.Lookups.{IsRecovered, IsPending}

abbrev tasks_of : Option RepoQueue → List Task
tasks_of none = []
tasks_of (some rq) = rq.tasks

abbrev pub waiting : RepoTaskQueue → String → List Task
waiting q repo = tasks_of (lookup repo q.queues)

repo_queue-tasks : (q : RepoTaskQueue) (k : String) → (repo_queue q k).tasks ≡ waiting q k
repo_queue-tasks q k = elim (Option-cases (lookup k q.queues)) [
  | inl missing ↦ rw (missing, repo_queue, waiting)
  | inr (rq, stored) ↦ rw (stored, repo_queue, waiting)
]

-- A write of one queue is seen at its own repository only.
tasks-insert :
    (k j : String) (rq : RepoQueue) (qs : List (String × RepoQueue))
    → tasks_of (lookup j (insert k rq qs))
      ≡ (if str_eq k j then rq.tasks else tasks_of (lookup j qs))
tasks-insert k j rq qs = ground (arith, lookup-insert k j rq qs)

-- Writing a queue back with the tasks that it had changes nothing.
tasks-insert_same :
    (k j : String) (rq : RepoQueue) (qs : List (String × RepoQueue))
    → rq.tasks ≡ tasks_of (lookup k qs)
    → tasks_of (lookup j (insert k rq qs)) ≡ tasks_of (lookup j qs)
tasks-insert_same k j rq qs h = elim (str-cases k j) [
  | inl same ↦ rw (← same) (rw (lookup-insert, eq_refl k) h)
  | inr other ↦ rw (lookup-insert, other)
]

-- The list of the task, if it belongs to the repository.
abbrev pub own : String → Task → String → List Task
own repo t k = if str_eq repo k then t ∷ [] else []

tasks-push :
    (q : RepoTaskQueue) (t : Task) (repo k : String)
    → tasks_of (lookup k (insert repo (push_back t (repo_queue q repo)) q.queues))
      ≡ waiting q k ++ own repo t k
unfolding push_back
tasks-push q t repo k = elim (str-cases repo k) [
  | inl same ↦
      rw (lookup-insert, (eq_iff repo k).1 same)
        (ap (λ (ts : List Task). ts ++ (t ∷ []))
          (repo_queue-tasks q repo ∙ ap (λ (r : String). waiting q r) same))
  | inr other ↦ rw (lookup-insert, other) (sym (append-nil _))
]

-- An accepted task is the last of its repository; else nothing changes.
pub waiting-enqueue :
    (q : RepoTaskQueue) (t : Task) (k : String)
    → waiting (enqueue q (task t)).0 k
      ≡ waiting q k ++ (if (enqueue q (task t)).1 then own t.review.repo_url t k else [])
unfolding enqueue
waiting-enqueue q t k = elim (Option-cases (lookup t.review.id q.tasks_by_id)) [
  | inr (u, old) ↦ rw old (sym (append-nil _))
  | inl fresh ↦ rw fresh (tasks-push q t t.review.repo_url k)
]

pub waiting-enqueue_as_running :
    (q : RepoTaskQueue) (t : Task) (k : String)
    → waiting (enqueue_as_running q (task t)).0 k ≡ waiting q k
unfolding enqueue_as_running
waiting-enqueue_as_running q t k = elim (Option-cases (lookup t.review.id q.tasks_by_id)) [
  | inr (u, old) ↦ rw old
  | inl fresh ↦
      rw fresh
        (tasks-insert_same t.review.repo_url k _ q.queues (repo_queue-tasks q t.review.repo_url))
]

pub waiting-take_recovered :
    (q : RepoTaskQueue) (c : Choice) (k : String)
    → IsRecovered q c
    → waiting (take_recovered q c) k ≡ waiting q k
unfolding take_recovered
waiting-take_recovered q c k rec =
    tasks-insert_same c.repo k _ q.queues (sym (ap tasks_of rec.stored))

-- The task taken was the first of its repository.
pub waiting-take_pending :
    (q : RepoTaskQueue) (c : Choice) (k : String)
    → IsPending q c
    → waiting q k ≡ own c.repo c.task k ++ waiting (take_pending q c) k
unfolding take_pending
waiting-take_pending q c k pen = elim (str-cases c.repo k) [
  | inl same ↦
      rw (lookup-insert, (eq_iff c.repo k).1 same)
        (ap (λ (r : String). waiting q r) (sym same) ∙ ap tasks_of pen.stored ∙ pen.first)
  | inr other ↦ rw (lookup-insert, other)
]

tasks-delete_empty :
    (k j : String) (qs : List (String × RepoQueue))
    → tasks_of (lookup k qs) ≡ []
    → tasks_of (lookup j (delete k qs)) ≡ tasks_of (lookup j qs)
tasks-delete_empty k j qs h = elim (str-cases k j) [
  | inl same ↦
      rw (lookup-delete, (eq_iff k j).1 same)
        (sym (ap (λ (r : String). tasks_of (lookup r qs)) (sym same) ∙ h))
  | inr other ↦ rw (lookup-delete, other)
]

nil_of_empty : (ts : List Task) → is_empty ts ≡ true → ts ≡ []
nil_of_empty [] h = refl
nil_of_empty (t ∷ ts) h = cc

waiting-complete_repo :
    (q : RepoTaskQueue) (repo k : String) (rq : RepoQueue)
    → lookup repo q.queues ≡ some rq
    → waiting (complete_repo q repo rq) k ≡ waiting q k
unfolding complete_repo
waiting-complete_repo q repo k rq stored = elim (Bool-cases (is_empty rq.tasks)) [
  | inl empty ↦
      rw empty
        (tasks-delete_empty repo k q.queues (ap tasks_of stored ∙ nil_of_empty rq.tasks empty))
  | inr some_tasks ↦ rw some_tasks (tasks-insert_same repo k _ q.queues (sym (ap tasks_of stored)))
]

pub waiting-mark_complete :
    (q : RepoTaskQueue) (repo id : String) (k : String)
    → waiting (mark_complete q repo id) k ≡ waiting q k
unfolding mark_complete
waiting-mark_complete q repo id k = elim (Option-cases (lookup repo q.queues)) [
  | inl unknown ↦ rw (unknown, mark_complete)
  | inr (rq, stored) ↦
      rw (stored, mark_complete)
        (waiting-complete_repo (record q { tasks_by_id = delete id q.tasks_by_id }) repo k rq
          stored)
]
