-- ===== src/Queue/Again.antt =====
-- What `Enqueue` of internal/engine/queue.go does with the review that its repository is running.
use verustcode.Base.{
  String, true, false, none, some, List, ◌∷◌, ◌≡◌, ◌≢◌, refl, eq_refl, lookup, lookup-insert,
  str_eq_ne,
}
use verustcode.Model.{Task}
use verustcode.Queue.{RepoQueue, RepoTaskQueue, task, enqueue, push_back, repo_queue}
use verustcode.Queue.Dequeue.{recovered, find_recovered, dequeue}

-- The queue that a normal `Dequeue` of the task leaves for its repository.
pub record IsRunning (q : RepoTaskQueue) (t : Task) (rq : RepoQueue) : Type 0 where
  pub stored : lookup t.review.repo_url q.queues ≡ some rq
  pub running : rq.running ≡ true
  pub dequeued : rq.dequeued ≡ false
  pub current : rq.current_task_id ≡ t.review.id
  pub named : t.review.id ≢ ""
  pub unindexed : lookup t.review.id q.tasks_by_id ≡ none

enqueue-again :
    (q : RepoTaskQueue) (t : Task)
    → lookup t.review.id q.tasks_by_id ≡ none
    → ((enqueue q (task t)).1 ≡ true)
      × (lookup t.review.repo_url (enqueue q (task t)).0.queues
          ≡ some (push_back t (repo_queue q t.review.repo_url)))
      × (lookup t.review.id (enqueue q (task t)).0.tasks_by_id ≡ some t)
unfolding enqueue
enqueue-again q t unindexed =
    rw unindexed
      (refl, rw (lookup-insert, eq_refl t.review.repo_url), rw (lookup-insert, eq_refl t.review.id))

-- A running queue's current task, found in the index again, is taken for a recovered one.
recovered-current :
    (q : RepoTaskQueue) (rq : RepoQueue) (t : Task)
    → rq.running ≡ true
    → rq.dequeued ≡ false
    → rq.current_task_id ≡ t.review.id
    → t.review.id ≢ ""
    → lookup t.review.id q.tasks_by_id ≡ some t
    → recovered q rq ≡ some t
unfolding recovered
recovered-current q rq t running dequeued current named indexed =
    rw (running, dequeued, current, str_eq_ne t.review.id "" named) indexed

find_recovered-first :
    (q : RepoTaskQueue) (rq : RepoQueue) (t : Task) (repo : String) (order : List String)
    → lookup repo q.queues ≡ some rq
    → recovered q rq ≡ some t
    → find_recovered q (repo ∷ order) ≡ some (record { repo = repo; queue = rq; task = t })
unfolding find_recovered
find_recovered-first q rq t repo order stored found = rw (stored, found, find_recovered)

dequeue-first :
    (q : RepoTaskQueue) (rq : RepoQueue) (t : Task) (repo : String) (order order' : List String)
    → lookup repo q.queues ≡ some rq
    → recovered q rq ≡ some t
    → (dequeue q (repo ∷ order) order').1 ≡ some t
unfolding dequeue
dequeue-first q rq t repo order order' stored found =
    rw (find_recovered-first q rq t repo order stored found, dequeue)

-- While a task with a nonempty id is running that `Dequeue` took from the waiting ones, which leaves
-- `dequeued` unset and the index without the id, `Enqueue` accepts its review again, and a `Dequeue`
-- whose first loop visits that repository first hands the task out again, although it has not been
-- completed.
pub enqueue-hands_out_again :
    (q : RepoTaskQueue) (t : Task) (rq : RepoQueue) (order order' : List String)
    → IsRunning q t rq
    → ((enqueue q (task t)).1 ≡ true)
      × ((dequeue (enqueue q (task t)).0 (t.review.repo_url ∷ order) order').1 ≡ some t)
unfolding push_back
enqueue-hands_out_again q t rq order order' h =
    let (accepted, stored, indexed) = enqueue-again q t h.unindexed in
    let rq' = push_back t (repo_queue q t.review.repo_url) in
    let q' = (enqueue q (task t)).0 in
    (
      accepted,
      dequeue-first q' rq' t t.review.repo_url order order' stored (
          recovered-current q' rq' t (rw (h.stored, repo_queue) h.running)
            (rw (h.stored, repo_queue) h.dequeued) (rw (h.stored, repo_queue) h.current) h.named
            indexed),
    )
