-- ===== src/Queue/Lookups.antt =====
-- What a search in internal/engine/queue.go finds, and what an update of the maps leaves.
use verustcode.Base.{
  String, Bool, true, false, some, List, [], ◌∷◌, ◌≡◌, ◌⊎◌, inl, inr, arith, ◌≢◌, eq_iff,
  Option-cases, lookup,
}
use verustcode.Model.{Task}
use verustcode.Queue.{RepoTaskQueue, is_some}
use verustcode.Queue.Dequeue.{
  Choice, recovered, find_recovered, take_recovered, next_pending, find_pending, drop_front,
  take_pending, dequeue,
}

pub record IsRecovered (q : RepoTaskQueue) (c : Choice) : Type 0 where
  pub stored : lookup c.repo q.queues ≡ some c.queue
  pub running : c.queue.running ≡ true
  pub waiting : c.queue.dequeued ≡ false
  pub named : c.queue.current_task_id ≢ ""
  pub indexed : lookup c.queue.current_task_id q.tasks_by_id ≡ some c.task

pub record IsPending (q : RepoTaskQueue) (c : Choice) : Type 0 where
  pub stored : lookup c.repo q.queues ≡ some c.queue
  pub idle : c.queue.running ≡ false
  pub first : c.queue.tasks ≡ c.task ∷ drop_front c.queue.tasks

recovered-IsRecovered :
    (q : RepoTaskQueue) (c : Choice)
    → lookup c.repo q.queues ≡ some c.queue
    → recovered q c.queue ≡ some c.task
    → IsRecovered q c
unfolding recovered
recovered-IsRecovered q c stored h = record {
  stored = stored;
  running = ground arith;
  waiting = ground arith;
  named = ground (arith, eq_iff c.queue.current_task_id "");
  indexed = ground arith;
}

pub find_recovered-IsRecovered :
    (q : RepoTaskQueue) (order : List String) (c : Choice)
    → find_recovered q order ≡ some c
    → IsRecovered q c
unfolding find_recovered
find_recovered-IsRecovered q [] c h = cc
find_recovered-IsRecovered q (repo ∷ repos) c h = elim (Option-cases (lookup repo q.queues)) [
  | inl missing ↦ find_recovered-IsRecovered q repos c (rw (missing, find_recovered) at h)
  | inr (rq, stored) ↦ elim (Option-cases (recovered q rq)) [
    | inl nothing ↦ find_recovered-IsRecovered q repos c (ground arith)
    | inr (t, found) ↦ recovered-IsRecovered q c (ground arith) (ground arith)
  ]
]

next_pending-first :
    (running : Bool) (tasks : List Task) (t : Task)
    → next_pending running tasks ≡ some t
    → (running ≡ false) × (tasks ≡ t ∷ drop_front tasks)
unfolding next_pending
next_pending-first true tasks t h = cc
next_pending-first false [] t h = cc
next_pending-first false (u ∷ tasks) t h = ground arith

pub find_pending-IsPending :
    (q : RepoTaskQueue) (order : List String) (c : Choice)
    → find_pending q order ≡ some c
    → IsPending q c
unfolding find_pending
find_pending-IsPending q [] c h = cc
find_pending-IsPending q (repo ∷ repos) c h = elim (Option-cases (lookup repo q.queues)) [
  | inl missing ↦ find_pending-IsPending q repos c (ground arith)
  | inr (rq, stored) ↦ elim (Option-cases (next_pending rq.running rq.tasks)) [
    | inl nothing ↦ find_pending-IsPending q repos c (ground arith)
    | inr (t, found) ↦ ground (arith, next_pending-first rq.running rq.tasks t)
  ]
]

-- `Dequeue` hands out a recovered task, or the first task of an idle repository.
pub data Handed (q : RepoTaskQueue) (q' : RepoTaskQueue) (t : Task) : Type 0 where
  again : (c : Choice) → IsRecovered q c → q' ≡ take_recovered q c → t ≡ c.task → Handed q q' t
  first : (c : Choice) → IsPending q c → q' ≡ take_pending q c → t ≡ c.task → Handed q q' t

pub dequeue-Handed :
    (q q' : RepoTaskQueue) (order order' : List String) (t : Task)
    → dequeue q order order' ≡ (q', some t)
    → Handed q q' t
unfolding dequeue
dequeue-Handed q q' order order' t h = elim (Option-cases (find_recovered q order)) [
  | inl nothing ↦ elim (Option-cases (find_pending q order')) [
    | inl empty ↦ absurd (ground arith)
    | inr (c, found) ↦
        first c (find_pending-IsPending q order' c found) (ground arith) (ground arith)
  ]
  | inr (c, found) ↦
      again c (find_recovered-IsRecovered q order c found) (ground arith) (ground arith)
]

-- Which of the two it was is told by the first search.
pub dequeue-IsRecovered :
    (q q' : RepoTaskQueue) (order order' : List String) (t : Task)
    → dequeue q order order' ≡ (q', some t)
    → ((is_some (find_recovered q order) ≡ true)
        × ((c : Choice) × IsRecovered q c × (q' ≡ take_recovered q c) × (t ≡ c.task)))
      ⊎ ((is_some (find_recovered q order) ≡ false)
          × ((c : Choice) × IsPending q c × (q' ≡ take_pending q c) × (t ≡ c.task)))
unfolding dequeue
dequeue-IsRecovered q q' order order' t h = elim (Option-cases (find_recovered q order)) [
  | inl nothing ↦ elim (Option-cases (find_pending q order')) [
    | inl empty ↦ absurd (ground arith)
    | inr (c, found) ↦
        inr (rw nothing, (c, find_pending-IsPending q order' c found, ground arith, ground arith))
  ]
  | inr (c, found) ↦
      inl (rw found, (c, find_recovered-IsRecovered q order c found, ground arith, ground arith))
]
