-- ===== src/Queue/Progress.antt =====
-- The searches of `Dequeue`, internal/engine/queue.go, at a queue that has a task to hand out.
use verustcode.Base.{
  String, true, some, List, [], ◌∷◌, ◌≡◌, ◌⊎◌, ◌↔◌, inl, inr, refl, arith, Option-cases, lookup,
  str_eq_ne,
}
use verustcode.Queue.{RepoQueue, RepoTaskQueue, is_some}
use verustcode.Queue.Dequeue.{
  Choice, recovered, find_recovered, next_pending, find_pending, dequeue,
}
use verustcode.Queue.Lookups.{
  IsRecovered, IsPending, find_recovered-IsRecovered, find_pending-IsPending,
}

-- The key is among those that the loop goes through.
abbrev pub IsVisited : String → List String → Type 0
IsVisited k [] = ⊥
IsVisited k (j ∷ js) = (j ≡ k) ⊎ IsVisited k js

-- Something to hand out: the first loop visits a repository that runs a recovered task which was not
-- handed out, or the second visits an idle one with a task.
abbrev pub HasWork : RepoTaskQueue → List String → List String → Type 0
HasWork q order order' =
    (c : Choice) × ((IsVisited c.repo order × IsRecovered q c)
      ⊎ (IsVisited c.repo order' × IsPending q c))

recovered-there :
    (q : RepoTaskQueue) (c : Choice) → IsRecovered q c → is_some (recovered q c.queue) ≡ true
unfolding recovered
recovered-there q c h =
    rw (h.running, h.waiting, str_eq_ne c.queue.current_task_id "" h.named, h.indexed) refl

pending-there :
    (q : RepoTaskQueue) (c : Choice)
    → IsPending q c
    → is_some (next_pending c.queue.running c.queue.tasks) ≡ true
unfolding next_pending
pending-there q c h = rw (h.idle, h.first) refl

find_recovered-IsVisited :
    (q : RepoTaskQueue) (order : List String) (c : Choice)
    → find_recovered q order ≡ some c
    → IsVisited c.repo order
unfolding find_recovered
find_recovered-IsVisited q [] c h = cc
find_recovered-IsVisited q (repo ∷ repos) c h = elim (Option-cases (lookup repo q.queues)) [
  | inl missing ↦ inr (find_recovered-IsVisited q repos c (rw (missing, find_recovered) at h))
  | inr (rq, stored) ↦ elim (Option-cases (recovered q rq)) [
    | inl nothing ↦ inr (find_recovered-IsVisited q repos c (ground arith))
    | inr (t, found) ↦ inl (ground arith)
  ]
]

find_pending-IsVisited :
    (q : RepoTaskQueue) (order : List String) (c : Choice)
    → find_pending q order ≡ some c
    → IsVisited c.repo order
unfolding find_pending
find_pending-IsVisited q [] c h = cc
find_pending-IsVisited q (repo ∷ repos) c h = elim (Option-cases (lookup repo q.queues)) [
  | inl missing ↦ inr (find_pending-IsVisited q repos c (ground arith))
  | inr (rq, stored) ↦ elim (Option-cases (next_pending rq.running rq.tasks)) [
    | inl nothing ↦ inr (find_pending-IsVisited q repos c (ground arith))
    | inr (t, found) ↦ inl (ground arith)
  ]
]

find_recovered-finds :
    (q : RepoTaskQueue) (order : List String) (repo : String) (rq : RepoQueue)
    → IsVisited repo order
    → lookup repo q.queues ≡ some rq
    → is_some (recovered q rq) ≡ true
    → is_some (find_recovered q order) ≡ true
unfolding find_recovered
find_recovered-finds q [] repo rq visited stored has = absurd visited
find_recovered-finds q (j ∷ order) repo rq visited stored has =
    elim (Option-cases (lookup j q.queues)) [
      | inl missing ↦ elim visited [
        | inl this ↦ absurd (ground arith)
        | inr later ↦
            rw (missing, find_recovered) (find_recovered-finds q order repo rq later stored has)
      ]
      | inr (rq', there) ↦ elim (Option-cases (recovered q rq')) [
        | inr (t, found) ↦ rw (there, found, find_recovered)
        | inl nothing ↦ elim visited [
          | inl this ↦ absurd (ground arith)
          | inr later ↦
              rw (there, nothing, find_recovered)
                (find_recovered-finds q order repo rq later stored has)
        ]
      ]
    ]

find_pending-finds :
    (q : RepoTaskQueue) (order : List String) (repo : String) (rq : RepoQueue)
    → IsVisited repo order
    → lookup repo q.queues ≡ some rq
    → is_some (next_pending rq.running rq.tasks) ≡ true
    → is_some (find_pending q order) ≡ true
unfolding find_pending
find_pending-finds q [] repo rq visited stored has = absurd visited
find_pending-finds q (j ∷ order) repo rq visited stored has =
    elim (Option-cases (lookup j q.queues)) [
      | inl missing ↦ elim visited [
        | inl this ↦ absurd (ground arith)
        | inr later ↦
            rw (missing, find_pending) (find_pending-finds q order repo rq later stored has)
      ]
      | inr (rq', there) ↦ elim (Option-cases (next_pending rq'.running rq'.tasks)) [
        | inr (t, found) ↦ rw (there, found, find_pending)
        | inl nothing ↦ elim visited [
          | inl this ↦ absurd (ground arith)
          | inr later ↦
              rw (there, nothing, find_pending)
                (find_pending-finds q order repo rq later stored has)
        ]
      ]
    ]

dequeue-finds :
    (q : RepoTaskQueue) (order order' : List String)
    → HasWork q order order'
    → is_some (dequeue q order order').1 ≡ true
unfolding dequeue
dequeue-finds q order order' (c, has) = elim (Option-cases (find_recovered q order)) [
  | inr (d, found) ↦ rw (found, dequeue)
  | inl nothing ↦ elim has [
    | inl (visited, again) ↦
        let h : is_some (find_recovered q order) ≡ true =
          find_recovered-finds q order c.repo c.queue visited again.stored
            (recovered-there q c again) in
        absurd (ground arith)
    | inr (visited, ready) ↦
        let h : is_some (find_pending q order') ≡ true =
          find_pending-finds q order' c.repo c.queue visited ready.stored
            (pending-there q c ready) in
        elim (Option-cases (find_pending q order')) [
          | inl empty ↦ absurd (ground arith)
          | inr (d, found) ↦ rw (nothing, found, dequeue)
        ]
  ]
]

dequeue-HasWork :
    (q : RepoTaskQueue) (order order' : List String)
    → is_some (dequeue q order order').1 ≡ true
    → HasWork q order order'
unfolding dequeue
dequeue-HasWork q order order' h = elim (Option-cases (find_recovered q order)) [
  | inr (c, found) ↦ (
    c,
    inl (find_recovered-IsVisited q order c found, find_recovered-IsRecovered q order c found),
  )
  | inl nothing ↦ elim (Option-cases (find_pending q order')) [
    | inl empty ↦ absurd (ground arith)
    | inr (c, found) ↦
        (c, inr (find_pending-IsVisited q order' c found, find_pending-IsPending q order' c found))
  ]
]

-- `Dequeue` hands out a task exactly when there is something to hand out: its first loop visits a
-- repository that is running a recovered task which was not handed out, has a name and is in the
-- index, or its second loop visits a repository that is not running and has a task.
pub dequeue-progress :
    (q : RepoTaskQueue) (order order' : List String)
    → (is_some (dequeue q order order').1 ≡ true) ↔ HasWork q order order'
dequeue-progress q order order' = (dequeue-HasWork q order order', dequeue-finds q order order')
