-- ===== src/Retry/Reachable.antt =====
-- `Retry` of internal/engine/retry/handler.go as a step of the queue that it adds to: the check by
-- `HasTask` keeps a review in flight from being submitted again.
use verustcode.Base.{
  String, true, false, none, some, List, [], ◌∷◌, ◌≡◌, inl, inr, refl, sym, subst, arith, eq_iff,
  All, Bool-cases, Option-cases, lookup, str_eq,
}
use verustcode.Model.{Task}
use verustcode.Queue.{RepoQueue, RepoTaskQueue, is_some}
use verustcode.Queue.Finish.{has_task, find_current}
use verustcode.Queue.Progress.{IsVisited}
use verustcode.Schedule.{System, Pick, here, there, OtherId, OtherRepo, start, submit, Reach, next}
use verustcode.Schedule.Invariant.{Inv, Serves}
use verustcode.Schedule.Complete.{picked, Flies-picked}
use verustcode.Schedule.Serial.{Reach-Inv}
use verustcode.Store.{Database}
use verustcode.Retry.{Handler, Engine, Answer, retry}
use verustcode.Retry.Refused.{Kept, retry-Kept}
use verustcode.Retry.Queued.{Retried, retry-Retried}

find_current-finds :
    (q : RepoTaskQueue) (id : String) (order : List String) (repo : String) (rq : RepoQueue)
    → IsVisited repo order
    → lookup repo q.queues ≡ some rq
    → rq.current_task_id ≡ id
    → is_some (find_current q id order) ≡ true
unfolding find_current
find_current-finds q id [] repo rq visited stored own = absurd visited
find_current-finds q id (j ∷ order) repo rq visited stored own =
    elim (Option-cases (lookup j q.queues)) [
      | inl missing ↦ elim visited [
        | inl this ↦ absurd (ground arith)
        | inr later ↦
            rw (missing, find_current) (find_current-finds q id order repo rq later stored own)
      ]
      | inr (rq', held) ↦ elim (Bool-cases (str_eq rq'.current_task_id id)) [
        | inl same ↦ rw (held, same, find_current)
        | inr other ↦ elim visited [
          | inl this ↦ absurd (ground (arith, eq_iff rq.current_task_id id))
          | inr later ↦
              rw (held, other, find_current)
                (find_current-finds q id order repo rq later stored own)
        ]
      ]
    ]

All-picks {ℓ} :
    (P : Task → Type ℓ) (fs : List Task)
    → ((t : Task) (rest : List Task) → Pick t fs rest → P t)
    → All P fs
All-picks P [] h = tt
All-picks P (t ∷ fs) h = (h t fs here, All-picks P fs (λ u rest p. h u (t ∷ rest) (there p)))

module _ (s : System) (inv : Inv s) (order : List String)
    (visits : (repo : String) (rq : RepoQueue)
      → lookup repo s.queue.queues ≡ some rq
      → IsVisited repo order) where
  -- The queue of a task in flight names it.
  current_of :
      {t : Task} {rest : List Task} (p : Pick t s.in_flight rest) (rq : RepoQueue)
      → Serves t.review.repo_url s.queue.tasks_by_id s.in_flight rq
      → rq.current_task_id ≡ t.review.id
  current_of {t} p rq h = elim (Bool-cases rq.running) [
    | inr idle ↦ absurd ((picked (OtherRepo t.review.repo_url) p (h.idle idle)).0 refl)
    | inl running ↦ elim (h.busy running) [
      | inl (entry, others, out) ↦ absurd ((picked (OtherRepo t.review.repo_url) p out).0 refl)
      | inr (flies, missing) ↦ sym (Flies-picked rq.current_task_id p inv.one_each flies)
    ]
  ]

  has_task-flying :
      {t : Task} {rest : List Task} (p : Pick t s.in_flight rest)
      → is_some (find_current s.queue t.review.id order) ≡ true
  has_task-flying {t} p = elim (Option-cases (lookup t.review.repo_url s.queue.queues)) [
    | inl unknown ↦ absurd (
        (picked (OtherRepo t.review.repo_url) p (rw unknown at (inv.each t.review.repo_url))).0
          refl)
    | inr (rq, stored) ↦
        find_current-finds s.queue t.review.id order t.review.repo_url rq
          (visits t.review.repo_url rq stored) stored
          (current_of p rq (rw stored at (inv.each t.review.repo_url)))
  ]

  -- A review that `HasTask` does not find is not in flight.
  has_task-apart : (id : String) → has_task s.queue id order ≡ false → All (OtherId id) s.in_flight
  unfolding has_task
  has_task-apart id absent = All-picks (OtherId id) s.in_flight (λ t rest p e.
      let found : is_some (find_current s.queue id order) ≡ true =
        subst (λ (j : String). is_some (find_current s.queue j order) ≡ true) e
          (has_task-flying p) in
      elim (Bool-cases (is_some (lookup id s.queue.tasks_by_id))) [
        | inl a ↦ absurd (ground arith)
        | inr b ↦ absurd (ground arith)
      ])

retry-step :
    (order : List String) (id : String) (s : System) (db : Database) (reply : Answer)
    → Inv s
    → ((repo : String) (rq : RepoQueue)
        → lookup repo s.queue.queues ≡ some rq
        → IsVisited repo order)
    → Reach start s
    → Kept (record { queue = s.queue; database = db }) reply
    → Retried order id (record { queue = s.queue; database = db }) reply
    → Reach start (record s { queue = reply.0.queue })
retry-step order id s db (st', some e) inv visits reached (same, out) done =
    subst (λ (q : RepoTaskQueue). Reach start (record s { queue = q })) (sym same) reached
retry-step order id s db (st', none) inv visits reached kept
      (review, found, over, absent, (t, named, same), reset) =
    let apart : All (OtherId t.review.id) s.in_flight =
      subst (λ (j : String). All (OtherId j) s.in_flight) (sym named)
        (has_task-apart s inv order visits id absent) in
    subst (λ (q : RepoTaskQueue). Reach start (record s { queue = q })) (sym same)
      (next reached (submit t apart))

-- `Retry` keeps to the rules of the queue, also while reviews are being executed: from a state that
-- the system can reach it goes to one that the system can reach, whatever the database does,
-- provided that the check by `HasTask` goes through every repository that has a queue. So every
-- guarantee about reachable states goes on to hold.
pub retry-Reach :
    (h : Handler) (order : List String) (id : String) (s : System) (db : Database)
    → ((repo : String) (rq : RepoQueue)
        → lookup repo s.queue.queues ≡ some rq
        → IsVisited repo order)
    → Reach start s
    → Reach start (record s {
      queue = (retry h order id (record { queue = s.queue; database = db })).0.queue;
    })
retry-Reach h order id s db visits reached =
    let st : Engine = record { queue = s.queue; database = db } in
    retry-step order id s db (retry h order id st) (Reach-Inv reached) visits reached
      (retry-Kept h order id st) (retry-Retried h order id st)
