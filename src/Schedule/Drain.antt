-- ===== src/Schedule/Drain.antt =====
-- The loop of `tryDispatch`, internal/engine/dispatcher.go: it takes tasks off the queue until there
-- are none. The workers are taken to accept every task, and the context not to be cancelled.
use verustcode.Base.{
  ℕ, zero, suc, ◌+◌, ◌*◌, ◌≤◌, ◌<◌, String, Bool, true, false, Option, none, some, List, [], ◌∷◌,
  ◌≡◌, inl, inr, refl, ap, arith, eq_iff, Option-cases, lookup, insert, length, sum_by, ◌&&◌, not,
  str-cases, if◌then◌else◌,
}
use verustcode.Model.{Task}
use verustcode.Queue.{RepoQueue, RepoTaskQueue}
use verustcode.Queue.Dequeue.{Choice, dequeue, take_recovered, take_pending, drop_front}
use verustcode.Queue.Lookups.{IsRecovered, IsPending, dequeue-IsRecovered}

-- The queue left, the tasks sent to the workers, and whether `Dequeue` found no more.
pub record Drained : Type 0 where
  pub queue : RepoTaskQueue
  pub sent : List Task
  pub finished : Bool

abbrev pub send : Task → Drained → Drained
send t d = record d { sent = t ∷ d.sent }

-- The loop, for at most so many calls of `Dequeue`; each call goes through the maps in its orders.
unfoldable pub try_dispatch : ℕ → (ℕ → List String × List String) → RepoTaskQueue → Drained
try_dispatch zero orders q = record { queue = q; sent = []; finished = false }
try_dispatch (suc fuel) orders q =
    let (q', found) = dequeue q (orders fuel).0 (orders fuel).1 in
    elim found [
      | none ↦ record { queue = q'; sent = []; finished = true }
      | some t ↦ send t (try_dispatch fuel orders q')
    ]

-- The calls that a repository's queue can still answer: two for a pending task, since a running
-- repository may be taken for a recovered one, and one for a running task not marked as handed out.
abbrev pub calls_left : RepoQueue → ℕ
calls_left rq = 2 * length rq.tasks + (if rq.running && not rq.dequeued then 1 else 0)

abbrev pub entry_calls : String × RepoQueue → ℕ
entry_calls (repo, rq) = calls_left rq

abbrev pub work : RepoTaskQueue → ℕ
work q = sum_by entry_calls q.queues

sum-insert :
    (k : String) (old new : RepoQueue) (m : List (String × RepoQueue))
    → lookup k m ≡ some old
    → sum_by entry_calls (insert k new m) + calls_left old ≡ sum_by entry_calls m + calls_left new
unfolding lookup insert
sum-insert k old new [] h = cc
sum-insert k old new ((j, rq) ∷ m) h = elim (str-cases j k) [
  | inl same ↦
      let this : rq ≡ old = ground (arith, eq_iff j k) in
      rw ((eq_iff j k).1 same, this) (omega arith)
  | inr other ↦
      let there : lookup k m ≡ some old = ground arith in
      rw other (omega (arith, sum-insert k old new m there))
]

take_recovered-work :
    (q : RepoTaskQueue) (c : Choice) → IsRecovered q c → work (take_recovered q c) < work q
unfolding take_recovered
take_recovered-work q c rec =
    let h = sum-insert c.repo c.queue (record c.queue { dequeued = true }) q.queues rec.stored in
    let before : calls_left c.queue ≡ 2 * length c.queue.tasks + 1 =
      rw (rec.running, rec.waiting) refl in
    let after : calls_left (record c.queue { dequeued = true }) ≡ 2 * length c.queue.tasks =
      rw rec.running (omega arith) in
    omega (arith, h, before, after)

take_pending-work :
    (q : RepoTaskQueue) (c : Choice) → IsPending q c → work (take_pending q c) < work q
unfolding take_pending
take_pending-work q c pen =
    let left : RepoQueue = record c.queue {
      tasks = drop_front c.queue.tasks;
      running = true;
      current_task_id = c.task.review.id;
    } in
    let h = sum-insert c.repo c.queue left q.queues pen.stored in
    let one_less : length c.queue.tasks ≡ suc (length (drop_front c.queue.tasks)) =
      ap length pen.first in
    let after : calls_left left ≤ 2 * length (drop_front c.queue.tasks) + 1 = ground arith in
    omega (arith, h, one_less, after)

-- Each call that hands out a task leaves less to do.
dequeue-work :
    (q q' : RepoTaskQueue) (order order' : List String) (t : Task)
    → dequeue q order order' ≡ (q', some t)
    → work q' < work q
dequeue-work q q' order order' t h = elim (dequeue-IsRecovered q q' order order' t h) [
  | inl (again, (c, rec, same, same_task)) ↦ rw same (take_recovered-work q c rec)
  | inr (first, (c, pen, same, same_task)) ↦ rw same (take_pending-work q c pen)
]

-- `tryDispatch` ends: whatever the orders, it has no task left to take after at most one call of
-- `Dequeue` more than the work that the queue holds, and it sends at most so many tasks.
pub try_dispatch-finishes :
    (fuel : ℕ) (orders : ℕ → List String × List String) (q : RepoTaskQueue)
    → work q < fuel
    → ((try_dispatch fuel orders q).finished ≡ true)
      × (length (try_dispatch fuel orders q).sent ≤ work q)
unfolding try_dispatch
try_dispatch-finishes zero orders q enough = absurd (omega (arith, enough))
try_dispatch-finishes (suc fuel) orders q enough =
    let called = dequeue q (orders fuel).0 (orders fuel).1 in
    elim (Option-cases called.1) [
      | inl empty ↦ rw (empty, try_dispatch) (refl, omega arith)
      | inr (t, found) ↦
          let less : work called.0 < work q =
            dequeue-work q called.0 (orders fuel).0 (orders fuel).1 t
              (ap (λ (o : Option Task). (called.0, o)) found) in
          let (done, few) =
            try_dispatch-finishes fuel orders called.0 (omega (arith, less, enough)) in
          rw (found, try_dispatch) (done, omega (arith, few, less))
    ]
