-- ===== src/Recovery/Placed.antt =====
-- Where the queue of internal/engine/queue.go keeps a task that recovery has put into it.
use verustcode.Base.{
  String, Bool, true, false, none, some, List, [], ◌∷◌, ◌++◌, ◌≡◌, ◌≢◌, ◌⊎◌, inl, inr, refl, arith,
  eq_iff, eq_refl, lookup, insert, lookup-insert, Bool-cases, str-cases,
}
use verustcode.Model.{Task}
use verustcode.Queue.{
  RepoQueue, RepoTaskQueue, task, enqueue, enqueue_as_running, is_some, push_back, repo_queue,
}
use verustcode.Recovery.{is_running}

abbrev pub Member : Task → List Task → Type 0
Member t [] = ⊥
Member t (u ∷ us) = (t ≡ u) ⊎ Member t us

-- The place of a task in its repository's queue. That of a review that was running, which is `true`:
-- the repository runs it and has yet to hand it out again. That of another: it waits in the list.
abbrev pub HasPlace : Bool → Task → RepoQueue → Type 0
HasPlace true t rq =
    (rq.running ≡ true) × (rq.dequeued ≡ false) × (rq.current_task_id ≡ t.review.id)
HasPlace false t rq = Member t rq.tasks

-- The index has the task under its id, and its repository's queue has it in its place.
abbrev pub IsPlaced : RepoTaskQueue → Task → Type 0
IsPlaced q t =
    (lookup t.review.id q.tasks_by_id ≡ some t)
    × (rq : RepoQueue) × (lookup t.review.repo_url q.queues ≡ some rq)
    × HasPlace (is_running t.review.status) t rq

Member-last : (t : Task) (ts : List Task) → Member t (ts ++ (t ∷ []))
Member-last t [] = inl refl
Member-last t (u ∷ us) = inr (Member-last t us)

Member-more : (t u : Task) (ts : List Task) → Member t ts → Member t (ts ++ (u ∷ []))
Member-more t u [] h = absurd h
Member-more t u (v ∷ ts) (inl this) = inl this
Member-more t u (v ∷ ts) (inr later) = inr (Member-more t u ts later)

push_back-HasPlace :
    (busy : Bool) (t u : Task) (rq : RepoQueue)
    → HasPlace busy t rq
    → HasPlace busy t (push_back u rq)
unfolding push_back
push_back-HasPlace true t u rq h = h
push_back-HasPlace false t u rq h = Member-more t u rq.tasks h

-- What `EnqueueAsRunning` makes of a queue.
abbrev run_again : Task → RepoQueue → RepoQueue
run_again u rq = record rq { running = true; current_task_id = u.review.id; dequeued = false }

run_again-HasPlace :
    (busy : Bool) (t u : Task) (rq : RepoQueue)
    → ¬ (busy ≡ true)
    → HasPlace busy t rq
    → HasPlace busy t (run_again u rq)
run_again-HasPlace true t u rq never h = absurd (never refl)
run_again-HasPlace false t u rq never h = h

lookup-insert_fresh :
    (t u : Task) (index : List (String × Task))
    → is_some (lookup u.review.id index) ≡ false
    → lookup t.review.id index ≡ some t
    → lookup t.review.id (insert u.review.id u index) ≡ some t
lookup-insert_fresh t u index fresh there = elim (str-cases u.review.id t.review.id) [
  | inl same ↦
      let gone : is_some (lookup t.review.id index) ≡ false = (rw same at fresh) in
      absurd (ground arith)
  | inr other ↦ rw (lookup-insert, other) there
]

-- A change of one repository's queue that keeps what holds of a queue.
insert-keeps :
    (P : RepoQueue → Type 0) (f : RepoQueue → RepoQueue) (q : RepoTaskQueue) (key asked : String)
    → (key ≡ asked → (rq : RepoQueue) → P rq → P (f rq))
    → (rq : RepoQueue) × (lookup asked q.queues ≡ some rq) × P rq
    → (rq : RepoQueue) × (lookup asked (insert key (f (repo_queue q key)) q.queues) ≡ some rq)
      × P rq
insert-keeps P f q key asked keeps (rq, stored, holds) = elim (str-cases key asked) [
  | inl same ↦
      let own : repo_queue q key ≡ rq = rw (same, stored, repo_queue) refl in
      (f rq, rw (own, lookup-insert, (eq_iff key asked).1 same) refl, keeps same rq holds)
  | inr other ↦ (rq, rw (lookup-insert, other) stored, holds)
]

pub enqueue-IsPlaced :
    (q : RepoTaskQueue) (t u : Task) → IsPlaced q t → IsPlaced (enqueue q (task u)).0 t
unfolding enqueue push_back
enqueue-IsPlaced q t u (there, rq, stored, placed) =
    elim (Bool-cases (is_some (lookup u.review.id q.tasks_by_id))) [
      | inl old ↦ rw old (there, rq, stored, placed)
      | inr fresh ↦
          let (rq', stored', placed') =
            insert-keeps (HasPlace (is_running t.review.status) t) (push_back u) q u.review.repo_url
              t.review.repo_url (λ same rq. push_back-HasPlace (is_running t.review.status) t u rq)
              (rq, stored, placed) in
          rw fresh (lookup-insert_fresh t u q.tasks_by_id fresh there, rq', stored', placed')
    ]

pub enqueue_as_running-IsPlaced :
    (q : RepoTaskQueue) (t u : Task)
    → (is_running t.review.status ≡ true → u.review.repo_url ≢ t.review.repo_url)
    → IsPlaced q t
    → IsPlaced (enqueue_as_running q (task u)).0 t
unfolding enqueue_as_running
enqueue_as_running-IsPlaced q t u apart (there, rq, stored, placed) =
    elim (Bool-cases (is_some (lookup u.review.id q.tasks_by_id))) [
      | inl old ↦ rw old (there, rq, stored, placed)
      | inr fresh ↦
          let (rq', stored', placed') =
            insert-keeps (HasPlace (is_running t.review.status) t) (run_again u) q u.review.repo_url
              t.review.repo_url
              (λ same rq.
                run_again-HasPlace (is_running t.review.status) t u rq (λ busy. apart busy same))
              (rq, stored, placed) in
          rw fresh (lookup-insert_fresh t u q.tasks_by_id fresh there, rq', stored', placed')
    ]

lookup-insert_own :
    {V : Type 0} (key : String) (v : V) (m : List (String × V))
    → lookup key (insert key v m) ≡ some v
lookup-insert_own key v m = rw (lookup-insert, eq_refl key) refl

-- A task whose id is not in the index yet gets its place.
pub enqueue_places :
    (q : RepoTaskQueue) (t : Task)
    → is_running t.review.status ≡ false
    → lookup t.review.id q.tasks_by_id ≡ none
    → IsPlaced (enqueue q (task t)).0 t
unfolding enqueue push_back
enqueue_places q t idle fresh =
    rw (fresh, idle)
      (
        lookup-insert_own t.review.id t q.tasks_by_id,
        _,
        lookup-insert_own t.review.repo_url (push_back t (repo_queue q t.review.repo_url)) q.queues,
        Member-last t (repo_queue q t.review.repo_url).tasks,
      )

pub enqueue_as_running_places :
    (q : RepoTaskQueue) (t : Task)
    → is_running t.review.status ≡ true
    → lookup t.review.id q.tasks_by_id ≡ none
    → IsPlaced (enqueue_as_running q (task t)).0 t
unfolding enqueue_as_running
enqueue_as_running_places q t busy fresh =
    rw (fresh, busy)
      (
        lookup-insert_own t.review.id t q.tasks_by_id,
        _,
        lookup-insert_own t.review.repo_url (run_again t (repo_queue q t.review.repo_url)) q.queues,
        (refl, refl, refl),
      )
