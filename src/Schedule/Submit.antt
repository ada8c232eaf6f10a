-- ===== src/Schedule/Submit.antt =====
-- `Enqueue` and `EnqueueAsRunning` of internal/engine/queue.go and the invariant.
use verustcode.Base.{
  String, true, false, Option, none, some, List, [], ◌∷◌, ◌++◌, ◌≡◌, ◌≢◌, inl, inr, refl, sym, ◌∙◌,
  arith, eq_iff, eq_refl, All, All-append, All-map, lookup, insert, lookup-insert, str-cases,
  Option-cases,
}
use verustcode.Model.{Task}
use verustcode.Queue.{
  RepoQueue, RepoTaskQueue, task, enqueue, enqueue_as_running, push_back, empty_repo_queue,
  repo_queue, Signals,
}
use verustcode.Schedule.{System, HasId, OtherId, OtherRepo}
use verustcode.Schedule.Invariant.{
  IsFiled, DistinctIds, Flies, Serves, EntryOk, Inv, EntryOk-index, each-insert, lookup-insert_ne,
  key_ne,
}

Flies-ne :
    (repo id own : String) (fs : List Task) → All (OtherId own) fs → Flies repo id fs → own ≢ id
Flies-ne repo id own [] a f = elim f [ ]
Flies-ne repo id own (u ∷ fs) a (inl h) = λ p. a.0 (h.1 ∙ sym p)
Flies-ne repo id own (u ∷ fs) a (inr h) = Flies-ne repo id own fs a.1 h

DistinctIds-append :
    (t : Task) (ts : List Task)
    → All (λ u. u.review.id ≢ t.review.id) ts
    → DistinctIds ts
    → DistinctIds (ts ++ (t ∷ []))
DistinctIds-append t [] a d = (tt, tt)
DistinctIds-append t (u ∷ ts) a d = (
  All-append (OtherId u.review.id) ts (t ∷ []) d.0 ((λ p. a.0 (sym p)), tt),
  DistinctIds-append t ts a.1 d.1,
)

-- An index grown by an id that neither it nor a task in flight has.
module _ (t : Task) (ids : List (String × Task)) (fs : List Task)
    (fresh : lookup t.review.id ids ≡ none) (apart : All (OtherId t.review.id) fs) where
  filed-ne :
      (repo : String) (ts : List Task) → All (IsFiled repo ids) ts → All (OtherId t.review.id) ts
  filed-ne repo ts h =
      All-map (λ u (own, found). key_ne u.review.id t.review.id ids found fresh (λ e. cc)) ts h

  EntryOk-insert :
      (repo : String) (o : Option RepoQueue)
      → EntryOk repo ids fs o
      → EntryOk repo (insert t.review.id t ids) fs o
  EntryOk-insert repo =
      EntryOk-index repo ids (insert t.review.id t ids) fs
        (λ id u found own.
          lookup-insert_ne t.review.id id t ids (key_ne t.review.id id ids fresh found (λ e. cc))
          ∙ found)
        (λ id flies missing.
          lookup-insert_ne t.review.id id t ids (Flies-ne repo id t.review.id fs apart flies)
          ∙ missing)

  keyed-insert :
      ((id : String) (u : Task) → lookup id ids ≡ some u → HasId id u)
      → (id : String) (u : Task) → lookup id (insert t.review.id t ids) ≡ some u
      → HasId id u
  keyed-insert keyed id u h = elim (str-cases t.review.id id) [
    | inl same ↦ ground (arith, lookup-insert t.review.id id t ids, eq_iff t.review.id id)
    | inr other ↦ keyed id u (rw (lookup-insert, other) at h)
  ]

  found_self : lookup t.review.id (insert t.review.id t ids) ≡ some t
  found_self = rw (lookup-insert, eq_refl t.review.id)

  abbrev grown : List (String × Task)
  grown = insert t.review.id t ids

  current-ne :
      (repo : String) (rq : RepoQueue)
      → Serves repo ids fs rq
      → rq.running ≡ true
      → t.review.id ≢ rq.current_task_id
  current-ne repo rq h r = elim (h.busy r) [
    | inl ((u, found, own), others, out) ↦
        key_ne t.review.id rq.current_task_id ids fresh found (λ e. cc)
    | inr (flies, missing) ↦ Flies-ne repo rq.current_task_id t.review.id fs apart flies
  ]

  Serves-push :
      (rq : RepoQueue)
      → Serves t.review.repo_url ids fs rq
      → Serves t.review.repo_url grown fs rq
      → Serves t.review.repo_url grown fs (push_back t rq)
  unfolding push_back
  Serves-push rq old h = record {
    filed =
        All-append (IsFiled t.review.repo_url grown) rq.tasks (t ∷ []) h.filed
          ((refl, found_self), tt);
    distinct =
        DistinctIds-append t rq.tasks (filed-ne t.review.repo_url rq.tasks old.filed) h.distinct;
    idle = h.idle;
    busy = λ r. elim (h.busy r) [
      | inl (entry, others, out) ↦ inl (
        entry,
        All-append (OtherId rq.current_task_id) rq.tasks (t ∷ []) others
            (current-ne t.review.repo_url rq old r, tt),
        out,
      )
      | inr out ↦ inr out
    ];
  }

  -- A queue that `EnqueueAsRunning` marks.
  Serves-mark :
      (rq : RepoQueue)
      → All (OtherRepo t.review.repo_url) fs
      → Serves t.review.repo_url ids fs rq
      → Serves t.review.repo_url grown fs rq
      → Serves t.review.repo_url grown fs
          (record rq { running = true; current_task_id = t.review.id; dequeued = false })
  Serves-mark rq out old h = record {
    filed = h.filed;
    distinct = h.distinct;
    idle = λ r. cc;
    busy = λ r. inl ((t, found_self, refl), filed-ne t.review.repo_url rq.tasks old.filed, out);
  }

-- An empty queue serves a repository with nothing in flight.
Serves-empty :
    (repo : String) (ids : List (String × Task)) (fs : List Task)
    → All (OtherRepo repo) fs
    → Serves repo ids fs empty_repo_queue
Serves-empty repo ids fs out = record { filed = tt; distinct = tt; idle = λ r. out; busy = λ r. cc }

-- The queue that an enqueue works on.
Serves-repo_queue :
    (repo : String) (ids : List (String × Task)) (fs : List Task) (q : RepoTaskQueue)
    → EntryOk repo ids fs (lookup repo q.queues)
    → Serves repo ids fs (repo_queue q repo)
Serves-repo_queue repo ids fs q h = elim (Option-cases (lookup repo q.queues)) [
  | inl missing ↦ rw (missing, repo_queue) (Serves-empty repo ids fs (rw missing at h))
  | inr (rq, stored) ↦ rw (stored, repo_queue) (rw stored at h)
]

module _ (s : System) (t : Task) (inv : Inv s) (apart : All (OtherId t.review.id) s.in_flight) where
  abbrev old_ids : List (String × Task)
  old_ids = s.queue.tasks_by_id

  abbrev own_queue : RepoQueue
  own_queue = repo_queue s.queue t.review.repo_url

  own_Serves : Serves t.review.repo_url old_ids s.in_flight own_queue
  own_Serves =
      Serves-repo_queue t.review.repo_url old_ids s.in_flight s.queue (inv.each t.review.repo_url)

  module _ (fresh : lookup t.review.id s.queue.tasks_by_id ≡ none) where
    own_grown : Serves t.review.repo_url (insert t.review.id t old_ids) s.in_flight own_queue
    own_grown =
        EntryOk-insert t old_ids s.in_flight fresh apart t.review.repo_url (some own_queue)
          own_Serves

    -- Both operations write one queue and index one task.
    grown-Inv :
        (rq : RepoQueue) (signals : Signals)
        → Serves t.review.repo_url (insert t.review.id t old_ids) s.in_flight rq
        → Inv (record s {
          queue = record {
            queues = insert t.review.repo_url rq s.queue.queues;
            tasks_by_id = insert t.review.id t old_ids;
            task_ready = signals;
          };
        })
    grown-Inv rq signals h = record {
      one_each = inv.one_each;
      keyed = keyed-insert t old_ids s.in_flight fresh apart inv.keyed;
      each =
          each-insert t.review.repo_url rq s.queue.queues _ s.in_flight h
            (λ repo ne. EntryOk-insert t old_ids s.in_flight fresh apart repo _ (inv.each repo));
    }

  pub submit-Inv : Inv (record s { queue = (enqueue s.queue (task t)).0 })
  unfolding enqueue
  submit-Inv = elim (Option-cases (lookup t.review.id s.queue.tasks_by_id)) [
    | inr (u, old) ↦ rw old inv
    | inl fresh ↦ rw fresh (
        grown-Inv fresh (push_back t own_queue) _
          (Serves-push t old_ids s.in_flight fresh apart own_queue own_Serves (own_grown fresh)))
  ]

  pub recover-Inv :
      All (OtherRepo t.review.repo_url) s.in_flight
      → Inv (record s { queue = (enqueue_as_running s.queue (task t)).0 })
  unfolding enqueue_as_running
  recover-Inv out = elim (Option-cases (lookup t.review.id s.queue.tasks_by_id)) [
    | inr (u, old) ↦ rw old inv
    | inl fresh ↦ rw fresh (
        grown-Inv fresh _ _ (
          Serves-mark t old_ids s.in_flight fresh apart own_queue out own_Serves (own_grown fresh)))
  ]
