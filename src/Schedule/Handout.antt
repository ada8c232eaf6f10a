-- ===== src/Schedule/Handout.antt =====
-- `Dequeue` of internal/engine/queue.go and the invariant.
use verustcode.Base.{
  String, true, Option, none, some, List, [], ◌∷◌, ◌≡◌, ◌≢◌, inl, inr, refl, sym, ◌∙◌, arith,
  eq_refl, All, lookup, insert, delete, lookup-delete, subst,
}
use verustcode.Model.{Task}
use verustcode.Queue.{RepoQueue, RepoTaskQueue}
use verustcode.Queue.Dequeue.{dequeue, Choice, take_recovered, take_pending}
use verustcode.Queue.Lookups.{IsRecovered, IsPending, Handed, again, first, dequeue-Handed}
use verustcode.Schedule.{System, HasId, OtherId, OtherRepo}
use verustcode.Schedule.Invariant.{
  InRepo, IsFiled, DistinctIds, Serves, EntryOk, Inv, EntryOk-index, each-insert, lookup-delete_ne,
  key_ne,
}

pub lookup-delete-none :
    (k j : String) (ids : List (String × Task))
    → lookup j ids ≡ none
    → lookup j (delete k ids) ≡ none
lookup-delete-none k j ids h = ground (arith, lookup-delete k j ids)

pub keyed-delete :
    (k : String) (ids : List (String × Task))
    → ((id : String) (t : Task) → lookup id ids ≡ some t → HasId id t)
    → (id : String) (t : Task) → lookup id (delete k ids) ≡ some t
    → HasId id t
keyed-delete k ids keyed id t h = keyed id t (ground (arith, lookup-delete k id ids))

repo_ne : (t u : Task) {repo : String} → InRepo repo u → t.review.repo_url ≢ repo → some t ≢ some u
repo_ne t u own ne = λ e. ne (ground arith)

-- A task of another repository joins the flight.
Serves-more :
    (t : Task) (ids : List (String × Task)) (fs : List Task) (repo : String) (rq : RepoQueue)
    → t.review.repo_url ≢ repo
    → Serves repo ids fs rq
    → Serves repo ids (t ∷ fs) rq
Serves-more t ids fs repo rq ne h = record {
  filed = h.filed;
  distinct = h.distinct;
  idle = λ r. (ne, h.idle r);
  busy = λ r. elim (h.busy r) [
    | inl (entry, others, out) ↦ inl (entry, others, (ne, out))
    | inr (flies, missing) ↦ inr (inr flies, missing)
  ];
}

-- A task leaves the index for the flight: the other repositories do not see it.
EntryOk-hand_out :
    (t : Task) (id : String) (ids : List (String × Task)) (fs : List Task)
    → lookup id ids ≡ some t
    → (repo : String) (o : Option RepoQueue) → t.review.repo_url ≢ repo
    → EntryOk repo ids fs o
    → EntryOk repo (delete id ids) (t ∷ fs) o
EntryOk-hand_out t id ids fs held repo none ne h = (ne, h)
EntryOk-hand_out t id ids fs held repo (some rq) ne h =
    Serves-more t (delete id ids) fs repo rq ne (
      EntryOk-index repo ids (delete id ids) fs
        (λ j u found own.
          lookup-delete_ne id j ids (key_ne id j ids held found (repo_ne t u own ne)) ∙ found)
        (λ j flies missing. lookup-delete-none id j ids missing) (some rq) h)

IsFiled-delete :
    (repo id : String) (ids : List (String × Task)) (ts : List Task)
    → All (IsFiled repo ids) ts
    → All (OtherId id) ts
    → All (IsFiled repo (delete id ids)) ts
IsFiled-delete repo id ids [] h o = tt
IsFiled-delete repo id ids (u ∷ ts) ((own, found), h) (ne, o) = (
  (own, lookup-delete_ne id u.review.id ids (λ e. ne (sym e)) ∙ found),
  IsFiled-delete repo id ids ts h o,
)

lookup-delete_self : (id : String) (ids : List (String × Task)) → lookup id (delete id ids) ≡ none
lookup-delete_self id ids = rw (lookup-delete, eq_refl id)

module _ (s : System) (inv : Inv s) (t : Task) (id : String) (k : String)
    (held : lookup id s.queue.tasks_by_id ≡ some t) (own : InRepo k t)
    (out : All (OtherRepo k) s.in_flight) where
  hand_out-Inv :
      (rq : RepoQueue)
      → Serves k (delete id s.queue.tasks_by_id) (t ∷ s.in_flight) rq
      → Inv (record {
        queue = record s.queue {
          queues = insert k rq s.queue.queues;
          tasks_by_id = delete id s.queue.tasks_by_id;
        };
        in_flight = t ∷ s.in_flight;
      })
  hand_out-Inv rq new = record {
    one_each = (subst (λ r. All (OtherRepo r) s.in_flight) (sym own) out, inv.one_each);
    keyed = keyed-delete id s.queue.tasks_by_id inv.keyed;
    each = each-insert k rq s.queue.queues _ (t ∷ s.in_flight) new (λ repo ne.
        EntryOk-hand_out t id s.queue.tasks_by_id s.in_flight held repo _ (λ e. ne (sym own ∙ e))
          (inv.each repo));
  }

  -- The queue of the task itself: it is running, its current task is `t`, and no other is.
  Serves-out :
      (rq : RepoQueue)
      → All (IsFiled k s.queue.tasks_by_id) rq.tasks
      → All (OtherId id) rq.tasks
      → DistinctIds rq.tasks
      → rq.running ≡ true
      → rq.current_task_id ≡ id
      → Serves k (delete id s.queue.tasks_by_id) (t ∷ s.in_flight) rq
  Serves-out rq filed others distinct running current = record {
    filed = IsFiled-delete k id s.queue.tasks_by_id rq.tasks filed others;
    distinct = distinct;
    idle = λ r. cc;
    busy = λ r. inr (
      inl (own, inv.keyed id t held ∙ sym current),
      rw current (lookup-delete_self id s.queue.tasks_by_id),
    );
  }

  served-Inv :
      (rq : RepoQueue)
      → All (IsFiled k s.queue.tasks_by_id) rq.tasks
      → All (OtherId id) rq.tasks
      → DistinctIds rq.tasks
      → rq.running ≡ true
      → rq.current_task_id ≡ id
      → Inv (record {
        queue = record s.queue {
          queues = insert k rq s.queue.queues;
          tasks_by_id = delete id s.queue.tasks_by_id;
        };
        in_flight = t ∷ s.in_flight;
      })
  served-Inv rq filed others distinct running current =
      hand_out-Inv rq (Serves-out rq filed others distinct running current)

module _ (s : System) (inv : Inv s) (c : Choice) where
  stored_Serves :
      lookup c.repo s.queue.queues ≡ some c.queue
      → Serves c.repo s.queue.tasks_by_id s.in_flight c.queue
  stored_Serves stored = rw stored at (inv.each c.repo)

  again-Inv :
      IsRecovered s.queue c
      → Inv (record { queue = take_recovered s.queue c; in_flight = c.task ∷ s.in_flight })
  unfolding take_recovered
  again-Inv rec =
      let h = stored_Serves rec.stored in
      elim (h.busy rec.running) [
        | inr (flies, missing) ↦ cc (rec.indexed, missing)
        | inl ((u, found, own), others, out) ↦
            served-Inv s inv c.task c.queue.current_task_id c.repo rec.indexed (ground arith) out
              (record c.queue { dequeued = true }) h.filed others h.distinct rec.running refl
      ]

  first-Inv :
      IsPending s.queue c
      → Inv (record { queue = take_pending s.queue c; in_flight = c.task ∷ s.in_flight })
  unfolding take_pending
  first-Inv pen =
      let h = stored_Serves pen.stored in
      let filed = rw pen.first at h.filed in
      let distinct = rw pen.first at h.distinct in
      served-Inv s inv c.task c.task.review.id c.repo filed.0.1 filed.0.0 (h.idle pen.idle) _
        filed.1 distinct.0 distinct.1 refl refl

pub dispatch-Inv :
    (s : System) (order order' : List String) (q' : RepoTaskQueue) (t : Task)
    → Inv s
    → dequeue s.queue order order' ≡ (q', some t)
    → Inv (record { queue = q'; in_flight = t ∷ s.in_flight })
dispatch-Inv s order order' q' t inv h = handed (dequeue-Handed s.queue q' order order' t h)
  where
    handed : Handed s.queue q' t → Inv (record { queue = q'; in_flight = t ∷ s.in_flight })
    handed (again c rec same same_task) = rw (same, same_task) (again-Inv s inv c rec)
    handed (first c pen same same_task) = rw (same, same_task) (first-Inv s inv c pen)
