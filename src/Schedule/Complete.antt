-- ===== src/Schedule/Complete.antt =====
-- `MarkComplete` of internal/engine/queue.go, on a task in flight.
use verustcode.Base.{
  String, false, Option, none, some, List, [], ◌∷◌, ◌≡◌, ◌≢◌, inl, inr, refl, sym, ap, ◌∙◌, All,
  lookup, delete, Bool-cases, Option-cases, is_empty,
}
use verustcode.Model.{Task}
use verustcode.Queue.{RepoQueue, Signals}
use verustcode.Queue.Finish.{mark_complete, complete_repo}
use verustcode.Schedule.{System, Pick, here, there, HasId, OtherRepo, OnePerRepo}
use verustcode.Schedule.Invariant.{
  Flies, Serves, EntryOk, Inv, EntryOk-index, each-insert, each-delete, lookup-delete_ne, key_ne,
}
use verustcode.Schedule.Handout.{keyed-delete, lookup-delete-none}

pub picked {ℓ} :
    (P : Task → Type ℓ) {t : Task} {fs rest : List Task}
    → Pick t fs rest
    → All P fs
    → P t × All P rest
picked P here h = h
picked P (there p) (q, h) = let (found, later) = picked P p h in (found, (q, later))

one_left :
    {t : Task} {fs rest : List Task}
    → Pick t fs rest
    → OnePerRepo fs
    → All (OtherRepo t.review.repo_url) rest × OnePerRepo rest
one_left here h = h
one_left {t} (there {u} p) (out, h) =
    let (ne, later) = picked (OtherRepo u.review.repo_url) p out in
    let (others, one) = one_left p h in (((λ e. ne (sym e)), others), (later, one))

Flies-left :
    (repo id : String) {t : Task} {fs rest : List Task}
    → Pick t fs rest
    → t.review.repo_url ≢ repo
    → Flies repo id fs
    → Flies repo id rest
Flies-left repo id here ne (inl h) = absurd (ne h.0)
Flies-left repo id here ne (inr h) = h
Flies-left repo id (there p) ne (inl h) = inl h
Flies-left repo id (there p) ne (inr h) = inr (Flies-left repo id p ne h)

no_flight : (repo id : String) (fs : List Task) → All (OtherRepo repo) fs → ¬ Flies repo id fs
no_flight repo id [] out h = h
no_flight repo id (t ∷ fs) out (inl h) = out.0 h.0
no_flight repo id (t ∷ fs) out (inr h) = no_flight repo id fs out.1 h

-- The only task in flight of its repository is the picked one.
pub Flies-picked :
    (id : String) {t : Task} {fs rest : List Task}
    → Pick t fs rest
    → OnePerRepo fs
    → Flies t.review.repo_url id fs
    → HasId id t
Flies-picked id here one (inl h) = h.1
Flies-picked id {t} (here {ts}) one (inr h) = absurd (no_flight t.review.repo_url id ts one.0 h)
Flies-picked id {t} (there {u} p) one (inl h) =
    absurd ((picked (OtherRepo u.review.repo_url) p one.0).0 (sym h.0))
Flies-picked id (there p) one (inr h) = Flies-picked id p one.1 h

-- A task of another repository leaves the flight.
Serves-fewer :
    {t : Task} {fs rest : List Task} (ids : List (String × Task))
    → Pick t fs rest
    → (repo : String) (rq : RepoQueue) → t.review.repo_url ≢ repo
    → Serves repo ids fs rq
    → Serves repo ids rest rq
Serves-fewer ids p repo rq ne h = record {
  filed = h.filed;
  distinct = h.distinct;
  idle = λ r. (picked (OtherRepo repo) p (h.idle r)).1;
  busy = λ r. elim (h.busy r) [
    | inl (entry, others, out) ↦ inl (entry, others, (picked (OtherRepo repo) p out).1)
    | inr (flies, missing) ↦ inr (Flies-left repo rq.current_task_id p ne flies, missing)
  ];
}

-- An id that is not in the index is removed from it.
lookup-delete_missing :
    (id : String) (ids : List (String × Task))
    → lookup id ids ≡ none
    → (j : String) (u : Task) → lookup j ids ≡ some u
    → lookup j (delete id ids) ≡ some u
lookup-delete_missing id ids missing j u found =
    lookup-delete_ne id j ids (key_ne id j ids missing found (λ e. cc)) ∙ found

module _ (s : System) (inv : Inv s) {t : Task} {rest : List Task}
    (p : Pick t s.in_flight rest) where
  abbrev repo : String
  repo = t.review.repo_url

  abbrev id : String
  id = t.review.id

  abbrev ids : List (String × Task)
  ids = s.queue.tasks_by_id

  module _ (missing : lookup id ids ≡ none) where
    EntryOk-delete :
        (r : String) (fs : List Task) (o : Option RepoQueue)
        → EntryOk r ids fs o
        → EntryOk r (delete id ids) fs o
    EntryOk-delete r fs =
        EntryOk-index r ids (delete id ids) fs
          (λ j u found own. lookup-delete_missing id ids missing j u found)
          (λ j flies gone. lookup-delete-none id j ids gone)

    EntryOk-other :
        (r : String) (o : Option RepoQueue)
        → repo ≢ r
        → EntryOk r ids s.in_flight o
        → EntryOk r (delete id ids) rest o
    EntryOk-other r none ne h = (picked (OtherRepo r) p h).1
    EntryOk-other r (some rq) ne h =
        Serves-fewer (delete id ids) p r rq ne (EntryOk-delete r s.in_flight (some rq) h)

    Serves-idle :
        (rq : RepoQueue)
        → Serves repo ids s.in_flight rq
        → Serves repo
            (delete id ids)
            rest
            (record rq { running = false; current_task_id = ""; dequeued = false })
    Serves-idle rq h =
        let kept : Serves repo (delete id ids) s.in_flight rq =
          EntryOk-delete repo s.in_flight (some rq) h in
        record {
          filed = kept.filed;
          distinct = kept.distinct;
          idle = λ r. (one_left p inv.one_each).0;
          busy = λ r. cc;
        }

  -- The queue of a task in flight is there, and runs it.
  own_id : (rq : RepoQueue) → Serves repo ids s.in_flight rq → lookup id ids ≡ none
  own_id rq h = elim (Bool-cases rq.running) [
    | inr idle ↦ absurd ((picked (OtherRepo repo) p (h.idle idle)).0 refl)
    | inl running ↦ elim (h.busy running) [
      | inl (entry, others, out) ↦ absurd ((picked (OtherRepo repo) p out).0 refl)
      | inr (flies, missing) ↦
          ap (λ (j : String). lookup j ids) (Flies-picked rq.current_task_id p inv.one_each flies)
          ∙ missing
    ]
  ]

  module _ (missing : lookup id ids ≡ none) where
    left-Inv :
        (qs : List (String × RepoQueue)) (signals : Signals)
        → ((r : String) → EntryOk r (delete id ids) rest (lookup r qs))
        → Inv (record {
          queue = record { queues = qs; tasks_by_id = delete id ids; task_ready = signals };
          in_flight = rest;
        })
    left-Inv qs signals each = record {
      one_each = (one_left p inv.one_each).1;
      keyed = keyed-delete id ids inv.keyed;
      each = each;
    }

    other_entries :
        (r : String) → repo ≢ r → EntryOk r (delete id ids) rest (lookup r s.queue.queues)
    other_entries r ne = EntryOk-other missing r _ ne (inv.each r)

  completed-Inv :
      (rq : RepoQueue)
      → Serves repo ids s.in_flight rq
      → Inv (record {
        queue = complete_repo (record s.queue { tasks_by_id = delete id ids }) repo rq;
        in_flight = rest;
      })
  unfolding complete_repo
  completed-Inv rq h =
      let missing = own_id rq h in
      elim (Bool-cases (is_empty rq.tasks)) [
        | inl empty ↦ rw empty (
            left-Inv missing _ _ (
              each-delete repo s.queue.queues _ rest (one_left p inv.one_each).0
                (other_entries missing)))
        | inr tasks ↦ rw tasks (
            left-Inv missing _ _ (
              each-insert repo _ s.queue.queues _ rest (Serves-idle missing rq h)
                (other_entries missing)))
      ]

  pub complete-Inv :
      Inv (record { queue = mark_complete s.queue t.review.repo_url t.review.id; in_flight = rest })
  unfolding mark_complete
  complete-Inv = elim (Option-cases (lookup repo s.queue.queues)) [
    | inl unknown ↦ absurd ((picked (OtherRepo repo) p (rw unknown at (inv.each repo))).0 refl)
    | inr (rq, stored) ↦
        rw (stored, mark_complete) (completed-Inv rq (rw stored at (inv.each repo)))
  ]
