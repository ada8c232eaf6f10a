-- ===== src/Schedule/Invariant.antt =====
-- What holds of the queue of internal/engine/queue.go between two calls, for each repository.
use verustcode.Base.{
  String, true, false, Option, none, some, List, [], ◌∷◌, ◌≡◌, ◌≢◌, ◌⊎◌, inl, inr, sym, ap, ◌∙◌,
  eq_iff, All, All-map, lookup, insert, delete, lookup-insert, lookup-delete, str-cases, str_eq_ne,
  ne_of, subst,
}
use verustcode.Model.{Task}
use verustcode.Queue.{RepoQueue}
use verustcode.Schedule.{System, HasId, OtherId, OtherRepo, OnePerRepo}

abbrev pub InRepo : String → Task → Type 0
InRepo repo t = t.review.repo_url ≡ repo

-- A pending task stands in its repository's queue and in the index.
abbrev pub IsFiled : String → List (String × Task) → Task → Type 0
IsFiled repo ids t = InRepo repo t × (lookup t.review.id ids ≡ some t)

abbrev pub DistinctIds : List Task → Type 0
DistinctIds [] = Unit
DistinctIds (t ∷ ts) = All (OtherId t.review.id) ts × DistinctIds ts

-- Some task of the list is that of this repository and id.
abbrev pub Flies : String → String → List Task → Type 0
Flies repo id [] = ⊥
Flies repo id (t ∷ ts) = (InRepo repo t × HasId id t) ⊎ Flies repo id ts

-- The current task of a running queue: recovered and not handed out yet, or in flight.
abbrev pub Awaits : String → List (String × Task) → List Task → RepoQueue → Type 0
Awaits repo ids fs rq =
    ((t : Task) × (lookup rq.current_task_id ids ≡ some t) × InRepo repo t)
    × All (OtherId rq.current_task_id) rq.tasks
    × All (OtherRepo repo) fs

abbrev pub IsOut : String → List (String × Task) → List Task → RepoQueue → Type 0
IsOut repo ids fs rq = Flies repo rq.current_task_id fs × (lookup rq.current_task_id ids ≡ none)

pub record Serves (repo : String) (ids : List (String × Task)) (fs : List Task) (rq : RepoQueue)
    : Type 0 where
  pub filed : All (IsFiled repo ids) rq.tasks
  pub distinct : DistinctIds rq.tasks
  pub idle : rq.running ≡ false → All (OtherRepo repo) fs
  pub busy : rq.running ≡ true → Awaits repo ids fs rq ⊎ IsOut repo ids fs rq

abbrev pub EntryOk : String → List (String × Task) → List Task → Option RepoQueue → Type 0
EntryOk repo ids fs none = All (OtherRepo repo) fs
EntryOk repo ids fs (some rq) = Serves repo ids fs rq

pub record Inv (s : System) : Type 0 where
  pub one_each : OnePerRepo s.in_flight
  pub keyed : (id : String) (t : Task) → lookup id s.queue.tasks_by_id ≡ some t → HasId id t
  pub each :
      (repo : String) → EntryOk repo s.queue.tasks_by_id s.in_flight (lookup repo s.queue.queues)

-- An index that keeps what a repository looks up.
module _ (repo : String) (ids ids' : List (String × Task)) (fs : List Task)
    (keep : (id : String) (u : Task)
      → lookup id ids ≡ some u
      → InRepo repo u
      → lookup id ids' ≡ some u)
    (gone : (id : String) → Flies repo id fs → lookup id ids ≡ none → lookup id ids' ≡ none) where
  pub Serves-index : (rq : RepoQueue) → Serves repo ids fs rq → Serves repo ids' fs rq
  Serves-index rq h = record {
    filed = All-map (λ u (own, found). (own, keep u.review.id u found own)) rq.tasks h.filed;
    distinct = h.distinct;
    idle = h.idle;
    busy = λ r. elim (h.busy r) [
      | inl ((t, found, own), others, out) ↦
          inl ((t, keep rq.current_task_id t found own, own), others, out)
      | inr (flies, missing) ↦ inr (flies, gone rq.current_task_id flies missing)
    ];
  }

  pub EntryOk-index : (o : Option RepoQueue) → EntryOk repo ids fs o → EntryOk repo ids' fs o
  EntryOk-index none h = h
  EntryOk-index (some rq) h = Serves-index rq h

-- One entry of the map of queues is written.
pub each-insert :
    (k : String) (rq : RepoQueue) (qs : List (String × RepoQueue)) (ids : List (String × Task))
    (fs : List Task)
    → Serves k ids fs rq
    → ((repo : String) → k ≢ repo → EntryOk repo ids fs (lookup repo qs))
    → (repo : String) → EntryOk repo ids fs (lookup repo (insert k rq qs))
each-insert k rq qs ids fs new old repo = elim (str-cases k repo) [
  | inl same ↦ rw (lookup-insert, (eq_iff k repo).1 same) (subst (λ r. Serves r ids fs rq) same new)
  | inr other ↦ rw (lookup-insert, other) (old repo (ne_of k repo other))
]

-- One entry is removed.
pub each-delete :
    (k : String) (qs : List (String × RepoQueue)) (ids : List (String × Task)) (fs : List Task)
    → All (OtherRepo k) fs
    → ((repo : String) → k ≢ repo → EntryOk repo ids fs (lookup repo qs))
    → (repo : String) → EntryOk repo ids fs (lookup repo (delete k qs))
each-delete k qs ids fs new old repo = elim (str-cases k repo) [
  | inl same ↦
      rw (lookup-delete, (eq_iff k repo).1 same) (subst (λ r. All (OtherRepo r) fs) same new)
  | inr other ↦ rw (lookup-delete, other) (old repo (ne_of k repo other))
]

pub lookup-insert_ne {ℓ} :
    {V : Type ℓ} (k j : String) (v : V) (m : List (String × V))
    → k ≢ j
    → lookup j (insert k v m) ≡ lookup j m
lookup-insert_ne k j v m h = rw (lookup-insert, str_eq_ne k j h)

pub lookup-delete_ne {ℓ} :
    {V : Type ℓ} (k j : String) (m : List (String × V)) → k ≢ j → lookup j (delete k m) ≡ lookup j m
lookup-delete_ne k j m h = rw (lookup-delete, str_eq_ne k j h)

-- Two entries under different results have different keys.
pub key_ne :
    (k j : String) (ids : List (String × Task)) {o p : Option Task}
    → lookup k ids ≡ o
    → lookup j ids ≡ p
    → o ≢ p
    → k ≢ j
key_ne k j ids a b ne = λ e. ne (sym a ∙ ap (λ (i : String). lookup i ids) e ∙ b)
