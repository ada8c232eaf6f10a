-- ===== src/Recovery/Requeued.antt =====
-- What the queue of internal/engine/queue.go is after recovery has put one review back into it.
use verustcode.Base.{
  true, List, [], ◌∷◌, ◌≡◌, inl, inr, refl, All, Bool-cases, str_eq_ne, lookup-insert, subst, sym,
  ap, ◌∙◌, ◌≢◌, none, lookup, false,
}
use verustcode.Model.{Review, Task}
use verustcode.Queue.{RepoTaskQueue, is_some, task, enqueue, enqueue_as_running}
use verustcode.Recovery.Placed.{
  IsPlaced, enqueue-IsPlaced, enqueue_as_running-IsPlaced, enqueue_places,
  enqueue_as_running_places,
}
use verustcode.Recovery.{Recovered, put_running, put_pending, requeue, is_running}

-- Two open reviews have different ids, and different repositories if both are running.
abbrev pub Apart : Review → Review → Type 0
Apart r s =
    (s.id ≢ r.id)
    × (is_running r.status ≡ true → is_running s.status ≡ true → s.repo_url ≢ r.repo_url)

abbrev pub AllApart : List Review → Type 0
AllApart [] = Unit
AllApart (r ∷ rs) = All (Apart r) rs × AllApart rs

-- The review is not in the queue yet.
abbrev pub IsNew : RepoTaskQueue → Review → Type 0
IsNew q r = lookup r.id q.tasks_by_id ≡ none

pub requeue-reviews :
    (review : Review) (t : Task) (st : Recovered) → (requeue review t st).reviews ≡ st.reviews
unfolding requeue put_running put_pending
requeue-reviews review t st = elim (Bool-cases (is_running review.status)) [
  | inl busy ↦ rw busy
  | inr idle ↦ rw idle
]

requeue-running :
    (s : Review) (t : Task) (st : Recovered)
    → is_running s.status ≡ true
    → (requeue s t st).queue ≡ (enqueue_as_running st.queue (task t)).0
unfolding requeue put_running
requeue-running s t st busy = rw busy refl

requeue-pending :
    (s : Review) (t : Task) (st : Recovered)
    → is_running s.status ≡ false
    → (requeue s t st).queue ≡ (enqueue st.queue (task t)).0
unfolding requeue put_pending
requeue-pending s t st idle = rw idle refl

pub requeue-IsPlaced :
    (s : Review) (t u : Task) (st : Recovered)
    → u.review ≡ s
    → Apart t.review s
    → IsPlaced st.queue t
    → IsPlaced (requeue s u st).queue t
requeue-IsPlaced s t u st own (distinct, apart) placed = elim (Bool-cases (is_running s.status)) [
  | inl busy ↦
      subst (λ (q : RepoTaskQueue). IsPlaced q t) (sym (requeue-running s u st busy))
        (enqueue_as_running-IsPlaced st.queue t u
          (λ other same. apart other busy (ap (λ (v : Review). v.repo_url) (sym own) ∙ same))
          placed)
  | inr idle ↦
      subst (λ (q : RepoTaskQueue). IsPlaced q t) (sym (requeue-pending s u st idle))
        (enqueue-IsPlaced st.queue t u placed)
]

pub requeue_places :
    (s : Review) (t : Task) (st : Recovered)
    → t.review ≡ s
    → IsNew st.queue s
    → IsPlaced (requeue s t st).queue t
requeue_places s t st own new =
    let fresh : IsNew st.queue t.review = subst (IsNew st.queue) (sym own) new in
    let status : is_running t.review.status ≡ is_running s.status =
      ap (λ (r : Review). is_running r.status) own in
    elim (Bool-cases (is_running s.status)) [
      | inl busy ↦
          subst (λ (q : RepoTaskQueue). IsPlaced q t) (sym (requeue-running s t st busy))
            (enqueue_as_running_places st.queue t (status ∙ busy) fresh)
      | inr idle ↦
          subst (λ (q : RepoTaskQueue). IsPlaced q t) (sym (requeue-pending s t st idle))
            (enqueue_places st.queue t (status ∙ idle) fresh)
    ]

enqueue-IsNew :
    (q : RepoTaskQueue) (t : Task) (s : Review)
    → t.review.id ≢ s.id
    → IsNew q s
    → IsNew (enqueue q (task t)).0 s
unfolding enqueue
enqueue-IsNew q t s ne new = elim (Bool-cases (is_some (lookup t.review.id q.tasks_by_id))) [
  | inl old ↦ rw old new
  | inr fresh ↦ rw (fresh, lookup-insert, str_eq_ne t.review.id s.id ne) new
]

enqueue_as_running-IsNew :
    (q : RepoTaskQueue) (t : Task) (s : Review)
    → t.review.id ≢ s.id
    → IsNew q s
    → IsNew (enqueue_as_running q (task t)).0 s
unfolding enqueue_as_running
enqueue_as_running-IsNew q t s ne new =
    elim (Bool-cases (is_some (lookup t.review.id q.tasks_by_id))) [
      | inl old ↦ rw old new
      | inr fresh ↦ rw (fresh, lookup-insert, str_eq_ne t.review.id s.id ne) new
    ]

pub requeue-IsNew :
    (r : Review) (t : Task) (st : Recovered) (s : Review)
    → t.review.id ≢ s.id
    → IsNew st.queue s
    → IsNew (requeue r t st).queue s
requeue-IsNew r t st s ne new = elim (Bool-cases (is_running r.status)) [
  | inl busy ↦
      subst (λ (q : RepoTaskQueue). IsNew q s) (sym (requeue-running r t st busy))
        (enqueue_as_running-IsNew st.queue t s ne new)
  | inr idle ↦
      subst (λ (q : RepoTaskQueue). IsNew q s) (sym (requeue-pending r t st idle))
        (enqueue-IsNew st.queue t s ne new)
]
