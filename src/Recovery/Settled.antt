-- ===== src/Recovery/Settled.antt =====
-- What recovery, internal/engine/recovery/service.go, leaves of each open review.
use Prim.Native.String.{◌++◌}
use verustcode.Base.{
  String, true, some, List, [], ◌∷◌, ◌≡◌, ◌⊎◌, inl, inr, refl, arith, eq_iff, All, Bool-cases,
  Option-cases, str-cases, str_eq, ne_of, subst, sym, ap, ◌∙◌, none,
}
use verustcode.Model.{Review, Task, failed}
use verustcode.Queue.{RepoTaskQueue, is_some}
use verustcode.Recovery.Requeued.{
  Apart, AllApart, IsNew, requeue-reviews, requeue-IsPlaced, requeue_places, requeue-IsNew,
}
use verustcode.Recovery.Placed.{IsPlaced}
use verustcode.Recovery.{
  Surroundings, Recovered, give_up, requeue, recover_review, recover_all, could_not_build,
  recover_to_queue, build_recovery_task, should_recover,
}
use verustcode.Store.{update_status_with_error, list_pending_or_running}

-- A row of that id says that the review failed.
abbrev pub FailedIf : String → Review → Type 0
FailedIf id r = r.id ≡ id → r.status ≡ failed

update-keeps :
    (k id msg : String) (rs : List Review)
    → All (FailedIf id) rs
    → All (FailedIf id) (update_status_with_error k failed msg rs)
unfolding update_status_with_error
update-keeps k id msg [] h = tt
update-keeps k id msg (r ∷ rs) (p, h) = elim (Bool-cases (str_eq r.id k)) [
  | inl same ↦ rw same (λ e. refl, update-keeps k id msg rs h)
  | inr other ↦ rw other (p, update-keeps k id msg rs h)
]

pub update-fails :
    (id msg : String) (rs : List Review)
    → All (FailedIf id) (update_status_with_error id failed msg rs)
unfolding update_status_with_error
update-fails id msg [] = tt
update-fails id msg (r ∷ rs) = elim (str-cases r.id id) [
  | inl same ↦ rw ((eq_iff r.id id).1 same) (λ e. refl, update-fails id msg rs)
  | inr other ↦ rw other (λ e. absurd (ne_of r.id id other e), update-fails id msg rs)
]

-- The task built for a review is that of the review.
pub build_recovery_task-review :
    (env : Surroundings) (review : Review) (t : Task)
    → build_recovery_task env review ≡ some t
    → t.review ≡ review
unfolding build_recovery_task
build_recovery_task-review env review t h =
    elim (Bool-cases (str_eq (env.detect_from_url review.repo_url) "")) [
      | inl unknown ↦ absurd (ground arith)
      | inr found ↦
          elim (Option-cases (env.parse_repo_path (env.detect_from_url review.repo_url))) [
            | inl missing ↦ absurd (ground arith)
            | inr (parse, has) ↦ elim (Option-cases (parse review.repo_url)) [
              | inl bad ↦ absurd (ground arith)
              | inr (names, good) ↦ ground arith
            ]
          ]
    ]

-- What becomes of an open review. Recovered: shouldRecover lets it through, a task could be built, and
-- the queue has that task in its place. Given up: one of the two refused it, and its row says failed.
abbrev pub IsRequeued : Surroundings → Recovered → Review → Type 0
IsRequeued env st r =
    (should_recover env.config (env.now r.id) r ≡ none)
    × (t : Task) × (build_recovery_task env r ≡ some t)
    × IsPlaced st.queue t

abbrev pub IsGivenUp : Surroundings → Recovered → Review → Type 0
IsGivenUp env st r =
    ((is_some (should_recover env.config (env.now r.id) r) ≡ true)
      ⊎ (build_recovery_task env r ≡ none))
    × All (FailedIf r.id) st.reviews

abbrev pub Settled : Surroundings → Recovered → Review → Type 0
Settled env st r = IsRequeued env st r ⊎ IsGivenUp env st r

give_up-keeps :
    (env : Surroundings) (msg : String) (s : Review) (st : Recovered) (r : Review)
    → Settled env st r
    → Settled env (give_up env msg s st) r
unfolding give_up
give_up-keeps env msg s st r (inl queued) = inl queued
give_up-keeps env msg s st r (inr (why, gone)) = elim (Bool-cases (env.writes s.id)) [
  | inl done ↦ inr (why, rw done (update-keeps s.id r.id msg st.reviews gone))
  | inr lost ↦ inr (why, rw lost gone)
]

recover_review-keeps :
    (env : Surroundings) (s : Review) (st : Recovered) (r : Review)
    → Apart r s
    → Settled env st r
    → Settled env (recover_review env s st) r
unfolding recover_review
recover_review-keeps env s st r apart h =
    elim (Option-cases (should_recover env.config (env.now s.id) s)) [
      | inr (reason, refused) ↦ rw (refused, recover_review) (give_up-keeps env _ s st r h)
      | inl fit ↦ elim (Option-cases (build_recovery_task env s)) [
        | inl nil ↦ rw (fit, nil, recover_review) (give_up-keeps env _ s st r h)
        | inr (u, built) ↦ elim h [
          | inr (why, gone) ↦
              rw (fit, built, recover_review) (inr (why, rw (requeue-reviews s u st) gone))
          | inl (through, t, made, placed) ↦
              let same : t.review ≡ r = build_recovery_task-review env r t made in
              let kept : IsPlaced (requeue s u st).queue t =
                requeue-IsPlaced s t u st (build_recovery_task-review env s u built)
                  (subst (λ (v : Review). Apart v s) (sym same) apart) placed in
              rw (fit, built, recover_review) (inl (through, t, made, kept))
        ]
      ]
    ]

give_up-fails :
    (env : Surroundings) (msg : String) (r : Review) (st : Recovered)
    → env.writes r.id ≡ true
    → All (FailedIf r.id) (give_up env msg r st).reviews
unfolding give_up
give_up-fails env msg r st done = rw done (update-fails r.id msg st.reviews)

recover_review-settles :
    (env : Surroundings) (r : Review) (st : Recovered)
    → env.writes r.id ≡ true
    → IsNew st.queue r
    → Settled env (recover_review env r st) r
unfolding recover_review
recover_review-settles env r st done new =
    elim (Option-cases (should_recover env.config (env.now r.id) r)) [
      | inr (reason, refused) ↦
          let why : is_some (should_recover env.config (env.now r.id) r) ≡ true = rw refused refl in
          let gone = give_up-fails env ("recovery failed: " ++ env.describe reason) r st done in
          rw (refused, recover_review) (inr (inl refl, gone))
      | inl fit ↦ elim (Option-cases (build_recovery_task env r)) [
        | inl nil ↦
            rw (fit, nil, recover_review)
              (inr (inr refl, give_up-fails env could_not_build r st done))
        | inr (t, built) ↦
            let placed : IsPlaced (requeue r t st).queue t =
              requeue_places r t st (build_recovery_task-review env r t built) new in
            rw (fit, built, recover_review) (inl (refl, t, refl, placed))
      ]
    ]

recover_review-IsNew :
    (env : Surroundings) (r : Review) (st : Recovered) (s : Review)
    → Apart r s
    → IsNew st.queue s
    → IsNew (recover_review env r st).queue s
unfolding recover_review give_up
recover_review-IsNew env r st s (distinct, apart) new =
    elim (Option-cases (should_recover env.config (env.now r.id) r)) [
      | inr (reason, refused) ↦ rw (refused, recover_review) new
      | inl fit ↦ elim (Option-cases (build_recovery_task env r)) [
        | inl nil ↦ rw (fit, nil, recover_review) new
        | inr (t, built) ↦
            let own : t.review ≡ r = build_recovery_task-review env r t built in
            rw (fit, built, recover_review)
              (requeue-IsNew r t st s (λ same. distinct (sym same ∙ ap (λ (v : Review). v.id) own))
                new)
      ]
    ]

module _ (env : Surroundings) (writes : (id : String) → env.writes id ≡ true) where
  recover_all-keeps :
      (rows : List Review) (st : Recovered) (r : Review)
      → All (Apart r) rows
      → Settled env st r
      → Settled env (recover_all env rows st) r
  unfolding recover_all
  recover_all-keeps [] st r apart h = h
  recover_all-keeps (s ∷ rows) st r (here, apart) h =
      recover_all-keeps rows (recover_review env s st) r apart
        (recover_review-keeps env s st r here h)

  still-IsNew :
      (r : Review) (st : Recovered) (rows : List Review)
      → All (Apart r) rows
      → All (IsNew st.queue) rows
      → All (IsNew (recover_review env r st).queue) rows
  still-IsNew r st [] apart new = tt
  still-IsNew r st (s ∷ rows) (here, apart) (fresh, new) =
      (recover_review-IsNew env r st s here fresh, still-IsNew r st rows apart new)

  recover_all-settles :
      (rows : List Review) (st : Recovered)
      → AllApart rows
      → All (IsNew st.queue) rows
      → All (Settled env (recover_all env rows st)) rows
  unfolding recover_all
  recover_all-settles [] st apart new = tt
  recover_all-settles (r ∷ rows) st (here, apart) (fresh, new) = (
    recover_all-keeps rows (recover_review env r st) r here
        (recover_review-settles env r st (writes r.id) fresh),
    recover_all-settles rows (recover_review env r st) apart (still-IsNew r st rows here new),
  )

  -- Startup recovery loses no open review, if the query of the reviews and the updates of rows succeed,
  -- the open reviews have different ids, those that are running have different repositories, and none
  -- of them is in the queue yet. If shouldRecover lets the review through and a task can be built, the
  -- queue then has that task in the index and in its repository's queue: as the current one, running
  -- and to be handed out again, if the review was running, and else in the list of waiting tasks. If
  -- one of the two refuses it, its row says failed.
  pub recover_to_queue-Settled :
      (q : RepoTaskQueue) (reviews : List Review)
      → AllApart (list_pending_or_running reviews)
      → All (IsNew q) (list_pending_or_running reviews)
      → All (Settled env (recover_to_queue env true q reviews)) (list_pending_or_running reviews)
  unfolding recover_to_queue
  recover_to_queue-Settled q reviews apart new =
      recover_all-settles (list_pending_or_running reviews) _ apart new
