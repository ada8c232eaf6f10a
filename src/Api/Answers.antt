-- ===== src/Api/Answers.antt =====
-- What the requests on reviews, internal/api/handler/review.go, leave behind.
use verustcode.Base.{
  String, Bool, true, false, Option, none, some, List, [], ◌∷◌, ◌≡◌, ◌⊎◌, inl, inr, refl, arith,
  Bool-cases, any, All, str_eq, ltb, ap, subst, eq_iff, if◌then◌else◌,
}
use verustcode.Model.{Review, cancelled}
use verustcode.Errors.{ErrorCode, status_of, http_status}
use verustcode.Store.{is_open, update_where}
use verustcode.Store.Rows.{update_where-All}
use verustcode.Recovery.Indexed.{Indexed}
use verustcode.Recovery.Settled.{FailedIf, update-fails}
use verustcode.Retry.{Engine}
use verustcode.Submit.{Submitted, SubmitError, app, config, not_submitted, submitted, submit}
use verustcode.Submit.Queued.{submit_queues, submit_refused}
use verustcode.Report.Handler.{Answer}
use verustcode.Api.Names.{Resolution, crashed, invalid, resolved, resolve}
use verustcode.Api.Review.{
  Environment, CreateReviewRequest, new_review, create_row, submit_answer, fail_review,
  submit_outcome, create_resolved, create_review, may_cancel, cancel_if_open, cancel_review,
}

status_of-IsError : (c : ErrorCode) → ltb (status_of c) 400 ≡ false
unfolding status_of
status_of-IsError c = ground arith

submit_answer-IsError : (e : SubmitError) → ltb (submit_answer e).code 400 ≡ false
unfolding http_status
submit_answer-IsError (app e) = status_of-IsError e.code
submit_answer-IsError (config msg) = refl

-- An accepted review is in the queue under its id. A refused one leaves the queue as it was, and the
-- tables too, or its row says failed.
abbrev pub Answered : String → Engine → Engine × Answer → Type 0
Answered id st (st', a) =
    ((a.code ≡ 202) × Indexed st'.queue id)
    ⊎ ((ltb a.code 400 ≡ false)
        × (st'.queue ≡ st.queue)
        × ((st'.database ≡ st.database) ⊎ All (FailedIf id) st'.database.reviews))

-- Where the request panics, nothing is written.
abbrev pub IfAnswered : String → Engine → Option (Engine × Answer) → Type 0
IfAnswered id st none = Unit
IfAnswered id st (some r) = Answered id st r

module _ (env : Environment) (updates : env.update_fails ≡ false) where
  submit_outcome-Answered :
      (row : Review) (st : Engine) (r : Engine × Submitted)
      → row.id ≡ env.new_id
      → submit env.intake none "" row (create_row row st) ≡ r
      → Answered env.new_id st (submit_outcome env r)
  unfolding create_row fail_review
  submit_outcome-Answered row st (st', submitted t) own same =
      let (cfg, loaded, keys, queued, written) =
        submit_queues env.intake none "" row (create_row row st) st' t same in
      inl (refl, subst (λ (k : String). Indexed st'.queue k) own queued)
  submit_outcome-Answered row st (st', not_submitted e) own same =
      let unchanged : st' ≡ create_row row st =
        submit_refused env.intake none "" row (create_row row st) st' e same in
      rw updates (
        inr (
          submit_answer-IsError e,
          ap (λ (s : Engine). s.queue) unchanged,
          inr (update-fails env.new_id (submit_answer e).message st'.database.reviews),
        ))

  either-Answered :
      (st : Engine) (b : Bool) (r s : Engine × Answer)
      → Answered env.new_id st r
      → Answered env.new_id st s
      → Answered env.new_id st (if b then r else s)
  either-Answered st true r s hr hs = hr
  either-Answered st false r s hr hs = hs

  create_resolved-IfAnswered :
      (req : CreateReviewRequest) (r : Resolution) (st : Engine)
      → IfAnswered env.new_id st (create_resolved env req r st)
  unfolding create_resolved
  create_resolved-IfAnswered req crashed st = tt
  create_resolved-IfAnswered req invalid st = inr (refl, refl, inl refl)
  create_resolved-IfAnswered req (resolved url names) st =
      either-Answered st env.insert_fails _ _ (inr (refl, refl, inl refl))
        (submit_outcome-Answered (new_review env req url names) st _ refl refl)

  -- CreateReview puts an accepted review into the queue under its id; a refused one leaves the queue as
  -- it was, and the tables too or the row of the review says failed, where the update to failed is
  -- carried out. Nothing is said of a request that panics.
  pub create_review-Answered :
      (req : CreateReviewRequest) (st : Engine)
      → IfAnswered env.new_id st (create_review env req st)
  unfolding create_review
  create_review-Answered req st =
      create_resolved-IfAnswered req (resolve req.repository req.provider) st

-- A row of that id is neither pending nor running.
abbrev pub ClosedIf : String → Review → Type 0
ClosedIf id r = r.id ≡ id → is_open r.status ≡ false

none_open :
    (id : String) (rs : List Review)
    → any (may_cancel id) rs ≡ false
    → update_where (may_cancel id) (λ r. record r { status = cancelled }) rs ≡ rs
unfolding update_where
none_open id [] missing = refl
none_open id (r ∷ rs) missing = elim (Bool-cases (may_cancel id r)) [
  | inl this ↦ absurd (ground arith)
  | inr other ↦ rw other (ap (λ (rest : List Review). r ∷ rest) (none_open id rs (ground arith)))
]

none_open-ClosedIf :
    (id : String) (rs : List Review) → any (may_cancel id) rs ≡ false → All (ClosedIf id) rs
none_open-ClosedIf id [] missing = tt
none_open-ClosedIf id (r ∷ rs) missing =
    ((λ own. ground (arith, eq_iff r.id id)), none_open-ClosedIf id rs (ground arith))

some_open :
    (id : String) (rs : List Review) → any (may_cancel id) rs ≡ true → ¬ All (ClosedIf id) rs
some_open id [] there all = absurd (ground arith)
some_open id (r ∷ rs) there (closed, all) = elim (Bool-cases (may_cancel id r)) [
  | inl this ↦
      let own : r.id ≡ id = ground (arith, eq_iff r.id id) in
      let shut : is_open r.status ≡ false = closed own in absurd (ground arith)
  | inr other ↦ some_open id rs (ground arith) all
]

-- The rows of the other reviews.
abbrev pub others : String → List Review → List Review
others id [] = []
others id (r ∷ rs) = if str_eq r.id id then others id rs else r ∷ others id rs

cancel-others :
    (id : String) (rs : List Review)
    → others id (update_where (may_cancel id) (λ r. record r { status = cancelled }) rs)
      ≡ others id rs
unfolding update_where
cancel-others id [] = refl
cancel-others id (r ∷ rs) = elim (Bool-cases (str_eq r.id id)) [
  | inl own ↦ elim (Bool-cases (is_open r.status)) [
    | inl here ↦ rw (own, here, own) (cancel-others id rs)
    | inr shut ↦ rw (own, shut, own) (cancel-others id rs)
  ]
  | inr other ↦ rw (other, other) (ap (λ (rest : List Review). r ∷ rest) (cancel-others id rs))
]

-- CancelReview leaves no row of the review pending or running and the rows of the other reviews as they
-- are, where its statement succeeds. It says 200 if there was such a row, and else 404, with every row as
-- it was.
pub cancel_review-closes :
    (env : Environment) (id : String) (st : Engine)
    → str_eq id "" ≡ false
    → env.cancel_fails ≡ false
    → All (ClosedIf id) (cancel_review env id st).0.database.reviews
      × (others id (cancel_review env id st).0.database.reviews ≡ others id st.database.reviews)
      × (((¬ All (ClosedIf id) st.database.reviews) × ((cancel_review env id st).1.code ≡ 200))
          ⊎ (All (ClosedIf id) st.database.reviews
              × ((cancel_review env id st).1.code ≡ 404)
              × ((cancel_review env id st).0.database.reviews ≡ st.database.reviews)))
unfolding cancel_review cancel_if_open
cancel_review-closes env id st named works =
    let rows = st.database.reviews in
    let closed =
      update_where-All (may_cancel id) (ClosedIf id) (λ r. record r { status = cancelled }) rows
        (λ r this own. refl) (λ r other own. ground (arith, eq_iff r.id id)) in
    elim (Bool-cases (any (may_cancel id) rows)) [
      | inl changed ↦
          rw (named, works, changed)
            (closed, cancel-others id rows, inl (some_open id rows changed, refl))
      | inr missing ↦
          rw (named, works, missing)
            (
              closed,
              cancel-others id rows,
              inr (none_open-ClosedIf id rows missing, refl, none_open id rows missing),
            )
    ]
