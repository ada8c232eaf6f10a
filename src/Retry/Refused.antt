-- ===== src/Retry/Refused.antt =====
-- The errors of `Retry`, internal/engine/retry/handler.go.
use verustcode.Base.{
  String, false, none, some, List, ◌≡◌, ◌⊎◌, inl, inr, refl, subst, ltb, Bool-cases, Option-cases,
}
use verustcode.Model.{Review}
use verustcode.Errors.{AppError, new, wrap, http_status}
use verustcode.Queue.Finish.{has_task}
use verustcode.Recovery.{build_recovery_task}
use verustcode.Store.{Database, get_by_id, is_failed_review, reset_review_state}
use verustcode.Retry.{
  Handler, Engine, Answer, load, reset, reload, retry, retry_reset, retry_task, next_count,
}

-- An error leaves the queue alone, and one that blames the caller leaves everything alone.
abbrev pub Kept : Engine → Answer → Type 0
Kept st (st', none) = Unit
Kept st (st', some e) = (st'.queue ≡ st.queue) × ((ltb (http_status e) 500 ≡ false) ⊎ (st' ≡ st))

retry_task-Kept :
    (h : Handler) (review : Review) (st : Engine) (db : Database)
    → Kept st (retry_task h review (record st { database = db }))
unfolding retry_task http_status new
retry_task-Kept h review st db = elim (Option-cases (build_recovery_task h.surroundings review)) [
  | inl nil ↦ rw (nil, retry_task) (refl, inl refl)
  | inr (t, built) ↦ rw (built, retry_task) tt
]

retry_reset-Kept :
    (h : Handler) (id : String) (review : Review) (st : Engine)
    → Kept st (retry_reset h id review st)
unfolding retry_reset http_status wrap
retry_reset-Kept h id review st = elim (Bool-cases (h.fails reset)) [
  | inl lost ↦ rw (lost, retry_reset) (refl, inl refl)
  | inr done ↦ elim (Bool-cases (h.fails reload)) [
    | inl lost ↦ rw (done, lost, retry_reset) (refl, inl refl)
    | inr read ↦
        let db = reset_review_state id (next_count review.retry_count) st.database in
        elim (Option-cases (get_by_id id db.reviews)) [
          | inl gone ↦ rw (done, read, gone, retry_reset) (refl, inl refl)
          | inr (review', there) ↦
              rw (done, read, there, retry_reset) (retry_task-Kept h review' st db)
        ]
  ]
]

pub retry-Kept :
    (h : Handler) (order : List String) (id : String) (st : Engine) → Kept st (retry h order id st)
unfolding retry http_status new wrap
retry-Kept h order id st = elim (Bool-cases (h.fails load)) [
  | inl lost ↦ rw (lost, retry) (refl, inl refl)
  | inr answered ↦ elim (Option-cases (get_by_id id st.database.reviews)) [
    | inl missing ↦ rw (answered, missing, retry) (refl, inr refl)
    | inr (review, found) ↦ elim (Bool-cases (is_failed_review review.status)) [
      | inr other ↦ rw (answered, found, other, retry) (refl, inr refl)
      | inl over ↦ elim (Bool-cases (has_task st.queue id order)) [
        | inl queued ↦ rw (answered, found, over, queued, retry) (refl, inr refl)
        | inr absent ↦ rw (answered, found, over, absent, retry) (retry_reset-Kept h id review st)
      ]
    ]
  ]
]

-- An error of `Retry` leaves the task queue as it was, and an error whose HTTP status is below 500
-- leaves the database as it was, too.
pub retry_refused :
    (h : Handler) (order : List String) (id : String) (st st' : Engine) (e : AppError)
    → retry h order id st ≡ (st', some e)
    → (st'.queue ≡ st.queue) × ((ltb (http_status e) 500 ≡ false) ⊎ (st' ≡ st))
retry_refused h order id st st' e same = subst (Kept st) same (retry-Kept h order id st)
