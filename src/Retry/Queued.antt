-- ===== src/Retry/Queued.antt =====
-- What `Retry`, internal/engine/retry/handler.go, leaves when it reports no error.
use verustcode.Base.{
  String, true, false, none, some, List, ◌≡◌, ◌≢◌, ◌⊎◌, inl, inr, refl, subst, arith, All,
  Bool-cases, Option-cases, ne_of,
}
use verustcode.Base.Int.{ℤ}
use verustcode.Model.{Task, Review, ReviewRule, pending, failed}
use verustcode.Queue.{RepoTaskQueue, task, enqueue}
use verustcode.Queue.Finish.{has_task}
use verustcode.Recovery.{build_recovery_task}
use verustcode.Recovery.Settled.{build_recovery_task-review}
use verustcode.Recovery.Indexed.{Indexed, enqueue-has}
use verustcode.Store.{
  Database, get_by_id, is_failed_review, is_review, of_review, reset_review_state, reset_review,
  reset_rule, rule_ids, run_of, result_of,
}
use verustcode.Store.Rows.{get_by_id-own, update_where-All, delete_where-All}
use verustcode.Retry.{
  Handler, Engine, Answer, load, reset, reload, retry, retry_reset, retry_task, next_count,
}

-- A row is that of another review, or starts over with that retry count.
abbrev pub StartsOver : String → ℤ → Review → Type 0
StartsOver id count r =
    r.id ≢ id ⊎ ((r.status ≡ pending) × (r.retry_count ≡ count) × (r.error_message ≡ ""))

abbrev pub RuleStartsOver : String → ReviewRule → Type 0
RuleStartsOver id r = r.review_id ≢ id ⊎ ((r.status ≡ pending) × (r.error_message ≡ ""))

-- The tables after the reset of a review whose rules had those primary keys.
pub record IsReset (id : String) (count : ℤ) (old db : Database) : Type 0 where
  pub review_rows : All (StartsOver id count) db.reviews
  pub rule_rows : All (RuleStartsOver id) db.rules
  pub run_rows : All (λ r. run_of (rule_ids id old.rules) r ≡ false) db.runs
  pub result_rows : All (λ r. result_of (rule_ids id old.rules) r ≡ false) db.results

-- `ResetReviewState` sets the review and its rules back to pending, with that retry count and no
-- error message, and leaves no run and no result of the rules that the review had.
pub reset_review_state-IsReset :
    (id : String) (count : ℤ) (db : Database) → IsReset id count db (reset_review_state id count db)
unfolding reset_review_state
reset_review_state-IsReset id count db = record {
  review_rows =
      update_where-All (is_review id) (StartsOver id count) (reset_review count) db.reviews
        (λ r this. inr (refl, refl, refl)) (λ r other. inl (ne_of r.id id other));
  rule_rows =
      update_where-All (of_review id) (RuleStartsOver id) reset_rule db.rules
        (λ r this. inr (refl, refl)) (λ r other. inl (ne_of r.review_id id other));
  run_rows = delete_where-All (run_of (rule_ids id db.rules)) db.runs;
  result_rows = delete_where-All (result_of (rule_ids id db.rules)) db.results;
}

is_failed_review-failed : (r : Review) → is_failed_review r.status ≡ true → r.status ≡ failed
is_failed_review-failed r h = ground arith

-- A task of that review has gone through `Enqueue`.
abbrev pub Entered : String → RepoTaskQueue → RepoTaskQueue → Type 0
Entered id q q' = (t : Task) × (t.review.id ≡ id) × (q' ≡ (enqueue q (task t)).0)

Entered-Indexed : (id : String) (q q' : RepoTaskQueue) → Entered id q q' → Indexed q' id
Entered-Indexed id q q' (t, named, same) =
    rw same (subst (λ (j : String). Indexed (enqueue q (task t)).0 j) named (enqueue-has q t))

-- Without an error, the review is in the queue and the tables are reset.
abbrev Queued : String → ℤ → Engine → Answer → Type 0
Queued id count st (st', some e) = Unit
Queued id count st (st', none) =
    Entered id st.queue st'.queue × IsReset id count st.database st'.database

retry_task-Queued :
    (h : Handler) (review : Review) (st : Engine) (id : String) (count : ℤ)
    → review.id ≡ id
    → Queued id count st
        (retry_task h review (record st { database = reset_review_state id count st.database }))
unfolding retry_task
retry_task-Queued h review st id count own =
    elim (Option-cases (build_recovery_task h.surroundings review)) [
      | inl nil ↦ rw (nil, retry_task) tt
      | inr (t, built) ↦
          let named : t.review.id ≡ id =
            rw (build_recovery_task-review h.surroundings review t built) own in
          rw (built, retry_task) ((t, named, refl), reset_review_state-IsReset id count st.database)
    ]

retry_reset-Queued :
    (h : Handler) (id : String) (review : Review) (st : Engine)
    → Queued id (next_count review.retry_count) st (retry_reset h id review st)
unfolding retry_reset
retry_reset-Queued h id review st =
    let count = next_count review.retry_count in
    elim (Bool-cases (h.fails reset)) [
      | inl lost ↦ rw (lost, retry_reset) tt
      | inr done ↦ elim (Bool-cases (h.fails reload)) [
        | inl lost ↦ rw (done, lost, retry_reset) tt
        | inr read ↦
            let db = reset_review_state id count st.database in
            elim (Option-cases (get_by_id id db.reviews)) [
              | inl gone ↦ rw (done, read, gone, retry_reset) tt
              | inr (review', there) ↦
                  rw (done, read, there, retry_reset)
                    (retry_task-Queued h review' st id count
                      (get_by_id-own id db.reviews review' there))
            ]
      ]
    ]

-- The failed review that a call without an error had found.
abbrev pub Retried : List String → String → Engine → Answer → Type 0
Retried order id st (st', some e) = Unit
Retried order id st (st', none) =
    (review : Review) × (get_by_id id st.database.reviews ≡ some review)
    × (review.status ≡ failed)
    × (has_task st.queue id order ≡ false)
    × Entered id st.queue st'.queue
    × IsReset id (next_count review.retry_count) st.database st'.database

Retried-found :
    (order : List String) (id : String) (st : Engine) (review : Review) (reply : Answer)
    → get_by_id id st.database.reviews ≡ some review
    → is_failed_review review.status ≡ true
    → has_task st.queue id order ≡ false
    → Queued id (next_count review.retry_count) st reply
    → Retried order id st reply
Retried-found order id st review (st', some e) found over absent q = tt
Retried-found order id st review (st', none) found over absent (entered, db) =
    (review, found, is_failed_review-failed review over, absent, entered, db)

pub retry-Retried :
    (h : Handler) (order : List String) (id : String) (st : Engine)
    → Retried order id st (retry h order id st)
unfolding retry
retry-Retried h order id st = elim (Bool-cases (h.fails load)) [
  | inl lost ↦ rw (lost, retry) tt
  | inr answered ↦ elim (Option-cases (get_by_id id st.database.reviews)) [
    | inl missing ↦ rw (answered, missing, retry) tt
    | inr (review, found) ↦ elim (Bool-cases (is_failed_review review.status)) [
      | inr other ↦ rw (answered, found, other, retry) tt
      | inl over ↦ elim (Bool-cases (has_task st.queue id order)) [
        | inl queued ↦ rw (answered, found, over, queued, retry) tt
        | inr absent ↦
            rw (answered, found, over, absent, retry)
              (Retried-found order id st review (retry_reset h id review st) found over absent
                (retry_reset-Queued h id review st))
      ]
    ]
  ]
]

-- `Retry` without an error means that there was a review of that id, that it had failed and was not
-- in the queue, and that now it is indexed in the queue, its row and its rules' rows are pending
-- again without an error message, its retry count is one higher, and no runs and results of its
-- rules are left.
pub retry_queues :
    (h : Handler) (order : List String) (id : String) (st st' : Engine)
    → retry h order id st ≡ (st', none)
    → (review : Review) × (get_by_id id st.database.reviews ≡ some review)
      × (review.status ≡ failed)
      × (has_task st.queue id order ≡ false)
      × Indexed st'.queue id
      × IsReset id (next_count review.retry_count) st.database st'.database
retry_queues h order id st st' same =
    let (review, found, over, absent, entered, db) =
      subst (Retried order id st) same (retry-Retried h order id st) in
    (review, found, over, absent, Entered-Indexed id st.queue st'.queue entered, db)
