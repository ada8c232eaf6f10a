-- ===== src/Retry/Frame.antt =====
-- What a retry, internal/engine/retry/handler.go, leaves of the other reviews.
use verustcode.Base.{
  String, Bool, true, false, List, [], ◌∷◌, ◌≡◌, ◌≢◌, inl, inr, refl, sym, ◌∙◌, ap, eq_iff,
  Bool-cases, Option-cases, str_eq, str_eq_ne, if◌then◌else◌,
}
use verustcode.Base.Int.{ℤ}
use verustcode.Model.{Review, ReviewRule, ReviewStatus, failed}
use verustcode.Queue.Finish.{has_task}
use verustcode.Recovery.{build_recovery_task}
use verustcode.Store.{
  Database, get_by_id, get_rules_by_review_id, is_failed_review, is_review, of_review, update_where,
  update_status_with_error, reset_review_state, reset_review, reset_rule,
}
use verustcode.Store.Rows.{get_by_id-own, first_where-update_where, update_status-update_where}
use verustcode.Retry.{
  Handler, Engine, load, reset, reload, retry, retry_reset, retry_task, next_count,
}

-- The same row and the same rules of a review in both databases.
abbrev pub SameReview : String → Database → Database → Type 0
SameReview other db db' =
    (get_by_id other db'.reviews ≡ get_by_id other db.reviews)
    × (get_rules_by_review_id other db'.rules ≡ get_rules_by_review_id other db.rules)

-- A row of one id is not a row of another.
other_row : (k id other : String) → other ≢ id → str_eq k id ≡ true → str_eq k other ≡ false
other_row k id other ne this = str_eq_ne k other (λ e. ne (sym e ∙ (eq_iff k id).0 this))

module _ (id other : String) (ne : other ≢ id) where
  get_rules-update_where :
      (selects : ReviewRule → Bool) (f : ReviewRule → ReviewRule) (rs : List ReviewRule)
      → ((r : ReviewRule)
          → selects r ≡ true
          → (str_eq r.review_id id ≡ true) × ((f r).review_id ≡ r.review_id))
      → get_rules_by_review_id other (update_where selects f rs) ≡ get_rules_by_review_id other rs
  unfolding get_rules_by_review_id update_where
  get_rules-update_where selects f [] own = refl
  get_rules-update_where selects f (r ∷ rs) own = elim (Bool-cases (selects r)) [
    | inl this ↦
        let (belongs, keeps) = own r this in
        let out : str_eq r.review_id other ≡ false = other_row r.review_id id other ne belongs in
        rw (this, keeps, out) (get_rules-update_where selects f rs own)
    | inr left ↦ rw left (
        ap (λ (rest : List ReviewRule). if str_eq r.review_id other then r ∷ rest else rest)
          (get_rules-update_where selects f rs own))
  ]

  get_by_id-update_where :
      (f : Review → Review) (rs : List Review)
      → ((r : Review) → (f r).id ≡ r.id)
      → get_by_id other (update_where (is_review id) f rs) ≡ get_by_id other rs
  unfolding get_by_id
  get_by_id-update_where f rs keeps =
      first_where-update_where (is_review id) (is_review other) f rs (λ r this.
        let out : str_eq r.id other ≡ false = other_row r.id id other ne this in
        (out, rw keeps out))

  get_by_id-update_status :
      (status : ReviewStatus) (msg : String) (rs : List Review)
      → get_by_id other (update_status_with_error id status msg rs) ≡ get_by_id other rs
  unfolding update_status_with_error
  get_by_id-update_status status msg rs =
      ap (get_by_id other) (update_status-update_where id status msg rs)
      ∙ get_by_id-update_where (λ r. record r { status = status; error_message = msg }) rs
          (λ r. refl)

  reset_review_state-SameReview :
      (count : ℤ) (db : Database) → SameReview other db (reset_review_state id count db)
  unfolding reset_review_state
  reset_review_state-SameReview count db = (
    get_by_id-update_where (reset_review count) db.reviews (λ r. refl),
    get_rules-update_where (of_review id) reset_rule db.rules (λ r this. (this, refl)),
  )

  retry_task-SameReview :
      (h : Handler) (review : Review) (st : Engine)
      → review.id ≡ id
      → SameReview other st.database (retry_task h review st).0.database
  unfolding retry_task
  retry_task-SameReview h review st own =
      elim (Option-cases (build_recovery_task h.surroundings review)) [
        | inr (t, built) ↦ rw (built, retry_task) (refl, refl)
        | inl nil ↦ elim (Bool-cases (h.surroundings.writes review.id)) [
          | inl done ↦
              rw (nil, done, own, retry_task)
                (get_by_id-update_status failed _ st.database.reviews, refl)
          | inr lost ↦ rw (nil, lost, retry_task) (refl, refl)
        ]
      ]

  retry_reset-SameReview :
      (h : Handler) (review : Review) (st : Engine)
      → SameReview other st.database (retry_reset h id review st).0.database
  unfolding retry_reset
  retry_reset-SameReview h review st =
      let count = next_count review.retry_count in
      let db = reset_review_state id count st.database in
      let (row, rules) = reset_review_state-SameReview count st.database in
      elim (Bool-cases (h.fails reset)) [
        | inl lost ↦ rw (lost, retry_reset) (refl, refl)
        | inr done ↦ elim (Bool-cases (h.fails reload)) [
          | inl lost ↦ rw (done, lost, retry_reset) (row, rules)
          | inr read ↦ elim (Option-cases (get_by_id id db.reviews)) [
            | inl gone ↦ rw (done, read, gone, retry_reset) (row, rules)
            | inr (review', there) ↦
                let (row', rules') =
                  retry_task-SameReview h review' (record st { database = db })
                    (get_by_id-own id db.reviews review' there) in
                rw (done, read, there, retry_reset) (row' ∙ row, rules' ∙ rules)
          ]
        ]
      ]

-- Whatever `Retry` meets, the row and the rules of every other review stay as they are.
pub retry-SameReview :
    (h : Handler) (order : List String) (id other : String) (st : Engine)
    → other ≢ id
    → SameReview other st.database (retry h order id st).0.database
unfolding retry
retry-SameReview h order id other st ne = elim (Bool-cases (h.fails load)) [
  | inl lost ↦ rw (lost, retry) (refl, refl)
  | inr answered ↦ elim (Option-cases (get_by_id id st.database.reviews)) [
    | inl missing ↦ rw (answered, missing, retry) (refl, refl)
    | inr (review, found) ↦ elim (Bool-cases (is_failed_review review.status)) [
      | inr live ↦ rw (answered, found, live, retry) (refl, refl)
      | inl over ↦ elim (Bool-cases (has_task st.queue id order)) [
        | inl queued ↦ rw (answered, found, over, queued, retry) (refl, refl)
        | inr absent ↦
            rw (answered, found, over, absent, retry)
              (retry_reset-SameReview id other ne h review st)
      ]
    ]
  ]
]
