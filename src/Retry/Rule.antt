-- ===== src/Retry/Rule.antt =====
-- `RetryRule`, internal/engine/retry/handler.go.
use verustcode.Base.{
  ℕ, String, Bool, true, false, Option, none, some, List, [], ◌∷◌, ◌≡◌, ◌≢◌, ◌⊎◌, inl, inr, refl,
  subst, ◌∙◌, arith, All, Bool-cases, Option-cases, str_eq, ltb, ◌==◌,
}
use verustcode.Base.Int.{ℤ}
use verustcode.Model.{Review, ReviewRule, failed}
use verustcode.Errors.{AppError, http_status, new, wrap}
use verustcode.Store.{
  Database, get_by_id, get_rule_by_id, first_where, reset_rule_state, is_failed_review, is_review,
  is_rule_of, restart_rule, restart_review, run_of, result_of, update_where, delete_where,
}
use verustcode.Store.Rows.{
  first_where-All, first_where-selected, first_where-updated, first_where-ext, delete_where-All,
}
use verustcode.Retry.{
  Handler, Started, load, reset, reload, reload_rule, retry_rule, retry_rule_reset, next_count,
  is_target, is_failed_rule,
}

abbrev pub RuleReply : Type 0
RuleReply = Database × Option AppError × Option Started

-- No two rows of the table have one primary key.
abbrev pub DistinctKeys : List ReviewRule → Type 0
DistinctKeys [] = Unit
DistinctKeys (r ∷ rs) = All (λ (u : ReviewRule). r.id ≢ u.id) rs × DistinctKeys rs

same_key : (n : ℕ) → (n == n) ≡ true
same_key n = ground arith

other_key : (m n : ℕ) → m ≢ n → (m == n) ≡ false
other_key m n ne = ground (arith, ne)

-- With distinct primary keys a row is found by its own.
get_rule_by_id-own :
    (selects : ReviewRule → Bool) (rs : List ReviewRule) (a : ReviewRule)
    → DistinctKeys rs
    → first_where selects rs ≡ some a
    → get_rule_by_id a.id rs ≡ some a
unfolding get_rule_by_id first_where
get_rule_by_id-own selects [] a distinct found = absurd (ground arith)
get_rule_by_id-own selects (r ∷ rs) a (out, distinct) found = elim (Bool-cases (selects r)) [
  | inl this ↦ let same : r ≡ a = ground arith in rw (same, same_key a.id) refl
  | inr other ↦
      let later : first_where selects rs ≡ some a = rw (other, first_where) at found in
      let ne : r.id ≢ a.id = first_where-All selects (λ u. r.id ≢ u.id) rs a out later in
      rw (other_key r.id a.id ne) (get_rule_by_id-own selects rs a distinct later)
]

is_rule_of-target :
    (review_id rule_id : String) (r : ReviewRule)
    → is_rule_of rule_id review_id r ≡ is_target review_id rule_id r
is_rule_of-target review_id rule_id r = elim (Bool-cases (str_eq r.review_id review_id)) [
  | inl a ↦ elim (Bool-cases (str_eq r.rule_id rule_id)) [
    | inl b ↦ rw (a, b) refl
    | inr b ↦ rw (a, b) refl
  ]
  | inr a ↦ elim (Bool-cases (str_eq r.rule_id rule_id)) [
    | inl b ↦ rw (a, b) refl
    | inr b ↦ rw (a, b) refl
  ]
]

-- The rule that a successful call runs, as it was before and as its row is afterwards.
pub record Restarts (h : Handler) (review_id rule_id : String) (db db' : Database) (s : Started)
    (target : ReviewRule) : Type 0 where
  pub was_target : first_where (is_target review_id rule_id) db.rules ≡ some target
  pub was_failed : target.status ≡ failed
  pub handed_on : s.rule ≡ restart_rule (next_count target.retry_count) h.now target
  pub rule_row : get_rule_by_id target.id db'.rules ≡ some s.rule
  pub review_row : get_by_id review_id db'.reviews ≡ some s.review
  pub run_rows : All (λ r. run_of (target.id ∷ []) r ≡ false) db'.runs
  pub result_rows : All (λ r. result_of (target.id ∷ []) r ≡ false) db'.results

-- Either an error and no execution, or an execution of the failed rule; an error that blames the
-- caller leaves the tables alone.
abbrev Answers : Handler → String → String → Database → RuleReply → Type 0
Answers h review_id rule_id db (db', none, none) = ⊥
Answers h review_id rule_id db (db', some e, some s) = ⊥
Answers h review_id rule_id db (db', some e, none) = (ltb (http_status e) 500 ≡ false) ⊎ (db' ≡ db)
Answers h review_id rule_id db (db', none, some s) =
    (target : ReviewRule) × Restarts h review_id rule_id db db' s target

module _ (h : Handler) (review_id rule_id : String) (review : Review) (target : ReviewRule)
    (db : Database) (keys : DistinctKeys db.rules)
    (asked : first_where (is_target review_id rule_id) db.rules ≡ some target)
    (over : target.status ≡ failed) where
  is_row : first_where (is_rule_of rule_id review_id) db.rules ≡ some target
  is_row =
      first_where-ext (is_target review_id rule_id) (is_rule_of rule_id review_id) db.rules
        (is_rule_of-target review_id rule_id)
      ∙ asked

  abbrev count : ℤ
  count = next_count target.retry_count

  -- The tables that `ResetRuleState` leaves.
  record Reset (db' : Database) : Type 0 where
    rule_row : get_rule_by_id target.id db'.rules ≡ some (restart_rule count h.now target)
    run_rows : All (λ r. run_of (target.id ∷ []) r ≡ false) db'.runs
    result_rows : All (λ r. result_of (target.id ∷ []) r ≡ false) db'.results

  -- The tables that it writes when the row of the review is this one.
  abbrev written : ℤ → Review → Database
  written c row = record db {
    reviews =
        update_where (is_review review_id) (restart_review c (is_failed_review row.status))
          db.reviews;
    rules = update_where (is_rule_of rule_id review_id) (restart_rule count h.now) db.rules;
    runs = delete_where (run_of (target.id ∷ [])) db.runs;
    results = delete_where (result_of (target.id ∷ [])) db.results;
  }

  written-Reset : (c : ℤ) (row : Review) → Reset (written c row)
  unfolding get_rule_by_id
  written-Reset c row = record {
    rule_row =
        first_where-updated (is_rule_of rule_id review_id) (λ (r : ReviewRule). r.id == target.id)
          (restart_rule count h.now) db.rules target (λ r. refl)
          (get_rule_by_id-own (is_rule_of rule_id review_id) db.rules target keys is_row)
          (first_where-selected (is_rule_of rule_id review_id) db.rules target is_row);
    run_rows = delete_where-All (run_of (target.id ∷ [])) db.runs;
    result_rows = delete_where-All (result_of (target.id ∷ [])) db.results;
  }

  changed :
      (c : ℤ) (db' : Database) (row : Review)
      → reset_rule_state rule_id review_id count c h.now db ≡ some db'
      → get_by_id review_id db.reviews ≡ some row
      → written c row ≡ db'
  unfolding reset_rule_state
  changed c db' row done there =
      let full : some (written c row) ≡ some db' = rw (is_row, there, reset_rule_state) at done in
      ground (arith, full)

  reset_rule_state-Reset :
      (c : ℤ) (db' : Database)
      → reset_rule_state rule_id review_id count c h.now db ≡ some db'
      → Reset db'
  unfolding reset_rule_state
  reset_rule_state-Reset c db' done = elim (Option-cases (get_by_id review_id db.reviews)) [
    | inl gone ↦
        let nothing : Option Database = none in
        let never : nothing ≡ some db' = rw (is_row, gone, reset_rule_state) at done in cc
    | inr (row, there) ↦ subst Reset (changed c db' row done there) (written-Reset c row)
  ]

  retry_rule_reset-Answers :
      Answers h review_id rule_id db (retry_rule_reset h review_id rule_id review target db)
  unfolding retry_rule_reset http_status wrap
  retry_rule_reset-Answers =
      let c = next_count review.retry_count in
      elim (Bool-cases (h.fails reset)) [
        | inl lost ↦ rw (lost, retry_rule_reset) (inl refl)
        | inr sent ↦ elim (Option-cases (reset_rule_state rule_id review_id count c h.now db)) [
          | inl gone ↦ rw (sent, gone, retry_rule_reset) (inl refl)
          | inr (db', done) ↦
              let state : Reset db' = reset_rule_state-Reset c db' done in
              elim (Bool-cases (h.fails reload_rule)) [
                | inl lost ↦ rw (sent, done, lost, retry_rule_reset) (inl refl)
                | inr read ↦ elim (Bool-cases (h.fails reload)) [
                  | inl lost ↦
                      rw (sent, done, read, state.rule_row, lost, retry_rule_reset) (inl refl)
                  | inr again ↦ elim (Option-cases (get_by_id review_id db'.reviews)) [
                    | inl gone ↦
                        rw (sent, done, read, state.rule_row, again, gone, retry_rule_reset)
                          (inl refl)
                    | inr (review', there) ↦
                        rw (sent, done, read, state.rule_row, again, there, retry_rule_reset)
                          (
                            target,
                            record {
                              was_target = asked;
                              was_failed = over;
                              handed_on = refl;
                              rule_row = state.rule_row;
                              review_row = there;
                              run_rows = state.run_rows;
                              result_rows = state.result_rows;
                            },
                          )
                  ]
                ]
              ]
        ]
      ]

is_failed_rule-failed : (r : ReviewRule) → is_failed_rule r.status ≡ true → r.status ≡ failed
is_failed_rule-failed r h = ground arith

retry_rule-Answers :
    (h : Handler) (review_id rule_id : String) (db : Database)
    → DistinctKeys db.rules
    → Answers h review_id rule_id db (retry_rule h review_id rule_id db)
unfolding retry_rule http_status new wrap
retry_rule-Answers h review_id rule_id db keys = elim (Bool-cases (h.fails load)) [
  | inl lost ↦ rw (lost, retry_rule) (inr refl)
  | inr answered ↦ elim (Option-cases (get_by_id review_id db.reviews)) [
    | inl missing ↦ rw (answered, missing, retry_rule) (inr refl)
    | inr (review, found) ↦
        elim (Option-cases (first_where (is_target review_id rule_id) db.rules)) [
          | inl missing ↦ rw (answered, found, missing, retry_rule) (inr refl)
          | inr (target, asked) ↦ elim (Bool-cases (is_failed_rule target.status)) [
            | inr other ↦ rw (answered, found, asked, other, retry_rule) (inr refl)
            | inl over ↦
                rw (answered, found, asked, over, retry_rule)
                  (retry_rule_reset-Answers h review_id rule_id review target db keys asked
                    (is_failed_rule-failed target over))
          ]
        ]
  ]
]

Answers-starts :
    (h : Handler) (review_id rule_id : String) (db db' : Database) (o : Option Started)
    → Answers h review_id rule_id db (db', none, o)
    → (s : Started) × (o ≡ some s)
      × (target : ReviewRule) × Restarts h review_id rule_id db db' s target
Answers-starts h review_id rule_id db db' none a = absurd a
Answers-starts h review_id rule_id db db' (some s) (target, r) = (s, refl, target, r)

Answers-refuses :
    (h : Handler) (review_id rule_id : String) (db db' : Database) (e : AppError)
    (o : Option Started)
    → Answers h review_id rule_id db (db', some e, o)
    → (o ≡ none) × ((ltb (http_status e) 500 ≡ false) ⊎ (db' ≡ db))
Answers-refuses h review_id rule_id db db' e none a = (refl, a)
Answers-refuses h review_id rule_id db db' e (some s) a = absurd a

module _ (h : Handler) (review_id rule_id : String) (db db' : Database) (o : Option Started)
    (keys : DistinctKeys db.rules) where
  -- `RetryRule` without an error starts one execution: the rule that it found in the review had
  -- failed, its row now says that it is running, with a retry count one higher, without an error
  -- message and an end, and started now, this row is what is executed with the review's row as it
  -- is by then, and no run and no result of the rule is left. The rules have distinct primary keys.
  pub retry_rule_starts :
      retry_rule h review_id rule_id db ≡ (db', none, o)
      → (s : Started) × (o ≡ some s)
        × (target : ReviewRule) × Restarts h review_id rule_id db db' s target
  retry_rule_starts same =
      Answers-starts h review_id rule_id db db' o (
        subst (Answers h review_id rule_id db) same
          (retry_rule-Answers h review_id rule_id db keys))

  -- `RetryRule` with an error starts no execution, and if the error's HTTP status is below 500, it
  -- leaves the tables as they were. The rules have distinct primary keys.
  pub retry_rule_refused :
      (e : AppError)
      → retry_rule h review_id rule_id db ≡ (db', some e, o)
      → (o ≡ none) × ((ltb (http_status e) 500 ≡ false) ⊎ (db' ≡ db))
  retry_rule_refused e same =
      Answers-refuses h review_id rule_id db db' e o (
        subst (Answers h review_id rule_id db) same
          (retry_rule-Answers h review_id rule_id db keys))
