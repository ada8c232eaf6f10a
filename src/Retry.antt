-- ===== src/Retry.antt =====
-- The retry of a failed review or of one failed rule, `Retry` and `RetryRule` of
-- internal/engine/retry/handler.go, over the queue and the review store.
pub mod Background
mod Frame
mod Queued
mod Refused
mod Reachable
mod Rule
mod Tests
use Prim.Native.String.{◌++◌}
use verustcode.Base.{
  ℕ, String, Bool, true, false, Option, none, some, List, [], ◌∷◌, str_eq, not, if◌then◌else◌,
}
use verustcode.Base.Int.{ℤ, pos, ◌+ℤ◌, wrap64}
use verustcode.Model.{
  Review, ReviewRule, ReviewStatus, RuleStatus, Task, pending, running, completed, failed,
  cancelled, skipped,
}
use verustcode.Errors.{AppError, new, wrap, review_not_found, db_query, validation, internal}
use verustcode.Queue.{RepoTaskQueue, task, enqueue}
use verustcode.Queue.Finish.{has_task}
use verustcode.Recovery.{Surroundings, build_recovery_task}
use verustcode.Store.{
  Database, get_by_id, get_rule_by_id, first_where, reset_review_state, reset_rule_state,
  update_status_with_error, is_failed_review,
}

-- The statements whose failure the handler meets.
pub data Statement : Type 0 where
  load reset reload_rule reload : Statement

-- The surroundings in which a task is built, the clock, and which statements the database fails to
-- carry out, with its text for it.
pub record Handler : Type 0 where
  pub surroundings : Surroundings
  pub now : ℕ
  pub fails : Statement → Bool
  pub fault : String

pub record Engine : Type 0 where
  pub queue : RepoTaskQueue
  pub database : Database

abbrev pub status_text : ReviewStatus → String
status_text pending = "pending"
status_text running = "running"
status_text completed = "completed"
status_text failed = "failed"
status_text cancelled = "cancelled"

abbrev pub rule_status_text : RuleStatus → String
rule_status_text pending = "pending"
rule_status_text running = "running"
rule_status_text completed = "completed"
rule_status_text failed = "failed"
rule_status_text skipped = "skipped"

-- `retry_count + 1` of Go's int.
abbrev pub next_count : ℤ → ℤ
next_count n = wrap64 (n +ℤ pos 1)

-- A call of the handler returns the new state and its error.
abbrev pub Answer : Type 0
Answer = Engine × Option AppError

abbrev pub refuse : Engine → AppError → Answer
refuse st e = (st, some e)

abbrev pub only_failed : ReviewStatus → AppError
only_failed s = new validation (
    "cannot retry review with status '"
    ++ (status_text s ++ "', only failed reviews can be retried"))

abbrev pub retry_not_built : String
retry_not_built = "retry failed: could not build recovery task"

-- From the reloaded review on: build its task and put it into the queue.
unfoldable pub retry_task : Handler → Review → Engine → Answer
retry_task h review st = elim (build_recovery_task h.surroundings review) [
  | none ↦ (
    record st {
      database = record st.database {
        reviews =
            if h.surroundings.writes review.id
            then update_status_with_error review.id failed retry_not_built st.database.reviews
            else st.database.reviews;
      };
    },
    some (new internal "failed to build recovery task for retry"),
  )
  | some t ↦ (record st { queue = (enqueue st.queue (task t)).0 }, none)
]

-- From the reset on.
unfoldable pub retry_reset : Handler → String → Review → Engine → Answer
retry_reset h id review st =
    if h.fails reset
    then refuse st (wrap db_query "failed to reset review state" h.fault)
    else let st' = record st {
      database = reset_review_state id (next_count review.retry_count) st.database;
    } in
      if h.fails reload
      then refuse st' (wrap db_query "failed to reload review" h.fault)
      else elim (get_by_id id st'.database.reviews) [
        | none ↦ refuse st' (wrap db_query "failed to reload review" "record not found")
        | some review' ↦ retry_task h review' st'
      ]

-- `Retry`; `order` is the order in which `HasTask` goes through the repositories.
unfoldable pub retry : Handler → List String → String → Engine → Answer
retry h order id st =
    if h.fails load
    then refuse st (wrap db_query "failed to load review" h.fault)
    else elim (get_by_id id st.database.reviews) [
      | none ↦ refuse st (wrap review_not_found "review not found" "record not found")
      | some review ↦
          if not (is_failed_review review.status)
          then refuse st (only_failed review.status)
          else if has_task st.queue id order
          then refuse st (new validation "review is already in the queue")
          else retry_reset h id review st
    ]

abbrev pub is_failed_rule : RuleStatus → Bool
is_failed_rule failed = true
is_failed_rule _ = false

-- The rule of a review with that rule id: the first of the review's rows.
abbrev pub is_target : String → String → ReviewRule → Bool
is_target review_id rule_id r =
    if str_eq r.review_id review_id then str_eq r.rule_id rule_id else false

-- The rule's execution that a successful `RetryRule` starts, on the rows as they are by then.
pub record Started : Type 0 where
  pub review : Review
  pub rule : ReviewRule

-- From the reset on.
unfoldable pub retry_rule_reset :
    Handler
    → String
    → String
    → Review
    → ReviewRule
    → Database
    → Database × Option AppError × Option Started
retry_rule_reset h review_id rule_id review target db =
    if h.fails reset
    then (db, some (wrap db_query "failed to reset rule state" h.fault), none)
    else elim (reset_rule_state rule_id review_id (next_count target.retry_count)
        (next_count review.retry_count) h.now db) [
          | none ↦ (db, some (wrap db_query "failed to reset rule state" "record not found"), none)
          | some db' ↦
              if h.fails reload_rule
              then (db', some (wrap db_query "failed to reload rule" h.fault), none)
              else elim (get_rule_by_id target.id db'.rules) [
                | none ↦
                    (db', some (wrap db_query "failed to reload rule" "record not found"), none)
                | some rule' ↦
                    if h.fails reload
                    then (db', some (wrap db_query "failed to reload review" h.fault), none)
                    else elim (get_by_id review_id db'.reviews) [
                      | none ↦ (
                        db',
                        some (wrap db_query "failed to reload review" "record not found"),
                        none,
                      )
                      | some review' ↦ (db', none, some (record { review = review'; rule = rule' }))
                    ]
              ]
        ]

-- `RetryRule`: the new tables, its error, and the execution that it starts.
unfoldable pub retry_rule :
    Handler → String → String → Database → Database × Option AppError × Option Started
retry_rule h review_id rule_id db =
    if h.fails load
    then (db, some (wrap db_query "failed to load review" h.fault), none)
    else elim (get_by_id review_id db.reviews) [
      | none ↦ (db, some (wrap review_not_found "review not found" "record not found"), none)
      | some review ↦ elim (first_where (is_target review_id rule_id) db.rules) [
        | none ↦
            (db, some (new validation ("rule '" ++ (rule_id ++ "' not found in review"))), none)
        | some target ↦
            if not (is_failed_rule target.status)
            then (
              db,
              some (
                  new validation (
                    "cannot retry rule with status '"
                    ++ (rule_status_text target.status ++ "', only failed rules can be retried"))),
              none,
            )
            else retry_rule_reset h review_id rule_id review target db
      ]
    ]
