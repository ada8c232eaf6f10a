-- ===== src/Store.antt =====
-- The review store, internal/store/review.go, as far as the engine's status changes use it: four
-- tables, each a list of rows in the order of their primary keys. A statement reads or writes the rows
-- that its condition selects, and a transaction that fails leaves the tables as they were.
pub mod Rows
use verustcode.Base.{
  ℕ, ◌+◌, String, Bool, true, false, Option, none, some, List, [], ◌∷◌, ◌++◌, ◌&&◌, ◌||◌, not, ◌==◌,
  str_eq, if◌then◌else◌, any,
}
use verustcode.Base.Int.{ℤ, pos}
use verustcode.Model.{
  Review, ReviewRule, ReviewRuleRun, ReviewResult, ReviewStatus, RuleStatus, RunStatus, pending,
  running, completed, failed,
}

pub record Database : Type 0 where
  pub reviews : List Review
  pub rules : List ReviewRule
  pub next_rule_id : ℕ
  pub runs : List ReviewRuleRun
  pub results : List ReviewResult

-- `GetRulesByReviewID`; a review's rows are created in the order of their indices, by which it sorts.
unfoldable pub get_rules_by_review_id : String → List ReviewRule → List ReviewRule
get_rules_by_review_id id [] = []
get_rules_by_review_id id (r ∷ rs) =
    let rest = get_rules_by_review_id id rs in if str_eq r.review_id id then r ∷ rest else rest

-- `UpdateRule` of a row that the table has: gorm saves it under its primary key.
unfoldable pub update_rule : ReviewRule → List ReviewRule → List ReviewRule
update_rule row [] = []
update_rule row (r ∷ rs) =
    let rest = update_rule row rs in if r.id == row.id then row ∷ rest else r ∷ rest

-- `CreateRule`: a row with the next primary key.
unfoldable pub create_rule : ReviewRule → Database → Database
create_rule row db = record db {
  rules = db.rules ++ (row ∷ []);
  next_rule_id = db.next_rule_id + 1;
}

-- `UpdateStatusWithError` of the review store.
unfoldable pub update_status_with_error : String → ReviewStatus → String → List Review → List Review
update_status_with_error id status msg [] = []
update_status_with_error id status msg (r ∷ rs) =
    let rest = update_status_with_error id status msg rs in
    if str_eq r.id id then record r { status = status; error_message = msg } ∷ rest else r ∷ rest

-- `UpdateStatusWithErrorAndCompletedAt`.
unfoldable pub close_review : String → ReviewStatus → String → ℕ → List Review → List Review
close_review id status msg now [] = []
close_review id status msg now (r ∷ rs) =
    let rest = close_review id status msg now rs in
    if str_eq r.id id
    then record r { status = status; error_message = msg; completed_at = some now } ∷ rest
    else r ∷ rest

abbrev pub is_open : ReviewStatus → Bool
is_open pending = true
is_open running = true
is_open _ = false

-- `ListPendingOrRunning`.
unfoldable pub list_pending_or_running : List Review → List Review
list_pending_or_running [] = []
list_pending_or_running (r ∷ rs) =
    let rest = list_pending_or_running rs in if is_open r.status then r ∷ rest else rest

module _ {A : Type 0} (selects : A → Bool) where
  -- `UPDATE … WHERE`: the rows that the condition selects are changed.
  unfoldable pub update_where : (A → A) → List A → List A
  update_where f [] = []
  update_where f (r ∷ rs) =
      let rest = update_where f rs in if selects r then f r ∷ rest else r ∷ rest

  -- `DELETE … WHERE`.
  unfoldable pub delete_where : List A → List A
  delete_where [] = []
  delete_where (r ∷ rs) = let rest = delete_where rs in if selects r then rest else r ∷ rest

  -- `First`: the row of the least primary key that the condition selects.
  unfoldable pub first_where : List A → Option A
  first_where [] = none
  first_where (r ∷ rs) = if selects r then some r else first_where rs

abbrev pub is_review : String → Review → Bool
is_review id r = str_eq r.id id

abbrev pub of_review : String → ReviewRule → Bool
of_review id r = str_eq r.review_id id

-- `GetByID`; `none` is gorm's ErrRecordNotFound.
unfoldable pub get_by_id : String → List Review → Option Review
get_by_id id rs = first_where (is_review id) rs

-- `GetRuleByID`.
unfoldable pub get_rule_by_id : ℕ → List ReviewRule → Option ReviewRule
get_rule_by_id id rs = first_where (λ r. r.id == id) rs

-- The primary keys of the rules of a review.
unfoldable pub rule_ids : String → List ReviewRule → List ℕ
rule_ids id [] = []
rule_ids id (r ∷ rs) = let rest = rule_ids id rs in if of_review id r then r.id ∷ rest else rest

abbrev pub reset_review : ℤ → Review → Review
reset_review count r = record r {
  status = pending;
  retry_count = count;
  error_message = "";
  current_rule_index = pos 0;
  completed_at = none;
}

abbrev pub reset_rule : ReviewRule → ReviewRule
reset_rule r = record r {
  status = pending;
  error_message = "";
  started_at = none;
  completed_at = none;
}

abbrev pub run_of : List ℕ → ReviewRuleRun → Bool
run_of ids r = any (λ (i : ℕ). r.review_rule_id == i) ids

abbrev pub result_of : List ℕ → ReviewResult → Bool
result_of ids r = any (λ (i : ℕ). r.review_rule_id == i) ids

-- `ResetReviewState`: the review and its rules become pending, and their runs and results go.
unfoldable pub reset_review_state : String → ℤ → Database → Database
reset_review_state id count db =
    let ids = rule_ids id db.rules in
    record db {
      reviews = update_where (is_review id) (reset_review count) db.reviews;
      rules = update_where (of_review id) reset_rule db.rules;
      runs = delete_where (run_of ids) db.runs;
      results = delete_where (result_of ids) db.results;
    }

abbrev pub is_rule_of : String → String → ReviewRule → Bool
is_rule_of rule_id review_id r = str_eq r.rule_id rule_id && str_eq r.review_id review_id

abbrev pub restart_rule : ℤ → ℕ → ReviewRule → ReviewRule
restart_rule count now r = record r {
  status = running;
  retry_count = count;
  error_message = "";
  started_at = some now;
  completed_at = none;
}

abbrev pub is_failed_review : ReviewStatus → Bool
is_failed_review failed = true
is_failed_review _ = false

-- The columns of the review that a rule's retry writes: a failed review runs again.
abbrev pub restart_review : ℤ → Bool → Review → Review
restart_review count was_failed r =
    if was_failed
    then record r { retry_count = count; status = running; error_message = "" }
    else record r { retry_count = count }

-- `ResetRuleState`; `none` when the rule or the review is not there, and nothing is written.
unfoldable pub reset_rule_state : String → String → ℤ → ℤ → ℕ → Database → Option Database
reset_rule_state rule_id review_id rule_count review_count now db =
    elim (first_where (is_rule_of rule_id review_id) db.rules) [
      | none ↦ none
      | some rule ↦ elim (get_by_id review_id db.reviews) [
        | none ↦ none
        | some review ↦ some (record db {
          reviews =
              update_where (is_review review_id)
                (restart_review review_count (is_failed_review review.status)) db.reviews;
          rules =
              update_where (is_rule_of rule_id review_id) (restart_rule rule_count now) db.rules;
          runs = delete_where (run_of (rule.id ∷ [])) db.runs;
          results = delete_where (result_of (rule.id ∷ [])) db.results;
        })
      ]
    ]

-- `UpdateStatusToRunningIfPending`, with whether a row was changed.
abbrev pub may_start : ReviewStatus → Bool
may_start pending = true
may_start running = true
may_start _ = false

abbrev pub start_review : ℕ → Review → Review
start_review now r = record r { status = running; started_at = some now }

unfoldable pub update_status_to_running_if_pending : String → ℕ → List Review → List Review × Bool
update_status_to_running_if_pending id now rs = (
  update_where (λ r. is_review id r && may_start r.status) (start_review now) rs,
  any (λ r. is_review id r && may_start r.status) rs,
)
