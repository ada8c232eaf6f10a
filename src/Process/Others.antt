-- ===== src/Process/Others.antt =====
-- What `processTask`, internal/engine/engine.go, does to the rows of the other reviews.
use verustcode.Base.{
  ℕ, String, Bool, true, false, some, List, [], ◌∷◌, ◌≡◌, ◌≢◌, inl, inr, refl, ap, ◌∙◌, Bool-cases,
  Option-cases, is_empty, lookup, arith, eq_iff,
}
use verustcode.Model.{Review, ReviewStatus, Task, failed}
use verustcode.Dsl.Schema.{ReviewRuleConfig}
use verustcode.Store.{
  Database, get_by_id, is_review, is_open, update_where, close_review, create_rule,
  update_status_to_running_if_pending, get_rules_by_review_id, start_review,
}
use verustcode.Store.Rows.{get_by_id-own, first_where-update_where, close_review-update_where}
use verustcode.Process.{
  Machine, finish, mark_failed, report, handle_error, write_review, finish_review, rules_failed,
  end_run, prepare, process_repository, process_started, process_task,
  load_dsl_config_with_priority, repo_path, metadata, load_review, start, runs_from, build_request,
  Prepared-cases, Loaded-cases,
}
use verustcode.Runner.{
  Execution, Progress, execute_rule, start_rule, resume_rule, run_rule, run_rules, decided_status,
  update_review_status, run_review_with_tracking, is_completed, existing_rules,
}

-- The rules' execution does not write the reviews.
run_rule-reviews :
    (env : Execution) (review : Review) (rule : ReviewRuleConfig) (p : Progress)
    → (run_rule env review rule p).database.reviews ≡ p.database.reviews
unfolding run_rule start_rule resume_rule execute_rule create_rule
run_rule-reviews env review rule p = elim (Option-cases (lookup rule.id p.existing)) [
  | inl new ↦ rw (new, run_rule) refl
  | inr (row, found) ↦ elim (Bool-cases (is_completed row.status)) [
    | inl done ↦ rw (found, done, run_rule) refl
    | inr left ↦ rw (found, left, run_rule) refl
  ]
]

pub run_rules-reviews :
    (env : Execution) (review : Review) (rules : List ReviewRuleConfig) (p : Progress)
    → (run_rules env review rules p).database.reviews ≡ p.database.reviews
unfolding run_rules
run_rules-reviews env review [] p = refl
run_rules-reviews env review (rule ∷ rules) p =
    run_rules-reviews env review rules (run_rule env review rule p)
    ∙ run_rule-reviews env review rule p

module _ (id other : String) (ne : other ≢ id) where
  apart : (r : Review) → is_review id r ≡ true → is_review other r ≡ false
  apart r this = ground (arith, eq_iff r.id id, eq_iff r.id other, ne)

  get_by_id-update :
      (selects : Review → Bool) (f : Review → Review) (rs : List Review)
      → ((r : Review) → selects r ≡ true → is_review id r ≡ true)
      → ((r : Review) → (f r).id ≡ r.id)
      → get_by_id other (update_where selects f rs) ≡ get_by_id other rs
  unfolding get_by_id
  get_by_id-update selects f rs own keeps =
      first_where-update_where selects (is_review other) f rs
        (λ r this. let out = apart r (own r this) in (out, rw (keeps r) out))

  get_by_id-close :
      (status : ReviewStatus) (msg : String) (now : ℕ) (rs : List Review)
      → get_by_id other (close_review id status msg now rs) ≡ get_by_id other rs
  get_by_id-close status msg now rs =
      ap (get_by_id other) (close_review-update_where id status msg now rs)
      ∙ get_by_id-update (is_review id)
          (λ r. record r { status = status; error_message = msg; completed_at = some now }) rs
          (λ r this. this) (λ r. refl)

  -- The other review's row is the same in both databases.
  abbrev Same : Database → Database → Type 0
  Same db db' = get_by_id other db'.reviews ≡ get_by_id other db.reviews

  handle_error-Same :
      (m : Machine) (msg : String) (db : Database) → Same db (handle_error m id msg db).0
  unfolding handle_error
  handle_error-Same m msg db = elim (Bool-cases m.on_error) [
    | inr unset ↦ rw unset refl
    | inl set ↦ elim (Bool-cases (m.fails report)) [
      | inl lost ↦ rw (set, lost) refl
      | inr done ↦ rw (set, done) (get_by_id-close failed msg m.completed_at db.reviews)
    ]
  ]

  write_review-Same :
      (fails : Bool) (f : Review → Review) (db : Database)
      → ((r : Review) → (f r).id ≡ r.id)
      → Same db (write_review fails id f db)
  unfolding write_review
  write_review-Same true f db keeps = refl
  write_review-Same false f db keeps =
      get_by_id-update (is_review id) f db.reviews (λ r this. this) keeps

  update_review_status-Same :
      (env : Execution) (db : Database) → Same db (update_review_status env id db)
  unfolding update_review_status
  update_review_status-Same env db =
      elim (Option-cases (decided_status (get_rules_by_review_id id db.rules))) [
        | inl undecided ↦ rw (undecided, update_review_status) refl
        | inr (status, chosen) ↦
            rw (chosen, update_review_status) (get_by_id-close status _ env.closed_at db.reviews)
      ]

  end_run-Same : (m : Machine) (r : Database × Bool) → Same r.0 (end_run m id r).0
  unfolding end_run
  end_run-Same m (db, false) =
      write_review-Same (m.fails finish) (finish_review m.completed_at) db (λ r. refl)
  end_run-Same m (db, true) = elim (Bool-cases (m.fails mark_failed)) [
    | inl lost ↦ rw lost (handle_error-Same m rules_failed db)
    | inr done ↦ rw done (
        handle_error-Same m rules_failed _
        ∙ get_by_id-close failed rules_failed m.completed_at db.reviews)
  ]

module _ (other : String) (review : Review) (ne : other ≢ review.id) where
  run_review-Same :
      (env : Execution) (rules : List ReviewRuleConfig) (db : Database)
      → Same review.id other ne db (run_review_with_tracking env review rules db).0
  unfolding run_review_with_tracking
  run_review-Same env rules db = elim (Bool-cases (is_empty rules)) [
    | inl empty ↦ rw empty refl
    | inr some_rules ↦
        let p : Progress = record {
          database = db;
          existing = existing_rules (get_rules_by_review_id review.id db.rules) [];
          has_failed = false;
        } in
        rw some_rules (
          update_review_status-Same review.id other ne env (run_rules env review rules p).database
          ∙ ap (get_by_id other) (run_rules-reviews env review rules p))
  ]

  process_repository-Same :
      (m : Machine) (t : Task) (path : String) (db : Database)
      → Same review.id other ne db (process_repository m t review path db).0
  unfolding process_repository
  process_repository-Same m t path db =
      let db1 =
        write_review (m.fails repo_path) review.id (λ r. record r { repo_path = path }) db in
      let same1 =
        write_review-Same review.id other ne (m.fails repo_path)
          (λ r. record r { repo_path = path }) db (λ r. refl) in
      let db2 = write_review (m.fails metadata) review.id (runs_from m.running_at) db1 in
      let same2 =
        write_review-Same review.id other ne (m.fails metadata) (runs_from m.running_at) db1
          (λ r. refl) in
      elim (Loaded-cases (load_dsl_config_with_priority m.loader path review.repo_url)) [
        | inl (msg, lost) ↦
            rw (lost, process_repository) (handle_error-Same review.id other ne m _ db1 ∙ same1)
        | inr (cfg, loaded) ↦
            rw (loaded, process_repository)
              (end_run-Same review.id other ne m _
                ∙ run_review-Same (m.run (build_request m t path)) cfg.rules db2
                ∙ same2
                ∙ same1)
      ]

  process_started-Same :
      (m : Machine) (t : Task) (db : Database)
      → Same review.id other ne db (process_started m t review db).0
  unfolding process_started
  process_started-Same m t db = elim (Prepared-cases (prepare m t)) [
    | inl (e, lost) ↦ rw (lost, process_started) (handle_error-Same review.id other ne m _ db)
    | inr (path, there) ↦ rw (there, process_started) (process_repository-Same m t path db)
  ]

-- Processing a task leaves the row of every other review as it is, however it ends.
pub process_task-others :
    (m : Machine) (t : Task) (db : Database) (other : String)
    → other ≢ t.review.id
    → get_by_id other (process_task m t db).0.reviews ≡ get_by_id other db.reviews
unfolding process_task update_status_to_running_if_pending
process_task-others m t db other ne = elim (Bool-cases (m.fails load_review)) [
  | inl lost ↦ rw (lost, process_task) refl
  | inr answered ↦ elim (Option-cases (get_by_id t.review.id db.reviews)) [
    | inl missing ↦ rw (answered, missing, process_task) refl
    | inr (current, found) ↦ elim (Bool-cases (is_open current.status)) [
      | inr over ↦ rw (answered, found, over, process_task) refl
      | inl live ↦ elim (Bool-cases (m.fails start)) [
        | inl lost ↦ rw (answered, found, live, lost, process_task) refl
        | inr sent ↦
            let own : current.id ≡ t.review.id =
              get_by_id-own t.review.id db.reviews current found in
            let ne' : other ≢ current.id = λ e. ne (e ∙ own) in
            let rows = update_status_to_running_if_pending current.id m.started_at db.reviews in
            let same : get_by_id other rows.0 ≡ get_by_id other db.reviews =
              get_by_id-update current.id other ne' _ (start_review m.started_at) db.reviews
                (λ r this. ground arith) (λ r. refl) in
            elim (Bool-cases rows.1) [
              | inr unchanged ↦ rw (answered, found, live, sent, unchanged, process_task) same
              | inl changed ↦
                  rw (answered, found, live, sent, changed, process_task)
                    (process_started-Same other (runs_from m.started_at current) ne' m t _ ∙ same)
            ]
      ]
    ]
  ]
]
