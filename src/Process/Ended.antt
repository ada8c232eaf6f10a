-- ===== src/Process/Ended.antt =====
-- The end of a review that `processTask`, internal/engine/engine.go, takes up.
use verustcode.Base.{
  ℕ, String, Bool, true, false, some, List, ◌≡◌, ◌≢◌, ◌⊎◌, inl, inr, refl, arith, any, All, All-map,
  Bool-cases, str-cases, ne_of, is_empty, ◌&&◌, eq_refl,
}
use verustcode.Model.{Review, ReviewRule, ReviewStatus, Task, completed, failed}
use verustcode.Dsl.Schema.{ReviewRulesConfig}
use verustcode.Store.{
  Database, get_by_id, get_rules_by_review_id, is_review, is_open, close_review,
  update_status_to_running_if_pending, may_start,
}
use verustcode.Store.Rows.{update_where-keeps, any-found}
use verustcode.Runner.{row_failed, run_review_with_tracking, Execution}
use verustcode.Runner.Closing.{IsListed}
use verustcode.Runner.Verdict.{
  DistinctRules, HasStatus, verdict, close_review-HasStatus, run_review-verdict,
}
use verustcode.Process.{
  Machine, Statement, finish, report, start, load_review, metadata, repo_path, handle_error,
  write_review, finish_review, end_run, rules_failed, prepare, Prepared-cases, Loaded-cases, good,
  load_dsl_config_with_priority, process_repository, process_started, process_task, runs_from,
  build_request,
}

-- A row is that of another review, or says that the review has completed or failed.
abbrev pub HasEnded : String → Review → Type 0
HasEnded id r = r.id ≢ id ⊎ ((r.status ≡ completed) ⊎ (r.status ≡ failed))

abbrev pub Ended : String → Database → Type 0
Ended id db = All (HasEnded id) db.reviews

HasStatus-HasEnded :
    (id : String) (status : ReviewStatus) (r : Review)
    → ((status ≡ completed) ⊎ (status ≡ failed))
    → HasStatus id status r
    → HasEnded id r
HasStatus-HasEnded id status r over h = elim (str-cases r.id id) [
  | inl same ↦ inr (rw (h same) over)
  | inr other ↦ inl (ne_of r.id id other)
]

verdict-over : (rows : List ReviewRule) → (verdict rows ≡ completed) ⊎ (verdict rows ≡ failed)
verdict-over rows = elim (Bool-cases (any row_failed rows)) [
  | inl failing ↦ inr (rw failing refl)
  | inr fine ↦ inl (rw fine refl)
]

close_review-Ended :
    (id msg : String) (now : ℕ) (rs : List Review)
    → All (HasEnded id) (close_review id failed msg now rs)
close_review-Ended id msg now rs =
    All-map (λ r h. HasStatus-HasEnded id failed r (inr refl) h) (close_review id failed msg now rs)
      (close_review-HasStatus id failed msg now rs)

may_start-open : (s : ReviewStatus) → is_open s ≡ true → may_start s ≡ true
may_start-open s h = ground arith

module _ (m : Machine) (set : m.on_error ≡ true)
    (writes : (s : Statement) → m.fails s ≡ false) where
  handle_error-Ended : (id msg : String) (db : Database) → Ended id (handle_error m id msg db).0
  unfolding handle_error
  handle_error-Ended id msg db =
      rw (set, writes report) (close_review-Ended id msg m.completed_at db.reviews)

  end_run-Ended : (id : String) (r : Database × Bool) → Ended id r.0 → Ended id (end_run m id r).0
  unfolding end_run write_review
  end_run-Ended id (db, true) h = handle_error-Ended id rules_failed _
  end_run-Ended id (db, false) h = rw (writes finish) (
      update_where-keeps (is_review id) (HasEnded id) (finish_review m.completed_at) db.reviews
        (λ r over. over) h)

  module _ (t : Task) (review : Review) (db : Database)
      (distinct : DistinctRules (get_rules_by_review_id review.id db.rules))
      (listed : (path : String) (cfg : ReviewRulesConfig)
        → load_dsl_config_with_priority m.loader path review.repo_url ≡ good cfg
        → (is_empty cfg.rules ≡ false)
          × All
              (λ r. IsListed r.rule_id cfg.rules)
              (get_rules_by_review_id review.id db.rules)) where
    run_review-Ended :
        (env : Execution) (cfg : ReviewRulesConfig) (db' : Database)
        → db'.rules ≡ db.rules
        → is_empty cfg.rules ≡ false
        → All (λ r. IsListed r.rule_id cfg.rules) (get_rules_by_review_id review.id db.rules)
        → Ended review.id (run_review_with_tracking env review cfg.rules db').0
    run_review-Ended env cfg db' same some_rules all =
        let ended = (run_review_with_tracking env review cfg.rules db').0 in
        let (closed, status) =
          run_review-verdict env review cfg.rules db' some_rules (rw same distinct) (rw same all) in
        All-map
          (λ r h.
            HasStatus-HasEnded review.id (verdict (get_rules_by_review_id review.id ended.rules)) r
              (verdict-over (get_rules_by_review_id review.id ended.rules)) h)
          ended.reviews status

    process_repository-Ended :
        (path : String) → Ended review.id (process_repository m t review path db).0
    unfolding process_repository write_review
    process_repository-Ended path =
        elim (Loaded-cases (load_dsl_config_with_priority m.loader path review.repo_url)) [
          | inl (msg, lost) ↦ rw (lost, process_repository) (handle_error-Ended review.id _ _)
          | inr (cfg, loaded) ↦
              let (some_rules, all) = listed path cfg loaded in
              rw (loaded, process_repository)
                (end_run-Ended review.id _ (
                  run_review-Ended (m.run (build_request m t path)) cfg _
                    (rw (writes metadata, writes repo_path) refl) some_rules all))
        ]

    process_started-Ended : Ended review.id (process_started m t review db).0
    unfolding process_started
    process_started-Ended = elim (Prepared-cases (prepare m t)) [
      | inl (e, lost) ↦ rw (lost, process_started) (handle_error-Ended review.id _ db)
      | inr (path, there) ↦ rw (there, process_started) (process_repository-Ended path)
    ]

  -- A review that was pending or running is brought to an end by `processTask`, whether the clone,
  -- the configuration or a rule fails or all goes well: each row of its id says afterwards that it
  -- has completed or failed. The callback is set, no statement fails, no two rows of the review are
  -- for one rule, and the configuration that is loaded, if one is, has rules, among them those of
  -- the review's rows.
  pub process_task-Ended :
      (t : Task) (current : Review) (db : Database)
      → get_by_id t.review.id db.reviews ≡ some current
      → is_open current.status ≡ true
      → DistinctRules (get_rules_by_review_id current.id db.rules)
      → ((path : String) (cfg : ReviewRulesConfig)
          → load_dsl_config_with_priority m.loader path current.repo_url ≡ good cfg
          → (is_empty cfg.rules ≡ false)
            × All (λ r. IsListed r.rule_id cfg.rules) (get_rules_by_review_id current.id db.rules))
      → Ended current.id (process_task m t db).0
  unfolding process_task update_status_to_running_if_pending get_by_id
  process_task-Ended t current db found live distinct listed =
      let changed : any (λ r. is_review current.id r && may_start r.status) db.reviews ≡ true =
        any-found (is_review t.review.id) (λ r. is_review current.id r && may_start r.status)
          db.reviews current found (rw (eq_refl current.id) (may_start-open current.status live)) in
      rw (writes load_review, found, live, writes start, changed, process_task)
        (process_started-Ended t (runs_from m.started_at current) _ distinct listed)
