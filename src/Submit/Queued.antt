-- ===== src/Submit/Queued.antt =====
-- What `Submit`, internal/engine/engine.go, leaves in the queue and in the tables.
use verustcode.Base.{String, Option, ◌≡◌, inl, inr, refl, subst, Bool-cases, Option-cases, str_eq}
use verustcode.Model.{Review, Task}
use verustcode.Dsl.Schema.{ReviewRulesConfig}
use verustcode.Recovery.Indexed.{Indexed, enqueue-has}
use verustcode.Store.{Database, is_review, update_where}
use verustcode.Process.{good, load_dsl_config_for_repo, Loaded-cases}
use verustcode.Retry.{Engine}
use verustcode.Submit.{
  Intake, PrDetails, SubmitError, Submitted, not_submitted, submitted, submit, submit_configured,
  submit_task, submit_columns, submitted_source, built_url, create_rules,
}

-- The tables after a submission under that configuration.
abbrev pub submitted_database : Intake → ReviewRulesConfig → Review → Database → Database
submitted_database env cfg review db =
    let provider_name = env.surroundings.detect_from_url review.repo_url in
    create_rules env.create_fails review.id 0 cfg.rules (record db {
      reviews =
          update_where (is_review review.id)
            (submit_columns (submitted_source review) (built_url env provider_name review))
            db.reviews;
    })

-- A refused submission changes nothing; another has the review in the queue and its rows written.
abbrev Taken : Intake → Review → Engine → Engine × Submitted → Type 0
Taken env review st (st', not_submitted e) = st' ≡ st
Taken env review st (st', submitted t) =
    (cfg : ReviewRulesConfig) × (load_dsl_config_for_repo env.loader review.repo_url ≡ good cfg)
    × (t.review.id ≡ review.id)
    × Indexed st'.queue review.id
    × (st'.database ≡ submitted_database env cfg review st.database)

module _ (env : Intake) (details : Option PrDetails) (output_dir : String) (review : Review)
    (st : Engine) where
  submit_configured-Taken :
      (names : String × String) (cfg : ReviewRulesConfig)
      → load_dsl_config_for_repo env.loader review.repo_url ≡ good cfg
      → Taken env review st (
          submit_configured env
            (env.surroundings.detect_from_url review.repo_url)
            names
            cfg
            details
            output_dir
            review
            st)
  unfolding submit_configured submit_task
  submit_configured-Taken names cfg loaded = elim (Bool-cases env.update_fails) [
    | inl lost ↦ rw lost refl
    | inr done ↦ rw done (cfg, loaded, refl, enqueue-has st.queue _, refl)
  ]

  submit-Taken : Taken env review st (submit env details output_dir review st)
  unfolding submit
  submit-Taken =
      let name = env.surroundings.detect_from_url review.repo_url in
      elim (Bool-cases (str_eq name "")) [
        | inl unknown ↦ rw (unknown, submit) refl
        | inr known ↦ elim (Option-cases (env.surroundings.parse_repo_path name)) [
          | inl missing ↦ rw (known, missing, submit) refl
          | inr (parse, has) ↦ elim (Option-cases (parse review.repo_url)) [
            | inl unread ↦ rw (known, has, unread, submit) refl
            | inr (names, read) ↦
                elim (Loaded-cases (load_dsl_config_for_repo env.loader review.repo_url)) [
                  | inl (msg, lost) ↦ rw (known, has, read, lost, submit) refl
                  | inr (cfg, loaded) ↦
                      rw (known, has, read, loaded, submit)
                        (submit_configured-Taken names cfg loaded)
                ]
          ]
        ]
      ]

  -- A submitted review is in the queue under its id, as the task that `Submit` returns, and the
  -- tables hold what the configuration known before the clone asks for.
  pub submit_queues :
      (st' : Engine) (t : Task)
      → submit env details output_dir review st ≡ (st', submitted t)
      → (cfg : ReviewRulesConfig) × (load_dsl_config_for_repo env.loader review.repo_url ≡ good cfg)
        × (t.review.id ≡ review.id)
        × Indexed st'.queue review.id
        × (st'.database ≡ submitted_database env cfg review st.database)
  submit_queues st' t same = subst (Taken env review st) same submit-Taken

  -- An error of `Submit` leaves the queue and the tables as they were.
  pub submit_refused :
      (st' : Engine) (e : SubmitError)
      → submit env details output_dir review st ≡ (st', not_submitted e)
      → st' ≡ st
  submit_refused st' e same = subst (Taken env review st) same submit-Taken
