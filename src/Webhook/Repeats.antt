-- ===== src/Webhook/Repeats.antt =====
-- A delivery that comes again, internal/api/handler/webhook.go.
use verustcode.Base.{
  ℕ, String, Bool, true, false, Option, some, List, [], ◌∷◌, ◌++◌, ◌&&◌, ◌≡◌, inl, inr, refl, All,
  arith, ap, any, str_eq, Bool-cases, Option-cases, subst, not, sym, ◌∙◌, eq_refl,
}
use verustcode.Model.{Review, ReviewStatus, failed}
use verustcode.Retry.{Engine}
use verustcode.Store.{Database, first_where, update_where, update_status_with_error, is_review}
use verustcode.Store.Rows.{update_where-All}
use verustcode.Submit.{
  Intake, PrDetails, Submitted, not_submitted, submitted, submit, submit_columns, submitted_source,
  built_url,
}
use verustcode.Submit.Rows.{create_rules-reviews}
use verustcode.Submit.Queued.{submit_queues, submit_refused}
use verustcode.Api.Review.{Environment, create_row, submit_answer, fail_review}
use verustcode.Webhook.Event.{WebhookEvent, is_pr_merged_event, should_process_pr_event}
use verustcode.Webhook.Rows.{
  Insertion, added, insertion, same_commit, get_by_pr_url_and_commit, unmerged,
  update_merged_at_by_pr_url,
}
use verustcode.Webhook.Handler.{
  Hook, WebhookReply, existing_review, if_found, event_url, new_pr_review, next_revision,
  submitted_event, submit_event, pr_details, create_after, create_for_event, review_event,
  handle_pr_merged_event, handle_pr_event,
}

module _ {A : Type 0} (p : A → Bool) where
  any-last : (xs : List A) (x : A) → p x ≡ true → any p (xs ++ (x ∷ [])) ≡ true
  any-last [] x h = ground arith
  any-last (y ∷ xs) x h = ground (arith, any-last xs x h)

  first_where-any : (xs : List A) (x : A) → first_where p xs ≡ some x → any p xs ≡ true
  unfolding first_where
  first_where-any [] x h = absurd (ground arith)
  first_where-any (y ∷ xs) x h = elim (Bool-cases (p y)) [
    | inl this ↦ rw this refl
    | inr other ↦ ground (arith, first_where-any xs x (rw (other, first_where) at h))
  ]

  any-update_where :
      (selects : A → Bool) (f : A → A) (xs : List A)
      → ((x : A) → p (f x) ≡ p x)
      → any p (update_where selects f xs) ≡ any p xs
  unfolding update_where
  any-update_where selects f [] keeps = refl
  any-update_where selects f (x ∷ xs) keeps = elim (Bool-cases (selects x)) [
    | inl this ↦ rw (this, keeps x, any-update_where selects f xs keeps)
    | inr other ↦ rw (other, any-update_where selects f xs keeps)
  ]

any-update_status :
    (url sha id msg : String) (status : ReviewStatus) (rs : List Review)
    → any (same_commit url sha) (update_status_with_error id status msg rs)
      ≡ any (same_commit url sha) rs
unfolding update_status_with_error
any-update_status url sha id msg status [] = refl
any-update_status url sha id msg status (r ∷ rs) = elim (Bool-cases (str_eq r.id id)) [
  | inl this ↦ rw (this, any-update_status url sha id msg status rs)
  | inr other ↦ rw (other, any-update_status url sha id msg status rs)
]

abbrev pub KeyKept : String → String → Engine → Engine → Type 0
KeyKept url sha st st' =
    any (same_commit url sha) st'.database.reviews ≡ any (same_commit url sha) st.database.reviews

fail_review-KeyKept :
    (env : Environment) (url sha msg : String) (st : Engine)
    → KeyKept url sha st (fail_review env msg st)
unfolding fail_review
fail_review-KeyKept env url sha msg st = elim (Bool-cases env.update_fails) [
  | inl refused ↦ rw refused refl
  | inr done ↦ rw done (any-update_status url sha env.new_id msg failed st.database.reviews)
]

-- The metadata update of a review that has its URL keeps every row's.
submit_columns-same :
    (env : Intake) (name url sha : String) (row r : Review)
    → str_eq row.pr_url "" ≡ false
    → same_commit url sha (submit_columns (submitted_source row) (built_url env name row) r)
      ≡ same_commit url sha r
unfolding submit_columns
submit_columns-same env name url sha row r named = rw named refl

module _ (hook : Hook) (details : Option PrDetails) (row : Review) (st : Engine)
    (named : str_eq row.pr_url "" ≡ false) where
  submitted_event-KeyKept :
      (r : Engine × Submitted)
      → submit hook.environment.intake details "" row (create_row row st) ≡ r
      → KeyKept row.pr_url row.commit_sha (create_row row st) (submitted_event hook r).0
  unfolding submitted_event
  submitted_event-KeyKept (st', submitted t) same =
      let (cfg, loaded, keys, queued, written) =
        submit_queues hook.environment.intake details "" row (create_row row st) st' t same in
      let there : any (same_commit row.pr_url row.commit_sha) st'.database.reviews
          ≡ any (same_commit row.pr_url row.commit_sha) (create_row row st).database.reviews =
        ap (λ (db : Database). any (same_commit row.pr_url row.commit_sha) db.reviews) written
        ∙ ap (any (same_commit row.pr_url row.commit_sha))
            (create_rules-reviews hook.environment.intake.create_fails row.id 0 cfg.rules _)
        ∙ any-update_where (same_commit row.pr_url row.commit_sha) (is_review row.id) _
            (create_row row st).database.reviews
            (λ r.
              submit_columns-same hook.environment.intake _ row.pr_url row.commit_sha row r
                named) in
      there
  submitted_event-KeyKept (st', not_submitted e) same =
      let unchanged : st' ≡ create_row row st =
        submit_refused hook.environment.intake details "" row (create_row row st) st' e same in
      fail_review-KeyKept hook.environment row.pr_url row.commit_sha (submit_answer e).message st'
      ∙ ap (λ (s : Engine). any (same_commit row.pr_url row.commit_sha) s.database.reviews)
          unchanged

  submit_event-IsThere :
      any
        (same_commit row.pr_url row.commit_sha)
        (submit_event hook details row st).0.database.reviews
      ≡ true
  unfolding submit_event create_row
  submit_event-IsThere =
      submitted_event-KeyKept _ refl
      ∙ any-last (same_commit row.pr_url row.commit_sha) st.database.reviews row
          (ground (arith, eq_refl row.pr_url, eq_refl row.commit_sha))

insertion-added :
    (fails : Bool) (row : Review) (rs : List Review)
    → fails ≡ false
    → any (same_commit row.pr_url row.commit_sha) rs ≡ false
    → insertion fails row rs ≡ added
unfolding insertion
insertion-added fails row rs works new = rw (works, new) refl

-- Whether a row of the event's URL and commit is there.
abbrev pub IsThere : String → WebhookEvent → Engine → Type 0
IsThere url event st = any (same_commit url event.commit_sha) st.database.reviews ≡ true

module _ (hook : Hook) (event : WebhookEvent) (url : String) (st : Engine) where
  if_found-same :
      (fails : Bool) (other : Engine × WebhookReply)
      → other.0 ≡ st
      → (if_found (existing_review fails event url st) st other).0 ≡ st
  unfolding if_found
  if_found-same fails other same = elim (Option-cases (existing_review fails event url st)) [
    | inl missing ↦ rw missing same
    | inr (r, found) ↦ rw found refl
  ]

  create_for_event-stays : IsThere url event st → (create_for_event hook event url st).0 ≡ st
  unfolding create_for_event create_after insertion
  create_for_event-stays there = elim (Bool-cases hook.environment.insert_fails) [
    | inl broken ↦ rw broken refl
    | inr works ↦ rw (works, there) (if_found-same hook.second_lookup_fails (st, _) refl)
  ]

  -- Where a row of that commit is there, whatever fails, nothing is changed.
  review_event-stays : IsThere url event st → (review_event hook event url st).0 ≡ st
  unfolding review_event
  review_event-stays there =
      elim (Bool-cases (not (str_eq url "") && not (str_eq event.commit_sha ""))) [
        | inl keyed ↦
            rw keyed (if_found-same hook.first_lookup_fails _ (create_for_event-stays there))
        | inr loose ↦ rw loose (create_for_event-stays there)
      ]

  create_for_event-IsThere :
      str_eq url "" ≡ false
      → hook.environment.insert_fails ≡ false
      → IsThere url event (create_for_event hook event url st).0
  unfolding create_for_event create_after insertion
  create_for_event-IsThere named works =
      elim (Bool-cases (any (same_commit url event.commit_sha) st.database.reviews)) [
        | inl there ↦ subst (IsThere url event) (sym (create_for_event-stays there)) there
        | inr new ↦
            let row =
              new_pr_review hook event url (next_revision hook event url st.database.reviews) in
            subst (λ (i : Insertion). IsThere url event (create_after hook event url row i st).0)
              (sym
                (insertion-added hook.environment.insert_fails row st.database.reviews works new))
              (submit_event-IsThere hook (some (pr_details event)) row st named)
      ]

  existing_review-IsThere :
      (fails : Bool) (r : Review)
      → existing_review fails event url st ≡ some r
      → IsThere url event st
  unfolding get_by_pr_url_and_commit
  existing_review-IsThere true r found = absurd (ground arith)
  existing_review-IsThere false r found =
      first_where-any (same_commit url event.commit_sha) st.database.reviews r found

  if_found-IsThere :
      (fails : Bool) (other : Engine × WebhookReply)
      → IsThere url event other.0
      → IsThere url event (if_found (existing_review fails event url st) st other).0
  unfolding if_found
  if_found-IsThere fails other there = elim (Option-cases (existing_review fails event url st)) [
    | inl missing ↦ rw missing there
    | inr (r, found) ↦ rw found (existing_review-IsThere fails r found)
  ]

  review_event-IsThere :
      str_eq url "" ≡ false
      → hook.environment.insert_fails ≡ false
      → IsThere url event (review_event hook event url st).0
  unfolding review_event
  review_event-IsThere named works =
      let made = create_for_event-IsThere named works in
      elim (Bool-cases (not (str_eq url "") && not (str_eq event.commit_sha ""))) [
        | inl keyed ↦ rw keyed (if_found-IsThere hook.first_lookup_fails _ made)
        | inr loose ↦ rw loose made
      ]

update_where-idle :
    {A : Type 0} (selects : A → Bool) (f : A → A) (rs : List A)
    → All (λ (r : A). selects r ≡ false) rs
    → update_where selects f rs ≡ rs
unfolding update_where
update_where-idle selects f [] none_of = refl
update_where-idle selects f (r ∷ rs) (other, none_of) =
    rw other (ap (λ rest. r ∷ rest) (update_where-idle selects f rs none_of))

-- A time of merging that is set stays.
update_merged_at-repeats :
    (url : String) (now later : ℕ) (rs : List Review)
    → update_merged_at_by_pr_url url later (update_merged_at_by_pr_url url now rs)
      ≡ update_merged_at_by_pr_url url now rs
unfolding update_merged_at_by_pr_url
update_merged_at-repeats url now later rs = update_where-idle (unmerged url) _ _ (
    update_where-All (unmerged url) (λ r. unmerged url r ≡ false) _ rs (λ r this. ground arith)
      (λ r closed. closed))

handle_pr_merged_event-repeats :
    (hook again : Hook) (url : String) (st : Engine)
    → str_eq url "" ≡ false
    → hook.merge_fails ≡ false
    → (handle_pr_merged_event again url (handle_pr_merged_event hook url st).0).0
      ≡ (handle_pr_merged_event hook url st).0
unfolding handle_pr_merged_event
handle_pr_merged_event-repeats hook again url st named works = elim (Bool-cases again.merge_fails) [
  | inl broken ↦ rw (named, works, broken) refl
  | inr fine ↦
      rw (named, works, fine)
        (ap (λ (rs : List Review). record st { database = record st.database { reviews = rs } })
          (update_merged_at-repeats url hook.now again.now st.database.reviews))
]

-- A pull request's event that is delivered twice leaves what its first delivery left, whatever fails at
-- the second: no second review is created, and nothing else changes. The URL of the pull request is not
-- empty and the same at both deliveries, and the first meets no failure of the insertion, but for the
-- unique index, or of the update of the time of merging.
pub handle_pr_event-repeats :
    (hook again : Hook) (event : WebhookEvent) (st : Engine)
    → str_eq (event_url hook event) "" ≡ false
    → event_url again event ≡ event_url hook event
    → hook.environment.insert_fails ≡ false
    → hook.merge_fails ≡ false
    → (handle_pr_event again event (handle_pr_event hook event st).0).0
      ≡ (handle_pr_event hook event st).0
unfolding handle_pr_event
handle_pr_event-repeats hook again event st named same inserts merges =
    rw same (elim (Bool-cases (is_pr_merged_event event.action)) [
      | inl merged ↦
          rw merged
            (handle_pr_merged_event-repeats hook again (event_url hook event) st named merges)
      | inr other ↦ elim (Bool-cases (should_process_pr_event event.action)) [
        | inl wanted ↦
            rw (other, wanted)
              (review_event-stays again event (event_url hook event) _
                (review_event-IsThere hook event (event_url hook event) st named inserts))
        | inr skipped ↦ rw (other, skipped) refl
      ]
    ])
