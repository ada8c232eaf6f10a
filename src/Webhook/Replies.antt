-- ===== src/Webhook/Replies.antt =====
-- What a delivery leaves behind by its answer, internal/api/handler/webhook.go.
use verustcode.Base.{
  ℕ, String, false, Option, none, some, List, [], ◌∷◌, ◌≡◌, ◌⊎◌, inl, inr, refl, ap, subst, map,
  All, Bool-cases, ◌==◌, str_eq, not, ◌&&◌,
}
use verustcode.Model.{Review, ReviewStatus}
use verustcode.Store.{update_where}
use verustcode.Recovery.Indexed.{Indexed}
use verustcode.Recovery.Settled.{FailedIf, update-fails}
use verustcode.Retry.{Engine}
use verustcode.Submit.{PrDetails, Submitted, not_submitted, submitted, submit}
use verustcode.Submit.Queued.{submit_queues, submit_refused}
use verustcode.Api.Review.{create_row, submit_answer, fail_review}
use verustcode.Webhook.Event.{
  EventType, WebhookEvent, push, pull_request, merge_request, comment, is_pr_merged_event,
  should_process_pr_event,
}
use verustcode.Webhook.Rows.{Insertion, added, clash, lost, unmerged, update_merged_at_by_pr_url}
use verustcode.Webhook.Handler.{
  Hook, WebhookReply, ParseOutcome, unparsed, parsed, if_found, event_url, new_push_review,
  submitted_event, submit_event, create_after, create_for_event, review_event, handle_push_event,
  handle_pr_merged_event, handle_pr_event, handle_as, push_after, handle_parsed, handle_webhook,
}

abbrev pub statuses : Engine → List ReviewStatus
statuses st = map (λ (r : Review). r.status) st.database.reviews

-- An accepted delivery has its review in the queue. Any other leaves the queue as it was, and the
-- statuses of the reviews too, or the row of that id says failed.
abbrev pub Replied : String → Engine → Engine × WebhookReply → Type 0
Replied id st (st', a) =
    ((a.code ≡ 202) × Indexed st'.queue id)
    ⊎ (((a.code == 202) ≡ false)
        × (st'.queue ≡ st.queue)
        × ((statuses st' ≡ statuses st) ⊎ All (FailedIf id) st'.database.reviews))

merge-statuses :
    (url : String) (now : ℕ) (rs : List Review)
    → map (λ (r : Review). r.status) (update_merged_at_by_pr_url url now rs)
      ≡ map (λ (r : Review). r.status) rs
unfolding update_merged_at_by_pr_url update_where
merge-statuses url now [] = refl
merge-statuses url now (r ∷ rs) = elim (Bool-cases (unmerged url r)) [
  | inl this ↦ rw this (ap (λ rest. r.status ∷ rest) (merge-statuses url now rs))
  | inr other ↦ rw other (ap (λ rest. r.status ∷ rest) (merge-statuses url now rs))
]

module _ (hook : Hook) (updates : hook.environment.update_fails ≡ false) where
  abbrev IsReplied : Engine → Engine × WebhookReply → Type 0
  IsReplied st out = Replied hook.environment.new_id st out

  submitted_event-Replied :
      (details : Option PrDetails) (row : Review) (st : Engine) (r : Engine × Submitted)
      → row.id ≡ hook.environment.new_id
      → submit hook.environment.intake details "" row (create_row row st) ≡ r
      → IsReplied st (submitted_event hook r)
  unfolding create_row fail_review submitted_event
  submitted_event-Replied details row st (st', submitted t) own same =
      let (cfg, loaded, keys, queued, written) =
        submit_queues hook.environment.intake details "" row (create_row row st) st' t same in
      inl (refl, subst (λ (k : String). Indexed st'.queue k) own queued)
  submitted_event-Replied details row st (st', not_submitted e) own same =
      let unchanged : st' ≡ create_row row st =
        submit_refused hook.environment.intake details "" row (create_row row st) st' e same in
      rw updates (
        inr (
          refl,
          ap (λ (s : Engine). s.queue) unchanged,
          inr (update-fails hook.environment.new_id (submit_answer e).message st'.database.reviews),
        ))

  submit_event-Replied :
      (details : Option PrDetails) (row : Review) (st : Engine)
      → row.id ≡ hook.environment.new_id
      → IsReplied st (submit_event hook details row st)
  unfolding submit_event
  submit_event-Replied details row st own = submitted_event-Replied details row st _ own refl

  push_after-Replied :
      (row : Review) (i : Insertion) (st : Engine)
      → row.id ≡ hook.environment.new_id
      → IsReplied st (push_after hook row i st)
  unfolding push_after
  push_after-Replied row added st own = submit_event-Replied none row st own
  push_after-Replied row clash st own = inr (refl, refl, inl refl)
  push_after-Replied row lost st own = inr (refl, refl, inl refl)

  if_found-Replied :
      (found : Option Review) (st : Engine) (other : Engine × WebhookReply)
      → IsReplied st other
      → IsReplied st (if_found found st other)
  unfolding if_found
  if_found-Replied none st other made = made
  if_found-Replied (some r) st other made = inr (refl, refl, inl refl)

  create_after-Replied :
      (event : WebhookEvent) (url : String) (row : Review) (i : Insertion) (st : Engine)
      → row.id ≡ hook.environment.new_id
      → IsReplied st (create_after hook event url row i st)
  unfolding create_after
  create_after-Replied event url row added st own = submit_event-Replied _ row st own
  create_after-Replied event url row clash st own =
      if_found-Replied _ st _ (inr (refl, refl, inl refl))
  create_after-Replied event url row lost st own = inr (refl, refl, inl refl)

  review_event-Replied :
      (event : WebhookEvent) (url : String) (st : Engine)
      → IsReplied st (review_event hook event url st)
  unfolding review_event create_for_event
  review_event-Replied event url st =
      let made = create_after-Replied event url _ _ st refl in
      elim (Bool-cases (not (str_eq url "") && not (str_eq event.commit_sha ""))) [
        | inl keyed ↦ rw keyed (if_found-Replied _ st _ made)
        | inr loose ↦ rw loose made
      ]

  handle_pr_merged_event-Replied :
      (url : String) (st : Engine) → IsReplied st (handle_pr_merged_event hook url st)
  unfolding handle_pr_merged_event
  handle_pr_merged_event-Replied url st = elim (Bool-cases (str_eq url "")) [
    | inl unnamed ↦ rw unnamed (inr (refl, refl, inl refl))
    | inr named ↦ elim (Bool-cases hook.merge_fails) [
      | inl broken ↦ rw (named, broken) (inr (refl, refl, inl refl))
      | inr works ↦
          rw (named, works)
            (inr (refl, refl, inl (merge-statuses url hook.now st.database.reviews)))
    ]
  ]

  handle_pr_event-Replied :
      (event : WebhookEvent) (st : Engine) → IsReplied st (handle_pr_event hook event st)
  unfolding handle_pr_event
  handle_pr_event-Replied event st = elim (Bool-cases (is_pr_merged_event event.action)) [
    | inl merged ↦ rw merged (handle_pr_merged_event-Replied (event_url hook event) st)
    | inr other ↦ elim (Bool-cases (should_process_pr_event event.action)) [
      | inl wanted ↦ rw (other, wanted) (review_event-Replied event (event_url hook event) st)
      | inr skipped ↦ rw (other, skipped) (inr (refl, refl, inl refl))
    ]
  ]

  handle_as-Replied :
      (kind : EventType) (event : WebhookEvent) (st : Engine)
      → IsReplied st (handle_as kind hook event st)
  unfolding handle_as handle_push_event
  handle_as-Replied push event st = push_after-Replied (new_push_review hook event) _ st refl
  handle_as-Replied pull_request event st = handle_pr_event-Replied event st
  handle_as-Replied merge_request event st = handle_pr_event-Replied event st
  handle_as-Replied comment event st = inr (refl, refl, inl refl)

  handle_parsed-Replied : (p : ParseOutcome) (st : Engine) → IsReplied st (handle_parsed hook p st)
  unfolding handle_parsed
  handle_parsed-Replied (unparsed msg) st = inr (refl, refl, inl refl)
  handle_parsed-Replied (parsed event) st = handle_as-Replied event.event_type event st

  -- A delivery that is answered with 202 has its new review in the queue, under its id. Any other leaves
  -- the queue as it was, and the status of every review too, or else the rows of the new review's id say
  -- failed, where the update to failed is carried out.
  pub handle_webhook-Replied :
      (name : String) (provider : Option (String → ParseOutcome)) (secret : String) (st : Engine)
      → Replied hook.environment.new_id st (handle_webhook hook name provider secret st)
  unfolding handle_webhook
  handle_webhook-Replied name none secret st = inr (refl, refl, inl refl)
  handle_webhook-Replied name (some parse_webhook) secret st =
      handle_parsed-Replied (parse_webhook secret) st
