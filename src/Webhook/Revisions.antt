-- ===== src/Webhook/Revisions.antt =====
-- The revisions of a pull request, internal/api/handler/webhook.go and internal/store/review.go.
use verustcode.Base.{
  ap, ◌∙◌, subst, sym, ◌<◌, ◌+◌, String, true, false, Option, none, some, List, [], ◌∷◌, ◌≡◌, ◌≢◌,
  inl, inr, refl, arith, All, All-map, str_eq, Bool-cases, ne_of,
}
use verustcode.Base.Int.{ℤ, pos, negsuc, wrap64-pos, ◌≤ℤ◌, ◌<ℤ◌, leb_ℤ, ◌+ℤ◌, wrap64}
use verustcode.Model.{Review}
use verustcode.Webhook.Event.{WebhookEvent, is_pr_update_event}
use verustcode.Webhook.Rows.{raise_to, or_zero, max_revision, get_max_revision_by_pr_url}
use verustcode.Webhook.Handler.{Hook, next_revision}

-- A revision that an int64 can still count up.
abbrev pub IsRevision : ℤ → Type 0
IsRevision (pos n) = n < 9223372036854775807
IsRevision (negsuc n) = ⊥

-- The query's answer is such a revision, and at least that of each row of the URL.
abbrev Bounds : String → List Review → Option ℤ → Type 0
Bounds url rs none = All (λ (r : Review). r.pr_url ≢ url) rs
Bounds url rs (some m) =
    IsRevision m × All (λ (r : Review). r.pr_url ≡ url → r.revision_count ≤ℤ m) rs

le_trans : (a b c : ℤ) → a ≤ℤ b → b ≤ℤ c → a ≤ℤ c
le_trans a b c h k = ground arith

lt_next : (a m : ℤ) → IsRevision m → a ≤ℤ m → a <ℤ wrap64 (m +ℤ pos 1)
lt_next a (pos n) small h =
    let sum : pos n +ℤ pos 1 ≡ pos (n + 1) = ground arith in
    let next : wrap64 (pos n +ℤ pos 1) ≡ pos (n + 1) =
      ap wrap64 sum ∙ wrap64-pos (n + 1) (ground arith) in
    subst (λ (k : ℤ). a <ℤ k) (sym next) (ground arith)
lt_next a (negsuc n) small h = elim small [ ]

module _ (url : String) where
  Bounds-more :
      (r : Review) (rs : List Review) (m : Option ℤ)
      → str_eq r.pr_url url ≡ false
      → Bounds url rs m
      → Bounds url (r ∷ rs) m
  Bounds-more r rs none other all = (ne_of r.pr_url url other, all)
  Bounds-more r rs (some m) other (small, all) =
      (small, ((λ same. absurd (ne_of r.pr_url url other same)), all))

  Bounds-raise :
      (r : Review) (rs : List Review) (m : Option ℤ)
      → IsRevision r.revision_count
      → Bounds url rs m
      → Bounds url (r ∷ rs) (some (raise_to r.revision_count m))
  Bounds-raise r rs none own all =
      (own, ((λ same. ground arith), All-map (λ q other same. absurd (other same)) rs all))
  Bounds-raise r rs (some m) own (small, all) = elim (Bool-cases (leb_ℤ m r.revision_count)) [
    | inl higher ↦
        let above : All (λ (q : Review). q.pr_url ≡ url → q.revision_count ≤ℤ r.revision_count) rs =
          All-map
            (λ q least same.
              le_trans q.revision_count m r.revision_count (least same) (ground arith))
            rs all in
        let raised : raise_to r.revision_count (some m) ≡ r.revision_count = rw higher refl in
        subst (λ (k : ℤ). Bounds url (r ∷ rs) (some k)) (sym raised)
          (own, ((λ same. ground arith), above))
    | inr lower ↦
        let kept : raise_to r.revision_count (some m) ≡ m = rw lower refl in
        subst (λ (k : ℤ). Bounds url (r ∷ rs) (some k)) (sym kept)
          (small, ((λ same. ground arith), all))
  ]

  max_revision-Bounds :
      (rs : List Review)
      → All (λ (r : Review). IsRevision r.revision_count) rs
      → Bounds url rs (max_revision url rs)
  unfolding max_revision
  max_revision-Bounds [] all = tt
  max_revision-Bounds (r ∷ rs) (own, all) = elim (Bool-cases (str_eq r.pr_url url)) [
    | inl same ↦ rw same (Bounds-raise r rs (max_revision url rs) own (max_revision-Bounds rs all))
    | inr other ↦
        rw other (Bounds-more r rs (max_revision url rs) other (max_revision-Bounds rs all))
  ]

  exceeds :
      (rs : List Review) (m : Option ℤ)
      → Bounds url rs m
      → All (λ (r : Review). r.pr_url ≡ url → r.revision_count <ℤ wrap64 (or_zero m +ℤ pos 1)) rs
  exceeds rs none all = All-map (λ q other same. absurd (other same)) rs all
  exceeds rs (some m) (small, all) =
      All-map (λ q least same. lt_next q.revision_count m small (least same)) rs all

-- The row of an update of a pull request is numbered above every row of its URL, where the query of the
-- greatest number succeeds and no row has the greatest int64 or a negative number.
pub next_revision-exceeds :
    (hook : Hook) (event : WebhookEvent) (url : String) (rs : List Review)
    → is_pr_update_event event.action ≡ true
    → str_eq url "" ≡ false
    → hook.max_fails ≡ false
    → All (λ (r : Review). IsRevision r.revision_count) rs
    → All (λ (r : Review). r.pr_url ≡ url → r.revision_count <ℤ next_revision hook event url rs) rs
unfolding next_revision get_max_revision_by_pr_url
next_revision-exceeds hook event url rs update named works all =
    rw (update, named, works)
      (exceeds url rs (max_revision url rs) (max_revision-Bounds url rs all))
