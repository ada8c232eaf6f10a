-- ===== src/Store/Rows.antt =====
-- The statements of internal/store/review.go on the rows of a table.
use verustcode.Base.{
  Bool, true, false, some, List, [], ◌∷◌, ◌≡◌, inl, inr, refl, arith, ap, eq_iff, any, All, ℕ,
  String, str_eq, if◌then◌else◌, Bool-cases,
}
use verustcode.Model.{Review, ReviewStatus}
use verustcode.Store.{
  update_where, delete_where, first_where, update_status_with_error, close_review, is_review,
  get_by_id,
}

module _ {A : Type 0} (selects : A → Bool) where
  -- A query answers with a row that its condition selects.
  pub first_where-selected :
      (rs : List A) (a : A) → first_where selects rs ≡ some a → selects a ≡ true
  unfolding first_where
  first_where-selected [] a h = absurd (ground arith)
  first_where-selected (r ∷ rs) a h = elim (Bool-cases (selects r)) [
    | inl this ↦ ground arith
    | inr other ↦ first_where-selected rs a (rw (other, first_where) at h)
  ]

  pub first_where-All {ℓ} :
      (P : A → Type ℓ) (rs : List A) (a : A) → All P rs → first_where selects rs ≡ some a → P a
  unfolding first_where
  first_where-All P [] a all h = absurd (ground arith)
  first_where-All P (r ∷ rs) a (p, all) h = elim (Bool-cases (selects r)) [
    | inl this ↦ let same : r ≡ a = ground arith in rw same at p
    | inr other ↦ first_where-All P rs a all (rw (other, first_where) at h)
  ]

  -- What holds of every changed row and of every row left alone.
  pub update_where-All {ℓ} :
      (P : A → Type ℓ) (f : A → A) (rs : List A)
      → ((r : A) → selects r ≡ true → P (f r))
      → ((r : A) → selects r ≡ false → P r)
      → All P (update_where selects f rs)
  unfolding update_where
  update_where-All P f [] changed kept = tt
  update_where-All P f (r ∷ rs) changed kept = elim (Bool-cases (selects r)) [
    | inl this ↦ rw this (changed r this, update_where-All P f rs changed kept)
    | inr other ↦ rw other (kept r other, update_where-All P f rs changed kept)
  ]

  pub update_where-keeps {ℓ} :
      (P : A → Type ℓ) (f : A → A) (rs : List A)
      → ((r : A) → P r → P (f r))
      → All P rs
      → All P (update_where selects f rs)
  unfolding update_where
  update_where-keeps P f [] keeps all = tt
  update_where-keeps P f (r ∷ rs) keeps (p, all) = elim (Bool-cases (selects r)) [
    | inl this ↦ rw this (keeps r p, update_where-keeps P f rs keeps all)
    | inr other ↦ rw other (p, update_where-keeps P f rs keeps all)
  ]

  pub delete_where-All : (rs : List A) → All (λ r. selects r ≡ false) (delete_where selects rs)
  unfolding delete_where
  delete_where-All [] = tt
  delete_where-All (r ∷ rs) = elim (Bool-cases (selects r)) [
    | inl this ↦ rw this (delete_where-All rs)
    | inr other ↦ rw other (other, delete_where-All rs)
  ]

  -- An update that changes no row that a query selects, and makes none of them.
  pub first_where-update_where :
      (query : A → Bool) (f : A → A) (rs : List A)
      → ((r : A) → selects r ≡ true → (query r ≡ false) × (query (f r) ≡ false))
      → first_where query (update_where selects f rs) ≡ first_where query rs
  unfolding first_where update_where
  first_where-update_where query f [] apart = refl
  first_where-update_where query f (r ∷ rs) apart = elim (Bool-cases (selects r)) [
    | inr other ↦ elim (Bool-cases (query r)) [
      | inl this ↦ rw (other, this) refl
      | inr missed ↦ rw (other, missed) (first_where-update_where query f rs apart)
    ]
    | inl this ↦
        let (before, after) = apart r this in
        rw (this, before, after) (first_where-update_where query f rs apart)
  ]

  -- The row that a query finds after an update, where the update keeps what the query asks for.
  pub first_where-updated :
      (query : A → Bool) (f : A → A) (rs : List A) (a : A)
      → ((r : A) → query (f r) ≡ query r)
      → first_where query rs ≡ some a
      → selects a ≡ true
      → first_where query (update_where selects f rs) ≡ some (f a)
  unfolding first_where update_where
  first_where-updated query f [] a keeps found this = absurd (ground arith)
  first_where-updated query f (r ∷ rs) a keeps found this = elim (Bool-cases (query r)) [
    | inl asked ↦ let same : r ≡ a = ground arith in rw (same, this, keeps, rw same at asked) refl
    | inr missed ↦
        let later =
          first_where-updated query f rs a keeps (rw (missed, first_where) at found) this in
        elim (Bool-cases (selects r)) [
          | inl changed ↦ rw (changed, keeps, missed) later
          | inr kept ↦ rw (kept, missed) later
        ]
  ]

  -- Two conditions that agree on every row find the same one.
  pub first_where-ext :
      (other : A → Bool) (rs : List A)
      → ((r : A) → other r ≡ selects r)
      → first_where other rs ≡ first_where selects rs
  unfolding first_where
  first_where-ext other [] same = refl
  first_where-ext other (r ∷ rs) same = elim (Bool-cases (selects r)) [
    | inl this ↦ rw (same, this) refl
    | inr left ↦ rw (same, left) (first_where-ext other rs same)
  ]

  -- A row that a query finds is one of the table's.
  pub any-found :
      (test : A → Bool) (rs : List A) (a : A)
      → first_where selects rs ≡ some a
      → test a ≡ true
      → any test rs ≡ true
  unfolding first_where
  any-found test [] a found this = absurd (ground arith)
  any-found test (r ∷ rs) a found this = elim (Bool-cases (selects r)) [
    | inl asked ↦ let same : r ≡ a = ground arith in rw (same, this) refl
    | inr missed ↦ ground (arith, any-found test rs a (rw (missed, first_where) at found) this)
  ]

-- The two updates of a review's status are updates of the rows of its id.
pub update_status-update_where :
    (id : String) (status : ReviewStatus) (msg : String) (rs : List Review)
    → update_status_with_error id status msg rs
      ≡ update_where (is_review id) (λ r. record r { status = status; error_message = msg }) rs
unfolding update_status_with_error update_where
update_status-update_where id status msg [] = refl
update_status-update_where id status msg (r ∷ rs) =
    ap
      (λ (rest : List Review).
        if str_eq r.id id
        then record r { status = status; error_message = msg } ∷ rest
        else r ∷ rest)
      (update_status-update_where id status msg rs)

pub close_review-update_where :
    (id : String) (status : ReviewStatus) (msg : String) (now : ℕ) (rs : List Review)
    → close_review id status msg now rs
      ≡ update_where
          (is_review id)
          (λ r. record r { status = status; error_message = msg; completed_at = some now })
          rs
unfolding close_review update_where
close_review-update_where id status msg now [] = refl
close_review-update_where id status msg now (r ∷ rs) =
    ap
      (λ (rest : List Review).
        if str_eq r.id id
        then record r { status = status; error_message = msg; completed_at = some now } ∷ rest
        else r ∷ rest)
      (close_review-update_where id status msg now rs)

-- `GetByID` answers with a row of that id.
pub get_by_id-own :
    (id : String) (rs : List Review) (r : Review) → get_by_id id rs ≡ some r → r.id ≡ id
unfolding get_by_id
get_by_id-own id rs r h = (eq_iff r.id id).0 (first_where-selected (is_review id) rs r h)
