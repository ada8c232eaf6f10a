-- ===== src/Webhook/Rows.antt =====
-- The statements of internal/store/review.go that the deliveries use, and the unique index over the
-- columns pr_url and commit_sha of internal/model/model.go.
use verustcode.Base.{
  ℕ, String, Bool, not, Option, none, some, List, [], ◌∷◌, ◌&&◌, any, str_eq, if◌then◌else◌,
}
use verustcode.Base.Int.{ℤ, pos, leb_ℤ}
use verustcode.Model.{Review}
use verustcode.Queue.{is_some}
use verustcode.Store.{first_where, update_where}

abbrev pub same_commit : String → String → Review → Bool
same_commit url sha r = str_eq r.pr_url url && str_eq r.commit_sha sha

-- `GetByPRURLAndCommit`.
unfoldable pub get_by_pr_url_and_commit : String → String → List Review → Option Review
get_by_pr_url_and_commit url sha rs = first_where (same_commit url sha) rs

-- The maximum of the revisions over the rows of that URL, none without such a row.
abbrev pub raise_to : ℤ → Option ℤ → ℤ
raise_to n none = n
raise_to n (some m) = if leb_ℤ m n then n else m

unfoldable pub max_revision : String → List Review → Option ℤ
max_revision url [] = none
max_revision url (r ∷ rs) =
    let rest = max_revision url rs in
    if str_eq r.pr_url url then some (raise_to r.revision_count rest) else rest

abbrev pub or_zero : Option ℤ → ℤ
or_zero none = pos 0
or_zero (some m) = m

-- `GetMaxRevisionByPRURL`.
unfoldable pub get_max_revision_by_pr_url : String → List Review → ℤ
unfolding max_revision
get_max_revision_by_pr_url url rs = or_zero (max_revision url rs)

abbrev pub unmerged : String → Review → Bool
unmerged url r = str_eq r.pr_url url && not (is_some r.merged_at)

-- `UpdateMergedAtByPRURL`.
unfoldable pub update_merged_at_by_pr_url : String → ℕ → List Review → List Review
update_merged_at_by_pr_url url now rs =
    update_where (unmerged url) (λ r. record r { merged_at = some now }) rs

-- `Create` adds the row, unless the statement fails or the unique index refuses it; no row of the table
-- is deleted, which gorm only marks and the index goes on to count.
pub data Insertion : Type 0 where
  added clash lost : Insertion

unfoldable pub insertion : Bool → Review → List Review → Insertion
insertion fails row rs =
    if fails then lost else if any (same_commit row.pr_url row.commit_sha) rs then clash else added
