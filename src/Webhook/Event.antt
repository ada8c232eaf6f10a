-- ===== src/Webhook/Event.antt =====
-- What a delivery says, `WebhookEvent` of internal/git/provider/provider.go, which actions count, and
-- the URLs that internal/api/handler/webhook.go builds from it.
use verustcode.Base.{
  zero, suc, String, Bool, Option, List, [], ◌∷◌, ◌++◌, ◌||◌, any, is_empty, if◌then◌else◌,
}
use verustcode.Base.Int.{ℤ, pos, negsuc}
use verustcode.Llm.{bytes, bytes_eq, to_lower}
use verustcode.PrUrl.Text.{Bytes, slash, contains}
use verustcode.PrUrl.Build.{decimal, trim_suffix}

pub data EventType : Type 0 where
  push pull_request merge_request comment : EventType

pub record WebhookEvent : Type 0 where
  pub event_type : EventType
  pub provider : Bytes
  pub owner : Bytes
  pub repo : Bytes
  pub ref : String
  pub commit_sha : String
  pub pr_number : ℤ
  pub action : Bytes
  pub pr_title : String
  pub pr_description : String
  pub base_commit_sha : String
  pub changed_files : Option (List String)

abbrev pub is_one_of : List Bytes → Bytes → Bool
is_one_of names action = any (bytes_eq (to_lower action)) names

-- `ShouldProcessPREvent`.
unfoldable pub should_process_pr_event : Bytes → Bool
should_process_pr_event action =
    is_one_of
      (bytes "opened"
        ∷ bytes "synchronize"
        ∷ bytes "reopened"
        ∷ bytes "open"
        ∷ bytes "update"
        ∷ bytes "reopen"
        ∷ [])
      action

-- `IsPRMergedEvent`.
unfoldable pub is_pr_merged_event : Bytes → Bool
is_pr_merged_event action =
    is_one_of (bytes "merged" ∷ bytes "merge" ∷ bytes "closed" ∷ bytes "close" ∷ []) action

-- `IsPRUpdateEvent`.
unfoldable pub is_pr_update_event : Bytes → Bool
is_pr_update_event action = is_one_of (bytes "synchronize" ∷ bytes "update" ∷ []) action

abbrev pub repo_at : Bytes → WebhookEvent → Bytes
repo_at base event = base ++ (slash ∷ (event.owner ++ (slash ∷ event.repo)))

-- The base of GitHub's or GitLab's URLs: the configured one, unless it is empty or the public one.
abbrev pub base_or : Bytes → Bytes → Bytes → Bytes
base_or public base trimmed = if is_empty base || bytes_eq base public then public else trimmed

-- `buildRepoURL`, of the providers' configured base URLs.
unfoldable pub build_repo_url : (Bytes → Bytes) → WebhookEvent → Bytes
build_repo_url configured event =
    let base = configured event.provider in
    let trimmed = trim_suffix (slash ∷ []) base in
    if bytes_eq event.provider (bytes "github")
    then repo_at (base_or (bytes "https://github.com") base trimmed) event
    else if bytes_eq event.provider (bytes "gitlab")
    then repo_at (base_or (bytes "https://gitlab.com") base (trim_suffix (bytes "/api/v4") trimmed))
        event
    else repo_at (bytes "https://" ++ (event.provider ++ bytes ".com")) event

-- `buildPRURL`.
unfoldable pub numbered_url : Bytes → WebhookEvent → ℤ → Bytes
unfolding decimal
numbered_url repo_url event (negsuc n) = []
numbered_url repo_url event (pos zero) = []
numbered_url repo_url event (pos (suc n)) =
    let pull_url = repo_url ++ (bytes "/pull/" ++ decimal (suc n)) in
    let merge_url = repo_url ++ (bytes "/-/merge_requests/" ++ decimal (suc n)) in
    if bytes_eq event.provider (bytes "github")
    then pull_url
    else if bytes_eq event.provider (bytes "gitlab")
    then merge_url
    else if contains repo_url (bytes "github")
    then pull_url
    else if contains repo_url (bytes "gitlab")
    then merge_url
    else []

unfoldable pub event_pr_url : (Bytes → Bytes) → WebhookEvent → Bytes
unfolding build_repo_url numbered_url
event_pr_url configured event = numbered_url (build_repo_url configured event) event event.pr_number
