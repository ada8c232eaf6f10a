-- ===== src/Api/Names.antt =====
-- The repository that a request names, `parseRepository` and the tests of `CreateReview` in
-- internal/api/handler/review.go. A text is the list of its bytes; a slice out of its bounds panics,
-- which is `none`.
use verustcode.Base.{
  ℕ, suc, zero, Bool, Option, none, some, [], ◌∷◌, ◌++◌, ◌&&◌, ◌||◌, ltb, length, is_empty,
  if◌then◌else◌,
}
use verustcode.Base.Int.{ℤ, pos, negsuc}
use verustcode.Llm.{bytes, bytes_eq, starts_with}
use verustcode.PrUrl.Text.{Bytes, slash, segment, contains}
use verustcode.PrUrl.Build.{decimal, trim_suffix}

-- `s[n:]`, and the same where the length is known to suffice.
unfoldable pub slice_from : ℕ → Bytes → Option Bytes
slice_from zero s = some s
slice_from (suc n) [] = none
slice_from (suc n) (c ∷ s) = slice_from n s

unfoldable pub drop : ℕ → Bytes → Bytes
drop zero s = s
drop (suc n) [] = []
drop (suc n) (c ∷ s) = drop n s

-- Without the scheme, whose length is taken to be eight.
unfoldable pub strip_scheme : Bytes → Option Bytes
unfolding slice_from drop
strip_scheme url =
    let rest = drop 8 url in if starts_with (slash ∷ []) rest then slice_from 7 rest else some rest

-- The rest of the URL and the provider of its host.
unfoldable pub strip_host : Bytes → Bytes × Bytes
unfolding drop
strip_host s =
    if ltb 10 (length s) && starts_with (bytes "github.com") s
    then (drop 11 s, bytes "github")
    else if ltb 10 (length s) && starts_with (bytes "gitlab.com") s
    then (drop 11 s, bytes "gitlab")
    else (s, [])

unfoldable pub strip_git : Bytes → Bytes
strip_git s = if ltb 4 (length s) then trim_suffix (bytes ".git") s else s

pub record Names : Type 0 where
  pub owner : Bytes
  pub name : Bytes
  pub provider : Bytes

-- The loop for the first slash.
abbrev pub names_at : Bytes → Bytes × Bytes → Names
names_at provider (owner, []) = record { owner = []; name = []; provider = provider }
names_at provider (owner, c ∷ name) = record { owner = owner; name = name; provider = provider }

unfoldable pub split_names : Bytes → Bytes → Names
split_names provider s = names_at provider (segment s)

abbrev pub has_scheme : Bytes → Bool
has_scheme repo =
    ltb 8 (length repo)
    && (starts_with (bytes "https://") repo || starts_with (bytes "http://") repo)

-- `parseRepository`.
unfoldable pub parse_repository : Bytes → Option Names
unfolding strip_scheme strip_host strip_git split_names
parse_repository repo =
    if has_scheme repo
    then elim (strip_scheme repo) [
      | none ↦ none
      | some s ↦ let (rest, provider) = strip_host s in some (split_names provider (strip_git rest))
    ]
    else some (split_names [] repo)

-- What the request resolves to: a panic, an answer that the format is invalid, or the names with the
-- repository's URL.
pub data Resolution : Type 0 where
  crashed invalid : Resolution
  resolved : Bytes → Names → Resolution

abbrev pub or_else : Bytes → Bytes → Bytes
or_else first second = if is_empty first then second else first

abbrev pub guess_provider : Bytes → Bytes
guess_provider url =
    if contains url (bytes "github.com")
    then bytes "github"
    else if contains url (bytes "gitlab.com")
    then bytes "gitlab"
    else []

-- A short name becomes a URL of the provider asked for, detected or GitHub's.
unfoldable pub resolve_short : Bytes → Names → Resolution
resolve_short asked names =
    let provider = or_else (or_else asked names.provider) (bytes "github") in
    if is_empty names.owner || is_empty names.name
    then invalid
    else resolved
        (bytes "https://" ++ (provider ++ (bytes ".com/" ++ (names.owner ++ (slash ∷ names.name)))))
        (record names { provider = provider })

unfoldable pub resolve_url : Bytes → Bytes → Names → Resolution
resolve_url url asked names = resolved url (record names {
  provider = or_else asked (or_else (or_else names.provider (guess_provider url)) (bytes "github"));
})

unfoldable pub resolve_named : Bytes → Bytes → Option Names → Resolution
unfolding resolve_short resolve_url
resolve_named repository asked none = crashed
resolve_named repository asked (some names) =
    if starts_with (bytes "http://") repository || starts_with (bytes "https://") repository
    then resolve_url repository asked names
    else resolve_short asked names

-- The first part of `CreateReview`.
unfoldable pub resolve : Bytes → Bytes → Resolution
resolve repository asked = resolve_named repository asked (parse_repository repository)

-- The pull request's URL, empty without one.
unfoldable pub request_pr_url : Names → ℤ → Bytes
unfolding decimal
request_pr_url names (negsuc n) = []
request_pr_url names (pos zero) = []
request_pr_url names (pos (suc n)) =
    if is_empty names.owner || is_empty names.name
    then []
    else if bytes_eq names.provider (bytes "github")
    then bytes "https://github.com/"
      ++ (names.owner ++ (slash ∷ (names.name ++ (bytes "/pull/" ++ decimal (suc n)))))
    else if bytes_eq names.provider (bytes "gitlab")
    then bytes "https://gitlab.com/"
      ++ (names.owner ++ (slash ∷ (names.name ++ (bytes "/-/merge_requests/" ++ decimal (suc n)))))
    else []
