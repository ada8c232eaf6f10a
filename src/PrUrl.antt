-- ===== src/PrUrl.antt =====
-- Pull request URLs: the parser of internal/git/prurl/parser.go. A text is the list of its bytes.
-- net/url's parser and the treatment of letters and white space in package strings are arguments; the
-- regular expressions are written out as the matches that they stand for.
pub mod Text
pub mod Build
mod Digits
pub mod Github
mod Gitlab
pub mod RoundTrip
mod Tests
use verustcode.Base.{
  ℕ, zero, suc, ◌+◌, ◌-◌, ◌*◌, String, Bool, true, false, Option, none, some, List, [], ◌∷◌, ◌++◌,
  ◌&&◌, ◌||◌, ◌==◌, not, leb, ltb, length, is_empty, any, if◌then◌else◌,
}
use verustcode.Llm.{bytes, bytes_eq, starts_with}
use verustcode.PrUrl.Text.{
  Bytes, slash, newline, digits, behind, segment, number_after, pull, dash_merge_requests,
  merge_requests, atoi, split, join, but_last, last, contains, trim_prefix,
}

-- What of other code the parser uses: `strings.TrimSpace`, `strings.ToLower`, and the host and path of
-- `url.Parse`, or its error's text.
pub record Library : Type 0 where
  pub trim_space : Bytes → Bytes
  pub lower_case : Bytes → Bytes
  pub parse_url : Bytes → Option (Bytes × Bytes)

-- `^/([^/]+)/([^/]+)/pull/(\d+)`: the three groups.
unfoldable pub match_github : Bytes → Option (Bytes × Bytes × Bytes)
match_github path = elim (behind (slash ∷ []) path) [
  | none ↦ none
  | some rest ↦
      let (owner, rest1) = segment rest in
      if is_empty owner then none else elim (behind (slash ∷ []) rest1) [
        | none ↦ none
        | some rest2 ↦
            let (repo, rest3) = segment rest2 in
            if is_empty repo then none else elim (number_after pull rest3) [
              | none ↦ none
              | some number ↦ some (owner, repo, number)
            ]
      ]
]

abbrev pub extend : ℕ → Option (Bytes × Bytes) → Option (Bytes × Bytes)
extend c none = none
extend c (some (path, number)) = some (c ∷ path, number)

-- `(.+?)` up to the first place where the literal and a number follow.
unfoldable pub match_lazy : Bytes → Bytes → Option (Bytes × Bytes)
match_lazy lit [] = none
match_lazy lit (c ∷ s) =
    let later = extend c (match_lazy lit s) in
    if c == newline
    then none
    else elim (number_after lit s) [ some number ↦ some (c ∷ [], number) | none ↦ later ]

-- `^/(.+?)` with that literal and `(\d+)`.
unfoldable pub match_gitlab : Bytes → Bytes → Option (Bytes × Bytes)
match_gitlab lit path = elim (behind (slash ∷ []) path) [
  | none ↦ none
  | some rest ↦ match_lazy lit rest
]

pub record PrInfo : Type 0 where
  pub provider : Bytes
  pub host : Bytes
  pub owner : Bytes
  pub repo : Bytes
  pub number : ℕ
  pub original_url : Bytes

-- The errors, by what they name.
pub data ParseError : Type 0 where
  empty_url missing_host : ParseError
  invalid_url : Bytes → ParseError
  unsupported_host : Bytes → ParseError
  unsupported_provider : Bytes → ParseError
  invalid_format : Bytes → ParseError
  invalid_number : Bytes → ParseError
  invalid_path : Bytes → ParseError

pub data Parsed (A : Type 0) : Type 0 where
  refused : ParseError → Parsed A
  parsed : A → Parsed A

-- Owner, repository and number.
abbrev pub Place : Type 0
Place = Bytes × Bytes × ℕ

unfoldable pub parse_github_url : Bytes → Parsed Place
parse_github_url path = elim (match_github path) [
  | none ↦ refused (invalid_format path)
  | some (owner, repo, number) ↦ elim (atoi number) [
    | none ↦ refused (invalid_number number)
    | some n ↦ parsed (owner, repo, n)
  ]
]

-- From the match of one of the two formats on.
unfoldable pub gitlab_place : Bytes → Bytes → Parsed Place
gitlab_place project number = elim (atoi number) [
  | none ↦ refused (invalid_number number)
  | some n ↦
      let parts = split project in
      if ltb (length parts) 2
      then refused (invalid_path project)
      else parsed (join (but_last parts), last parts, n)
]

unfoldable pub parse_gitlab_url : Bytes → Parsed Place
parse_gitlab_url path = elim (match_gitlab dash_merge_requests path) [
  | some (project, number) ↦ gitlab_place project number
  | none ↦ elim (match_gitlab merge_requests path) [
    | none ↦ refused (invalid_format path)
    | some (project, number) ↦ gitlab_place project number
  ]
]

-- The custom hosts with their providers.
abbrev pub Hosts : Type 0
Hosts = List (Bytes × Bytes)

unfoldable pub provider_of : Hosts → Bytes → Option Bytes
unfolding bytes_eq
provider_of [] host = none
provider_of ((k, v) ∷ hosts) host =
    let rest = provider_of hosts host in if bytes_eq k host then some v else rest

-- `RegisterHost`: an entry replaces the earlier one of the host.
unfoldable pub register_host : Library → Bytes → Bytes → Hosts → Hosts
register_host lib host provider hosts = (lib.lower_case host, provider) ∷ hosts

-- `detectProvider`.
unfoldable pub detect_provider : Hosts → Bytes → Bytes → Bytes
detect_provider hosts host path = elim (provider_of hosts host) [
  | some provider ↦ provider
  | none ↦
      if contains host (bytes "github")
      then bytes "github"
      else if contains host (bytes "gitlab")
      then bytes "gitlab"
      else if contains host (bytes "bitbucket")
      then bytes "bitbucket"
      else if contains path pull
      then bytes "github"
      else if contains path dash_merge_requests || contains path merge_requests
      then bytes "gitlab"
      else []
]

-- `extractHostFromURL`: what stands before the first slash, unless that is the first character.
unfoldable pub extract_host_from_url : Library → Bytes → Bytes
extract_host_from_url lib url =
    let host =
      if starts_with (bytes "https://") url
      then trim_prefix (bytes "https://") url
      else trim_prefix (bytes "http://") url in
    let front = (segment host).0 in lib.lower_case (if is_empty front then host else front)

-- `RegisterHostsFromConfig`; a provider has a type and a URL.
unfoldable pub register_hosts_from_config : Library → List (Bytes × Bytes) → Hosts → Hosts
register_hosts_from_config lib [] hosts = hosts
register_hosts_from_config lib ((kind, url) ∷ providers) hosts =
    let host = extract_host_from_url lib url in
    let skipped =
      is_empty url
      || is_empty host
      || bytes_eq host (bytes "github.com")
      || bytes_eq host (bytes "gitlab.com") in
    register_hosts_from_config lib providers
      (if skipped then hosts else register_host lib host kind hosts)

abbrev pub info_at : Bytes → Bytes → Bytes → Parsed Place → Parsed PrInfo
info_at provider host url (refused e) = refused e
info_at provider host url (parsed (owner, repo, n)) = parsed (record {
  provider = provider;
  host = host;
  owner = owner;
  repo = repo;
  number = n;
  original_url = url;
})

-- From the provider on.
unfoldable pub parse_for : Bytes → Bytes → Bytes → Bytes → Parsed PrInfo
parse_for provider host path url =
    if is_empty provider
    then refused (unsupported_host host)
    else if bytes_eq provider (bytes "github")
    then info_at provider host url (parse_github_url path)
    else if bytes_eq provider (bytes "gitlab")
    then info_at provider host url (parse_gitlab_url path)
    else refused (unsupported_provider provider)

-- `Parse`.
unfoldable pub parse : Library → Hosts → Bytes → Parsed PrInfo
parse lib hosts text =
    let url = lib.trim_space text in
    if is_empty url then refused empty_url else elim (lib.parse_url url) [
      | none ↦ refused (invalid_url url)
      | some (raw_host, path) ↦
          let host = lib.lower_case raw_host in
          if is_empty host
          then refused missing_host
          else parse_for (detect_provider hosts host path) host path url
    ]
