-- ===== src/Api/Clone.antt =====
-- The clone URLs of GitHub's repositories in requests, internal/api/handler/review.go.
use verustcode.Base.{
  ℕ, suc, true, false, some, [], ◌∷◌, ◌++◌, ◌≡◌, refl, arith, ap, is_empty, length, length-append,
  ltb, if◌then◌else◌, Bool-cases, inl, inr,
}
use verustcode.Base.Int.{pos}
use verustcode.Llm.{bytes, bytes_eq, starts_with, find_from}
use verustcode.PrUrl.Text.{Bytes, slash, segment}
use verustcode.PrUrl.Build.{decimal}
use verustcode.PrUrl.Github.{IsPart, segment-part}
use verustcode.PrUrl.RoundTrip.{trim_suffix-append}
use verustcode.Api.Names.{
  Names, drop, strip_scheme, strip_host, strip_git, split_names, names_at, has_scheme,
  parse_repository, resolve, resolve_named, resolve_url, resolved, request_pr_url,
}

-- "owner/name".
abbrev pub place : Bytes → Bytes → Bytes
place owner name = owner ++ (slash ∷ name)

strip_git-place :
    (owner name : Bytes) → strip_git (place owner name ++ bytes ".git") ≡ place owner name
unfolding strip_git
strip_git-place owner name =
    let long : ltb 4 (length (place owner name ++ bytes ".git")) ≡ true = ground (
      arith,
      length-append (place owner name) (bytes ".git"),
      length-append owner (slash ∷ name),
    ) in
    rw long (trim_suffix-append (place owner name) 46 (bytes "git"))

split_names-place :
    (provider owner name : Bytes)
    → IsPart owner
    → split_names provider (place owner name)
      ≡ record { owner = owner; name = name; provider = provider }
unfolding split_names
split_names-place provider owner name part = ap (names_at provider) (segment-part owner name part)

https : (rest : Bytes) → has_scheme (bytes "https://github.com/" ++ rest) ≡ true
unfolding starts_with
https rest = ground arith

long_host : (rest : Bytes) → ltb 10 (length (bytes "github.com/" ++ rest)) ≡ true
long_host rest = ground arith

parse_repository-clone :
    (owner name : Bytes)
    → IsPart owner
    → parse_repository (bytes "https://github.com/" ++ (place owner name ++ bytes ".git"))
      ≡ some (record { owner = owner; name = name; provider = bytes "github" })
unfolding parse_repository strip_scheme strip_host drop starts_with
parse_repository-clone owner name part =
    let rest : Bytes = place owner name ++ bytes ".git" in
    rw (https rest, long_host rest, strip_git-place owner name)
      (ap some (split_names-place (bytes "github") owner name part))

-- The pull request's page.
abbrev pub pull_page : Bytes → Bytes → ℕ → Bytes
pull_page owner name n =
    bytes "https://github.com/" ++ (owner ++ (slash ∷ (name ++ (bytes "/pull/" ++ decimal n))))

-- GitHub's https clone URL of a repository resolves to itself with its owner, its name and the provider
-- that the request asks for, GitHub if it asks for none, and with GitHub as the provider the pull
-- request's URL is that of its page, where owner and name are not empty and the owner has no slash.
pub resolve-clone :
    (asked owner name : Bytes) (n : ℕ)
    → IsPart owner
    → is_empty owner ≡ false
    → is_empty name ≡ false
    → let url = bytes "https://github.com/" ++ (place owner name ++ bytes ".git") in
      let provider : Bytes = if is_empty asked then bytes "github" else asked in
      let names : Names = record { owner = owner; name = name; provider = provider } in
      (resolve url asked ≡ resolved url names)
      × (provider ≡ bytes "github"
          → request_pr_url names (pos (suc n)) ≡ pull_page owner name (suc n))
unfolding resolve resolve_named resolve_url request_pr_url starts_with bytes_eq
resolve-clone asked owner name n part owned named = (
  ap (resolve_named (bytes "https://github.com/" ++ (place owner name ++ bytes ".git")) asked)
      (parse_repository-clone owner name part),
  λ github. rw (owned, named, github) refl,
)

http : (rest : Bytes) → has_scheme (bytes "http://github.com/" ++ rest) ≡ true
unfolding starts_with
http rest = ground arith

strip_git-cut :
    (owner name : Bytes)
    → strip_git (bytes "ithub.com/" ++ (place owner name ++ bytes ".git"))
      ≡ bytes "ithub.com/" ++ place owner name
unfolding strip_git
strip_git-cut owner name =
    let long : ltb 4 (length (bytes "ithub.com/" ++ (place owner name ++ bytes ".git"))) ≡ true =
      ground arith in
    rw long (trim_suffix-append (bytes "ithub.com/" ++ place owner name) 46 (bytes "git"))

strip_host-cut :
    (rest : Bytes) → strip_host (bytes "ithub.com/" ++ rest) ≡ (bytes "ithub.com/" ++ rest, [])
unfolding strip_host starts_with
strip_host-cut rest = elim (Bool-cases (ltb 10 (length (bytes "ithub.com/" ++ rest)))) [
  | inl long ↦ rw long refl
  | inr short ↦ rw short refl
]

parse_repository-http :
    (owner name : Bytes)
    → parse_repository (bytes "http://github.com/" ++ (place owner name ++ bytes ".git"))
      ≡ some (record { owner = bytes "ithub.com"; name = place owner name; provider = [] })
unfolding parse_repository strip_scheme drop starts_with split_names segment
parse_repository-http owner name =
    let rest : Bytes = place owner name ++ bytes ".git" in
    rw (http rest, strip_host-cut rest, strip_git-cut owner name) refl

filled_place : (owner name : Bytes) → is_empty (place owner name) ≡ false
filled_place [] name = refl
filled_place (c ∷ owner) name = refl

-- A clone URL of GitHub with http in place of https loses the first letter of its host: the owner is
-- taken to be "ithub.com", and the pull request's URL is that of another page, where the request asks
-- for no provider.
pub resolve-http :
    (owner name : Bytes) (n : ℕ)
    → let url = bytes "http://github.com/" ++ (place owner name ++ bytes ".git") in
      let names : Names = record {
        owner = bytes "ithub.com";
        name = place owner name;
        provider = bytes "github";
      } in
      (resolve url [] ≡ resolved url names)
      × (request_pr_url names (pos (suc n))
          ≡ pull_page (bytes "ithub.com") (place owner name) (suc n))
unfolding resolve resolve_named request_pr_url starts_with bytes_eq find_from
resolve-http owner name n = (
  ap (resolve_named (bytes "http://github.com/" ++ (place owner name ++ bytes ".git")) [])
      (parse_repository-http owner name),
  rw (filled_place owner name) refl,
)
