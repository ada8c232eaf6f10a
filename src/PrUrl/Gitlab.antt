-- ===== src/PrUrl/Gitlab.antt =====
-- GitLab's merge request paths, `parseGitLabURL` of internal/git/prurl/parser.go.
use verustcode.Base.{
  ℕ, ◌≤◌, ◌==◌, false, none, some, List, [], ◌∷◌, ◌++◌, ◌≡◌, ◌⊎◌, refl, sym, ap, ap₂, ◌∙◌, arith,
  Bool-cases, inl, inr, ltb, is_empty, length, length-append,
}
use verustcode.PrUrl.Text.{
  Bytes, slash, newline, dash_merge_requests, behind, number_after, split, put, join, but_last,
  last, max_int,
}
use verustcode.PrUrl.Build.{dash, decimal}
use verustcode.PrUrl.{parsed, match_lazy, match_gitlab, gitlab_place, parse_gitlab_url}
use verustcode.PrUrl.Digits.{Ends}
use verustcode.PrUrl.Github.{IsPart, behind-append, number_after-decimal, atoi-decimal}

-- No dash begins the text.
abbrev pub Undashed : Bytes → Type 0
Undashed [] = Unit
Undashed (c ∷ s) = (c == dash) ≡ false

-- Behind a slash comes no dash.
abbrev pub IsPlain : ℕ → Bytes → Type 0
IsPlain c s = ((c == slash) ≡ false) ⊎ Undashed s

-- A project's path: no line break in it, and no dash behind a slash.
abbrev pub IsProject : Bytes → Type 0
IsProject [] = Unit
IsProject (c ∷ s) = ((c == newline) ≡ false) × IsPlain c s × IsProject s

module _ (n : ℕ) (tail : Bytes) (ends : Ends tail) where
  abbrev request : Bytes
  request = dash_merge_requests ++ (decimal n ++ tail)

  -- In front of the request the format does not begin.
  no_behind :
      (c : ℕ) (s : Bytes) → IsPlain c s → behind dash_merge_requests (c ∷ (s ++ request)) ≡ none
  unfolding behind
  no_behind c [] plain = elim (Bool-cases (c == slash)) [
    | inl here ↦ rw here refl
    | inr other ↦ rw other refl
  ]
  no_behind c (d ∷ s) (inl other) = rw other refl
  no_behind c (d ∷ s) (inr plain) = elim (Bool-cases (c == slash)) [
    | inl here ↦ rw (here, plain) refl
    | inr other ↦ rw other refl
  ]

  no_match :
      (c : ℕ) (s : Bytes)
      → IsPlain c s
      → number_after dash_merge_requests (c ∷ (s ++ request)) ≡ none
  unfolding number_after
  no_match c s plain = rw (no_behind c s plain, number_after)

  match_lazy-project :
      (c : ℕ) (s : Bytes)
      → IsProject (c ∷ s)
      → match_lazy dash_merge_requests (c ∷ (s ++ request)) ≡ some (c ∷ s, decimal n)
  unfolding match_lazy
  match_lazy-project c [] (line, plain, rest) =
      rw (line, number_after-decimal dash_merge_requests n tail ends) refl
  match_lazy-project c (d ∷ s) (line, plain, (line', plain', rest)) =
      rw (line, no_match d s plain', match_lazy-project d s (line', plain', rest)) refl

-- A path of a project's parts.
split-part : (repo : Bytes) → IsPart repo → split repo ≡ repo ∷ []
unfolding split
split-part [] part = refl
split-part (c ∷ repo) (other, part) = rw (other, split-part repo part) refl

-- A text has at least one part.
split-cons : (s : Bytes) → (part : Bytes) × (parts : List Bytes) × (split s ≡ part ∷ parts)
unfolding split
split-cons [] = ([], [], refl)
split-cons (c ∷ s) = elim (Bool-cases (c == slash)) [
  | inl here ↦ ([], split s, rw here refl)
  | inr other ↦ let (part, parts, same) = split-cons s in (c ∷ part, parts, rw (other, same) refl)
]

split-append :
    (owner repo : Bytes)
    → IsPart repo
    → split (owner ++ (slash ∷ repo)) ≡ split owner ++ (repo ∷ [])
unfolding split
split-append [] repo part = rw (split-part repo part) refl
split-append (c ∷ owner) repo part = elim (Bool-cases (c == slash)) [
  | inl here ↦ rw (here, split-append owner repo part) refl
  | inr other ↦
      let (front, parts, same) = split-cons owner in
      rw (other, split-append owner repo part, same) refl
]

join-put :
    (c : ℕ) (part : Bytes) (parts : List Bytes)
    → join (put c (part ∷ parts)) ≡ c ∷ join (part ∷ parts)
unfolding join
join-put c part [] = refl
join-put c part (more ∷ parts) = refl

join-split : (s : Bytes) → join (split s) ≡ s
unfolding split join
join-split [] = refl
join-split (c ∷ s) =
    let (front, parts, same) = split-cons s in
    let again : join (front ∷ parts) ≡ s = ap join (sym same) ∙ join-split s in
    elim (Bool-cases (c == slash)) [
      | inl here ↦
          let mark : slash ≡ c = ground (arith, here) in
          rw (here, same) (ap₂ (λ (k : ℕ) (t : Bytes). k ∷ t) mark again)
      | inr other ↦ rw (other, same) (join-put c front parts ∙ ap (λ (t : Bytes). c ∷ t) again)
    ]

but_last-append : (ps : List Bytes) (p : Bytes) → but_last (ps ++ (p ∷ [])) ≡ ps
unfolding but_last
but_last-append [] p = refl
but_last-append (q ∷ []) p = refl
but_last-append (q ∷ r ∷ ps) p = ap (λ (t : List Bytes). q ∷ t) (but_last-append (r ∷ ps) p)

last-append : (ps : List Bytes) (p : Bytes) → last (ps ++ (p ∷ [])) ≡ p
unfolding last
last-append [] p = refl
last-append (q ∷ []) p = refl
last-append (q ∷ r ∷ ps) p = last-append (r ∷ ps) p

split-long : (owner repo : Bytes) → ltb (length (split owner ++ (repo ∷ []))) 2 ≡ false
split-long owner repo =
    let (front, parts, same) = split-cons owner in
    rw same (ground (arith, length-append parts (repo ∷ [])))

gitlab_place-project :
    (owner repo : Bytes) (n : ℕ)
    → IsPart repo
    → n ≤ max_int
    → gitlab_place (owner ++ (slash ∷ repo)) (decimal n) ≡ parsed (owner, repo, n)
unfolding gitlab_place
gitlab_place-project owner repo n part small = rw (
  atoi-decimal n small,
  split-append owner repo part,
  split-long owner repo,
  but_last-append (split owner) repo,
  last-append (split owner) repo,
  join-split owner,
  gitlab_place,
)

filled : (owner repo : Bytes) → is_empty (owner ++ (slash ∷ repo)) ≡ false
filled [] repo = refl
filled (c ∷ owner) repo = refl

-- The path of a merge request, with what may stand behind its number.
abbrev pub request_path : Bytes → Bytes → ℕ → Bytes → Bytes
request_path owner repo n tail =
    slash ∷ ((owner ++ (slash ∷ repo)) ++ (dash_merge_requests ++ (decimal n ++ tail)))

match_gitlab-project :
    (project : Bytes) (n : ℕ) (tail : Bytes)
    → Ends tail
    → is_empty project ≡ false
    → IsProject project
    → match_gitlab dash_merge_requests
        (slash ∷ (project ++ (dash_merge_requests ++ (decimal n ++ tail))))
      ≡ some (project, decimal n)
unfolding match_gitlab
match_gitlab-project [] n tail ends filled plain = cc
match_gitlab-project (c ∷ s) n tail ends filled plain = rw (
  behind-append (slash ∷ []) (c ∷ (s ++ (dash_merge_requests ++ (decimal n ++ tail)))),
  match_lazy-project n tail ends c s plain,
  match_gitlab,
)

-- `parseGitLabURL` reads the owner, which may be nested groups, the repository and the number back
-- from the path "/owner/repo/-/merge_requests/number", also with more behind it that does not begin
-- with a digit: the repository has no slash, owner and repository have no line break and no part that
-- begins with a dash, and the number is in the range of an int.
pub parse_gitlab_url-place :
    (owner repo : Bytes) (n : ℕ) (tail : Bytes)
    → IsProject (owner ++ (slash ∷ repo))
    → IsPart repo
    → n ≤ max_int
    → Ends tail
    → parse_gitlab_url (request_path owner repo n tail) ≡ parsed (owner, repo, n)
unfolding parse_gitlab_url
parse_gitlab_url-place owner repo n tail plain part small ends = rw (
  match_gitlab-project (owner ++ (slash ∷ repo)) n tail ends (filled owner repo) plain,
  gitlab_place-project owner repo n part small,
  parse_gitlab_url,
)
