-- ===== src/PrUrl/RoundTrip.antt =====
-- A pull request's URL built by `BuildPRURL` of internal/engine/utils/git.go and read by `Parse` of
-- internal/git/prurl/parser.go.
use verustcode.Base.{
  ℕ, suc, ◌≤◌, true, false, some, [], ◌∷◌, ◌++◌, ◌≡◌, refl, ap, ◌∙◌, arith, Bool-cases, inl, inr,
  is_empty, length, length-append, append_assoc, append-nil,
}
use verustcode.Base.Int.{pos}
use verustcode.Llm.{bytes, bytes_eq}
use verustcode.PrUrl.Text.{Bytes, slash, max_int}
use verustcode.PrUrl.Build.{trim_suffix, build_pr_url}
use verustcode.PrUrl.{Library, Hosts, parsed, detect_provider, parse_for, parse, info_at}
use verustcode.PrUrl.Github.{IsPart, pull_path, parse_github_url-place}

bytes_eq-length : (s t : Bytes) → bytes_eq s t ≡ true → length s ≡ length t
unfolding bytes_eq
bytes_eq-length [] [] h = refl
bytes_eq-length [] (b ∷ t) h = cc
bytes_eq-length (a ∷ s) [] h = cc
bytes_eq-length (a ∷ s) (b ∷ t) h = ground (arith, bytes_eq-length s t)

longer : (c : ℕ) (s lit : Bytes) → bytes_eq (c ∷ (s ++ lit)) lit ≡ false
longer c s lit = elim (Bool-cases (bytes_eq (c ∷ (s ++ lit)) lit)) [
  | inr other ↦ other
  | inl same ↦
      absurd (omega (arith, bytes_eq-length (c ∷ (s ++ lit)) lit same, length-append s lit))
]

bytes_eq-same : (s : Bytes) → bytes_eq s s ≡ true
unfolding bytes_eq
bytes_eq-same [] = refl
bytes_eq-same (a ∷ s) = ground (arith, bytes_eq-same s)

pub trim_suffix-append :
    (s : Bytes) (c : ℕ) (lit : Bytes) → trim_suffix (c ∷ lit) (s ++ (c ∷ lit)) ≡ s
unfolding trim_suffix
trim_suffix-append [] c lit = rw (bytes_eq-same (c ∷ lit)) refl
trim_suffix-append (d ∷ s) c lit = rw (longer d s (c ∷ lit), trim_suffix-append s c lit) refl

filled : (s : Bytes) (c : ℕ) (t : Bytes) → is_empty (s ++ (c ∷ t)) ≡ false
filled [] c t = refl
filled (d ∷ s) c t = refl

module _ (lib : Library) (hosts : Hosts) (site host owner repo : Bytes) (k : ℕ) where
  abbrev path : Bytes
  path = pull_path owner repo (suc k) []

  abbrev repository : Bytes
  repository = site ++ (slash ∷ (owner ++ (slash ∷ repo)))

  built : build_pr_url (repository ++ bytes ".git") (bytes "github") (pos (suc k)) ≡ site ++ path
  unfolding build_pr_url bytes_eq
  built =
      rw (filled repository 46 (bytes "git"), trim_suffix-append repository 46 (bytes "git"))
        (simp (append_assoc, append-nil))

  -- A URL that `BuildPRURL` makes of a GitHub repository's clone URL, with ".git", and a pull request's
  -- number is read back by `Parse` as that host, owner, repository and number: net/url finds the
  -- host and the path in it, white space and capitals are not in the way, the host is known for
  -- GitHub's, owner and repository are not empty and have no slash, and the number is positive and
  -- in the range of an int.
  pub parse-build_pr_url :
      lib.trim_space (site ++ path) ≡ site ++ path
      → lib.parse_url (site ++ path) ≡ some (host, path)
      → lib.lower_case host ≡ host
      → is_empty host ≡ false
      → detect_provider hosts host path ≡ bytes "github"
      → IsPart owner
      → is_empty owner ≡ false
      → IsPart repo
      → is_empty repo ≡ false
      → suc k ≤ max_int
      → parse lib hosts (build_pr_url (repository ++ bytes ".git") (bytes "github") (pos (suc k)))
        ≡ parsed (record {
          provider = bytes "github";
          host = host;
          owner = owner;
          repo = repo;
          number = suc k;
          original_url = site ++ path;
        })
  unfolding parse parse_for bytes_eq
  parse-build_pr_url trimmed split_url lowered named known owner_part owner_filled repo_part
        repo_filled small =
      rw
        (
          built,
          trimmed,
          filled site slash _,
          split_url,
          lowered,
          named,
          known,
          parse_for,
          parse_github_url-place owner repo (suc k) [] owner_part owner_filled repo_part repo_filled
              small tt,
        )
        (ap (λ (u : Bytes). info_at (bytes "github") host u (parsed (owner, repo, suc k)))
          (ap lib.trim_space built ∙ trimmed))
