-- ===== src/PrUrl/Github.antt =====
-- GitHub's pull request paths, `parseGitHubURL` of internal/git/prurl/parser.go.
use verustcode.Base.{
  ℕ, ◌≤◌, ◌==◌, true, false, some, [], ◌∷◌, ◌++◌, ◌≡◌, refl, ap, ap₂, arith, All, leb, is_empty,
}
use verustcode.PrUrl.Text.{Bytes, slash, pull, behind, segment, number_after, atoi, max_int}
use verustcode.PrUrl.Build.{decimal}
use verustcode.PrUrl.{parsed, match_github, parse_github_url}
use verustcode.PrUrl.Digits.{Ends, decimal-value, decimal-filled, digits-decimal}

-- A part of a path: no slash in it.
abbrev pub IsPart : Bytes → Type 0
IsPart s = All (λ (c : ℕ). (c == slash) ≡ false) s

pub behind-append : (lit s : Bytes) → behind lit (lit ++ s) ≡ some s
unfolding behind
behind-append [] s = refl
behind-append (a ∷ lit) s =
    let same : (a == a) ≡ true = ground arith in rw (same, behind-append lit s) refl

pub segment-part :
    (name rest : Bytes) → IsPart name → segment (name ++ (slash ∷ rest)) ≡ (name, slash ∷ rest)
unfolding segment
segment-part [] rest part = refl
segment-part (c ∷ name) rest (other, part) = rw (other, segment-part name rest part) refl

pub number_after-decimal :
    (lit : Bytes) (n : ℕ) (tail : Bytes)
    → Ends tail
    → number_after lit (lit ++ (decimal n ++ tail)) ≡ some (decimal n)
unfolding number_after
number_after-decimal lit n tail ends =
    rw
      (
        behind-append lit (decimal n ++ tail),
        digits-decimal n tail ends,
        decimal-filled n,
        number_after,
      )
      refl

pub atoi-decimal : (n : ℕ) → n ≤ max_int → atoi (decimal n) ≡ some n
unfolding atoi
atoi-decimal n small =
    let fits : leb n max_int ≡ true = ground (arith, small) in rw (decimal-value n, fits) refl

-- The path of a pull request, with what may stand behind its number.
abbrev pub pull_path : Bytes → Bytes → ℕ → Bytes → Bytes
pull_path owner repo n tail = slash ∷ (owner ++ (slash ∷ (repo ++ (pull ++ (decimal n ++ tail)))))

match_github-path :
    (owner repo : Bytes) (n : ℕ) (tail : Bytes)
    → IsPart owner
    → is_empty owner ≡ false
    → IsPart repo
    → is_empty repo ≡ false
    → Ends tail
    → match_github (pull_path owner repo n tail) ≡ some (owner, repo, decimal n)
unfolding match_github
match_github-path owner repo n tail owner_part owner_filled repo_part repo_filled ends =
    let rest = repo ++ (pull ++ (decimal n ++ tail)) in
    rw
      (
        behind-append (slash ∷ []) (owner ++ (slash ∷ rest)),
        segment-part owner rest owner_part,
        owner_filled,
        behind-append (slash ∷ []) rest,
        segment-part repo _ repo_part,
        repo_filled,
        number_after-decimal pull n tail ends,
        match_github,
      )
      (ap₂ (λ (o r : Bytes). some (o, r, decimal n))
        (ap (λ (p : Bytes × Bytes). p.0) (segment-part owner rest owner_part))
        (ap (λ (p : Bytes × Bytes). p.0) (segment-part repo _ repo_part)))

-- `parseGitHubURL` reads the owner, the repository and the number back from the path
-- "/owner/repo/pull/number", also with more behind it that does not begin with a digit: owner and
-- repository are not empty and have no slash, and the number is in the range of an int.
pub parse_github_url-place :
    (owner repo : Bytes) (n : ℕ) (tail : Bytes)
    → IsPart owner
    → is_empty owner ≡ false
    → IsPart repo
    → is_empty repo ≡ false
    → n ≤ max_int
    → Ends tail
    → parse_github_url (pull_path owner repo n tail) ≡ parsed (owner, repo, n)
unfolding parse_github_url
parse_github_url-place owner repo n tail owner_part owner_filled repo_part repo_filled small ends =
    rw
      (
        match_github-path owner repo n tail owner_part owner_filled repo_part repo_filled ends,
        atoi-decimal n small,
        parse_github_url,
      )
      refl
