-- ===== src/PrUrl/Build.antt =====
-- The texts built from a pull request: `BuildPRURL` of internal/engine/utils/git.go, and the names of
-- the clones of internal/git/prurl/parser.go.
use Prim.Native.Nat.{◌/◌, ◌%◌}
use verustcode.Base.{ℕ, zero, suc, ◌+◌, [], ◌∷◌, ◌++◌, ◌||◌, ◌==◌, ltb, is_empty, if◌then◌else◌}
use verustcode.Base.Int.{ℤ, pos, negsuc}
use verustcode.Llm.{bytes, bytes_eq}
use verustcode.PrUrl.Text.{Bytes, slash, pull, merge_requests, contains}
use verustcode.PrUrl.{PrInfo}

-- `fmt`'s `%d` of a number: its decimal digits.
unfoldable pub decimal_from : ℕ → ℕ → Bytes → Bytes
decimal_from zero n out = out
decimal_from (suc fuel) n out =
    let more = decimal_from fuel (n / 10) ((48 + n % 10) ∷ out) in
    if ltb n 10 then (48 + n % 10) ∷ out else more

unfoldable pub decimal : ℕ → Bytes
decimal n = decimal_from (suc n) n []

-- The text without a suffix that it has.
unfoldable pub trim_suffix : Bytes → Bytes → Bytes
trim_suffix lit [] = []
trim_suffix lit (c ∷ s) =
    let rest = trim_suffix lit s in if bytes_eq (c ∷ s) lit then [] else c ∷ rest

-- `BuildPRURL`.
unfoldable pub build_pr_url : Bytes → Bytes → ℤ → Bytes
unfolding decimal
build_pr_url repo_url provider (negsuc n) = []
build_pr_url repo_url provider (pos zero) = []
build_pr_url repo_url provider (pos (suc n)) =
    let base = trim_suffix (bytes ".git") repo_url in
    let pull_url = base ++ (pull ++ decimal (suc n)) in
    let merge_url = base ++ (merge_requests ++ decimal (suc n)) in
    if is_empty repo_url
    then []
    else if bytes_eq provider (bytes "github")
    then pull_url
    else if bytes_eq provider (bytes "gitlab")
    then merge_url
    else if contains repo_url (bytes "github.com") || contains repo_url (bytes "github.")
    then pull_url
    else if contains repo_url (bytes "gitlab.com") || contains repo_url (bytes "gitlab.")
    then merge_url
    else []

-- `strings.ReplaceAll(owner, "/", "-")`, and `BuildClonePath`, `BuildClonePathForPR`.
abbrev pub dash : ℕ
dash = 45

unfoldable pub slashes_to_dashes : Bytes → Bytes
slashes_to_dashes [] = []
slashes_to_dashes (c ∷ s) = (if c == slash then dash else c) ∷ slashes_to_dashes s

unfoldable pub build_clone_path : PrInfo → Bytes
build_clone_path info =
    info.provider ++ (dash ∷ (slashes_to_dashes info.owner ++ (dash ∷ info.repo)))
