-- ===== src/PrUrl/Text.antt =====
-- What internal/git/prurl/parser.go uses of packages strings, strconv and regexp. A text is the list of
-- its bytes.
use verustcode.Base.{
  ℕ, ◌+◌, ◌-◌, ◌*◌, Bool, Option, none, some, List, [], ◌∷◌, ◌++◌, ◌&&◌, ◌==◌, leb, is_empty,
  if◌then◌else◌,
}
use verustcode.Llm.{bytes, find_from}
use verustcode.Queue.{is_some}

abbrev pub Bytes : Type 0
Bytes = List ℕ

abbrev pub slash : ℕ
slash = 47

abbrev pub newline : ℕ
newline = 10

-- `\d` and a longest run of it.
abbrev pub is_digit : ℕ → Bool
is_digit c = leb 48 c && leb c 57

unfoldable pub digits : Bytes → Bytes
digits [] = []
digits (c ∷ s) = let rest = digits s in if is_digit c then c ∷ rest else []

-- The rest of a text behind a literal.
unfoldable pub behind : Bytes → Bytes → Option Bytes
behind [] s = some s
behind (a ∷ lit) [] = none
behind (a ∷ lit) (b ∷ s) = let rest = behind lit s in if b == a then rest else none

-- `[^/]*`, and what follows.
unfoldable pub segment : Bytes → Bytes × Bytes
segment [] = ([], [])
segment (c ∷ s) =
    let (name, rest) = segment s in if c == slash then ([], c ∷ s) else (c ∷ name, rest)

-- A literal followed by `\d+`: the digits.
unfoldable pub number_after : Bytes → Bytes → Option Bytes
number_after lit s = elim (behind lit s) [
  | none ↦ none
  | some rest ↦ if is_empty (digits rest) then none else some (digits rest)
]

abbrev pub pull : Bytes
pull = bytes "/pull/"

abbrev pub dash_merge_requests : Bytes
dash_merge_requests = bytes "/-/merge_requests/"

abbrev pub merge_requests : Bytes
merge_requests = bytes "/merge_requests/"

-- `strconv.Atoi` of digits: out of the range of an int there is no number.
unfoldable pub value : ℕ → Bytes → ℕ
value n [] = n
value n (c ∷ s) = value (n * 10 + (c - 48)) s

abbrev pub max_int : ℕ
max_int = 9223372036854775807

unfoldable pub atoi : Bytes → Option ℕ
unfolding value
atoi s = if leb (value 0 s) max_int then some (value 0 s) else none

-- `strings.Split` by a slash, and `strings.Join` with it.
abbrev pub put : ℕ → List Bytes → List Bytes
put c [] = (c ∷ []) ∷ []
put c (part ∷ parts) = (c ∷ part) ∷ parts

unfoldable pub split : Bytes → List Bytes
split [] = [] ∷ []
split (c ∷ s) = let parts = split s in if c == slash then [] ∷ parts else put c parts

unfoldable pub join : List Bytes → Bytes
join [] = []
join (part ∷ []) = part
join (part ∷ more ∷ parts) = part ++ (slash ∷ join (more ∷ parts))

-- All parts but the last, and the last.
unfoldable pub but_last : List Bytes → List Bytes
but_last [] = []
but_last (part ∷ []) = []
but_last (part ∷ more ∷ parts) = part ∷ but_last (more ∷ parts)

unfoldable pub last : List Bytes → Bytes
last [] = []
last (part ∷ []) = part
last (part ∷ more ∷ parts) = last (more ∷ parts)

-- `strings.Contains`.
abbrev pub contains : Bytes → Bytes → Bool
contains s sub = is_some (find_from sub 0 s)

-- The rest of a text behind a prefix, and else the text.
unfoldable pub trim_prefix : Bytes → Bytes → Bytes
trim_prefix lit s = elim (behind lit s) [ none ↦ s | some rest ↦ rest ]
