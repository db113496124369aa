-- ===== src/Alias/Expand.antt =====
-- src/alias.c: `expand_aliases`. Allocation failures, which end the loop early, are not modelled.
use las_shell.Prelude.{
  ℕ, zero, suc, Bytes, take, Bool, ◌||◌, Option, none, some, List, [], ◌∷◌, ◌++◌, ◌==◌,
  if◌then◌else◌,
}
use las_shell.Alias.Table.{Alias, same_name, find_alias}

abbrev pub is_space : ℕ → Bool
is_space c = c == b' ' || c == b'\t'

-- `while (*rest && *rest != ' ' && *rest != '\t') rest++;`: what is passed, and where `rest` stands.
unfoldable pub split_word : Bytes → Bytes × Bytes
split_word [] = ([], [])
split_word (c ∷ cs) =
    let (word, rest) = split_word cs in if is_space c then ([], c ∷ cs) else (c ∷ word, rest)

-- `while (*rest == ' ' || *rest == '\t') rest++;`
unfoldable pub skip_spaces : Bytes → Bytes
skip_spaces [] = []
skip_spaces (c ∷ cs) = if is_space c then skip_spaces cs else c ∷ cs

-- Behind the first blank, which the code overwrites with a NUL.
abbrev pub arguments : Bytes → Bytes
arguments [] = []
arguments (c ∷ cs) = skip_spaces cs

abbrev pub first_word : Bytes → Bytes
first_word s = (split_word s).0

abbrev pub rest_of : Bytes → Bytes
rest_of s = arguments (split_word s).1

abbrev pub joined : Bytes → Bytes → Bytes
joined value [] = value
joined value (c ∷ cs) = value ++ (b' ' ∷ c ∷ cs)

-- The guard against an alias that names itself looks at the first 511 bytes of the value.
abbrev pub names_itself : Bytes → Bytes → Bool
names_itself value word = same_name (first_word (take 511 value)) word

abbrev pub substitute : Bytes → Option Bytes → Option Bytes
substitute current none = none
substitute current (some value) =
    if names_itself value (first_word current) then none else some (joined value (rest_of current))

-- One round of the loop: `none` where it breaks.
unfoldable pub expand_once : List Alias → Bytes → Option Bytes
unfolding split_word skip_spaces
expand_once table current = substitute current (find_alias (first_word current) table)

unfoldable pub expand_loop : ℕ → List Alias → Bytes → Bytes
expand_loop zero table current = current
expand_loop (suc n) table current = elim (expand_once table current) [
  | none ↦ current
  | some result ↦ expand_loop n table result
]

unfoldable pub expand_aliases : List Alias → Bytes → Bytes
unfolding expand_loop
expand_aliases table [] = []
expand_aliases table (c ∷ cs) = expand_loop 10 table (c ∷ cs)
