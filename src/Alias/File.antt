-- ===== src/Alias/File.antt =====
-- src/alias.c: `init_aliases` and `save_aliases`. The file is its bytes, or `none` where it cannot be
-- opened.
use las_shell.Prelude.{
  ℕ, zero, suc, ◌-◌, Bytes, peek, length, take, drop, ◌&&◌, ◌||◌, Option, none, some, List, [], ◌∷◌,
  ◌++◌, ltb, ◌==◌, if◌then◌else◌,
}
use las_shell.CString.Search.{my_strchr, my_strcspn}
use las_shell.InputParser.{last_byte}
use las_shell.InputParser.Quote.{escape_quotes}
use las_shell.Alias.Table.{Alias, max_aliases}

-- What the C library's `fgets` stores for a buffer of `n + 1` bytes, and what is left to read.
unfoldable pub read_line : ℕ → Bytes → Bytes × Bytes
read_line zero s = ([], s)
read_line (suc n) [] = ([], [])
read_line (suc n) (c ∷ cs) =
    let (line, rest) = read_line n cs in if c == b'\n' then (c ∷ [], cs) else (c ∷ line, rest)

-- The quotes around a value: the closing one is dropped only if it matches.
unfoldable pub unquote : Bytes → Bytes
unfolding last_byte
unquote value =
    let v = drop 1 value in
    if peek value == b'\'' || peek value == b'"'
    then (if ltb 0 (length v) && last_byte v == peek value then take (length v - 1) v else v)
    else value

abbrev pub add_parts : List Alias → Bytes → Option Bytes → List Alias
add_parts table l none = table
add_parts table l (some equals) =
    table
    ++ (record { name = take (length l - length equals) l; value = unquote (drop 1 equals) } ∷ [])

-- The body of the loop: the newline is cut off, and the line split at its first `=`.
unfoldable pub add_line : List Alias → Bytes → List Alias
unfolding my_strchr my_strcspn unquote
add_line table line =
    let l = take (my_strcspn line (b'\n' ∷ [])) line in add_parts table l (my_strchr l b'=')

unfoldable pub load_from : ℕ → List Alias → Bytes → List Alias
load_from zero table s = table
load_from (suc fuel) table [] = table
load_from (suc fuel) table (c ∷ cs) =
    let (line, rest) = read_line 511 (c ∷ cs) in
    let later = load_from fuel (add_line table line) rest in
    if ltb (length table) max_aliases then later else table

abbrev load_file : Option Bytes → List Alias → List Alias
load_file none table = table
load_file (some s) table = load_from (suc (length s)) table s

unfoldable pub init_aliases : Option Bytes → List Alias → List Alias
unfolding load_from
init_aliases file table = load_file file table

-- `name='value'`, with the quotes of the value escaped.
abbrev pub alias_line : Alias → Bytes
alias_line a = a.name ++ (b'=' ∷ b'\'' ∷ (escape_quotes a.value ++ (b'\'' ∷ [])))

unfoldable pub save_aliases : List Alias → Bytes
unfolding escape_quotes
save_aliases [] = []
save_aliases (a ∷ rest) = alias_line a ++ (b'\n' ∷ save_aliases rest)
