-- ===== src/Alias/Table.antt =====
-- src/alias.c: the operations on the table. A result of 0 is `pos 0`, -1 is `negsuc 0`.
use mathlib.Core.Option
use las_shell.Prelude.{
  ℕ, Bytes, length, Bool, Option, none, some, List, [], ◌∷◌, ◌++◌, ltb, if◌then◌else◌,
}
use las_shell.Prelude.Int.{ℤ, pos, negsuc, is_zero}
use las_shell.CString.Compare.{my_strcmp}

pub record Alias : Type 0 where
  pub name : Bytes
  pub value : Bytes

-- `MAX_ALIASES`
abbrev pub max_aliases : ℕ
max_aliases = 100

-- `my_strcmp(aliases[i].name, name) == 0`
unfoldable pub same_name : Bytes → Bytes → Bool
unfolding my_strcmp
same_name a b = is_zero (my_strcmp a b)

unfoldable pub find_alias : Bytes → List Alias → Option Bytes
find_alias name [] = none
find_alias name (a ∷ rest) = if same_name a.name name then some a.value else find_alias name rest

-- The first loop of `add_alias`: the table with the entry replaced, if there is one.
unfoldable pub replace : Bytes → Bytes → List Alias → Option (List Alias)
replace name value [] = none
replace name value (a ∷ rest) =
    let later = Option.map (◌∷◌ a) (replace name value rest) in
    if same_name a.name name then some (record a { value = value } ∷ rest) else later

-- The rest of `add_alias`, on what the loop found.
abbrev pub store_alias : Bytes → Bytes → List Alias → Option (List Alias) → List Alias × ℤ
store_alias name value table (some t) = (t, pos 0)
store_alias name value table none =
    if ltb (length table) max_aliases
    then (table ++ (record { name = name; value = value } ∷ []), pos 0)
    else (table, negsuc 0)

unfoldable pub add_alias : Bytes → Bytes → List Alias → List Alias × ℤ
unfolding replace
add_alias name value table = store_alias name value table (replace name value table)

-- The entry is taken out and those behind it move up.
unfoldable pub remove_alias : Bytes → List Alias → List Alias × ℤ
remove_alias name [] = ([], negsuc 0)
remove_alias name (a ∷ rest) =
    let (t, r) = remove_alias name rest in
    if same_name a.name name then (rest, pos 0) else (a ∷ t, r)
