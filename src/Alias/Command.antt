-- ===== src/Alias/Command.antt =====
-- src/alias.c: `list_aliases` and the commands `alias` and `unalias`. A command gets `args[1]`, `none`
-- where that is NULL, and gives the table, its result and what it prints on the standard output; the
-- messages on the standard error are left out.
use las_shell.Prelude.{
  ℕ, ◌-◌, ◌≡◌, refl, ap, ◌∙◌, Bytes, codes, peek, length, take, drop, Bool, true, not, ◌||◌, ◌&&◌,
  subst, Option, none, some, List, [], ◌∷◌, ◌++◌, ltb, ◌==◌, if◌then◌else◌, arith, Only, IsText,
  length-append, take-append,
}
use las_shell.Prelude.Int.{ℤ, pos, negsuc}
use las_shell.CString.Libc.{strchr, strchr-first}
use las_shell.InputParser.{last_byte}
use las_shell.Alias.Table.{Alias, find_alias, add_alias, remove_alias}
use las_shell.Alias.Invariant.{IsTable, same_name_refl}
use las_shell.Alias.Laws.{Added, add_alias-Added}
use las_shell.Alias.RoundTrip.{last_byte-snoc}

-- `printf("alias %s='%s'\n", name, value)`
abbrev pub shown : Bytes → Bytes → Bytes
shown name value = codes "alias " ++ (name ++ (codes "='" ++ (value ++ codes "'\n")))

unfoldable pub list_aliases : List Alias → Bytes
list_aliases [] = []
list_aliases (a ∷ rest) = shown a.name a.value ++ list_aliases rest

abbrev pub is_quote : ℕ → Bool
is_quote c = c == b'\'' || c == b'"'

-- The quotes around the value of `alias name=value`: the closing one need not match.
unfoldable pub strip_value : Bytes → Bytes
unfolding last_byte
strip_value value =
    let v = drop 1 value in
    if is_quote (peek value)
    then (if ltb 0 (length v) && is_quote (last_byte v) then take (length v - 1) v else v)
    else value

abbrev show_alias : List Alias → Bytes → Option Bytes → (List Alias × ℤ) × Bytes
show_alias table arg none = ((table, negsuc 0), [])
show_alias table arg (some value) = ((table, pos 0), shown arg value)

abbrev define_or_show : List Alias → Bytes → Option Bytes → (List Alias × ℤ) × Bytes
define_or_show table arg none = show_alias table arg (find_alias arg table)
define_or_show table arg (some equals) =
    (add_alias (take (length arg - length equals) arg) (strip_value (drop 1 equals)) table, [])

unfoldable pub command_alias : List Alias → Option Bytes → (List Alias × ℤ) × Bytes
unfolding list_aliases strchr strip_value find_alias add_alias
command_alias table none = ((table, pos 0), list_aliases table)
command_alias table (some arg) = define_or_show table arg (strchr arg b'=')

unfoldable pub command_unalias : List Alias → Option Bytes → List Alias × ℤ
unfolding remove_alias
command_unalias table none = (table, negsuc 0)
command_unalias table (some arg) = remove_alias arg table

abbrev pub is_not_equals : ℕ → Bool
is_not_equals c = not (c == b'=')

strip_value_lem :
    (q : ℕ) (value : Bytes) → is_quote q ≡ true → strip_value (q ∷ (value ++ (q ∷ []))) ≡ value
unfolding strip_value
strip_value_lem q value h =
    let n = length-append {0} value (q ∷ []) in
    let some_byte : ltb 0 (length (value ++ (q ∷ []))) ≡ true = ground (arith, n) in
    let k : length (value ++ (q ∷ [])) - 1 ≡ length value = omega (arith, n) in
    rw (h, last_byte-snoc value q, h, some_byte, k, take-append value (q ∷ [])) refl

abbrev pub definition : ℕ → Bytes → Bytes → Bytes
definition q name value = name ++ (b'=' ∷ q ∷ (value ++ (q ∷ [])))

find_alias-added :
    (name value : Bytes) (t t' : List Alias) (n : ℕ)
    → IsText name
    → IsTable t
    → add_alias name value t ≡ (t', pos n)
    → find_alias name t' ≡ some value
find_alias-added name value t t' n x w e =
    let added : Added name value t (t', pos n) =
      subst (Added name value t) e (add_alias-Added name value t x w) in
    added.2 name x ∙ rw (same_name_refl name) refl

-- On a well-formed table, `alias name='value'`, with single or double quotes and a name that is a
-- text without `=`, prints nothing and does what `add_alias` does with the name and the value. When
-- that adds the value, `alias name` prints the name with that very value, and leaves the table alone.
pub command_alias-definition :
    (q : ℕ) (name value : Bytes) (t : List Alias)
    → is_quote q ≡ true
    → IsText name
    → Only is_not_equals name
    → IsTable t
    → (command_alias t (some (definition q name value)) ≡ (add_alias name value t, []))
      × ((t' : List Alias) (n : ℕ)
          → add_alias name value t ≡ (t', pos n)
          → command_alias t' (some name) ≡ ((t', pos 0), shown name value))
unfolding command_alias
command_alias-definition q name value t h x k w =
    let rest = q ∷ (value ++ (q ∷ [])) in
    let cut : length (definition q name value) - length (b'=' ∷ rest) ≡ length name =
      omega (arith, length-append {0} name (b'=' ∷ rest)) in
    (
      ap (define_or_show t (definition q name value)) (strchr-first name b'=' rest k).0
          ∙ rw (cut, take-append name (b'=' ∷ rest), strip_value_lem q value h) refl,
      λ t' n e.
          ap (define_or_show t' name) (strchr-first name b'=' rest k).1
          ∙ ap (show_alias t' name) (find_alias-added name value t t' n x w e),
    )
