-- ===== src/Alias/Exact.antt =====
-- Which tables the alias file gives back unchanged.
use las_shell.Prelude.{
  ℕ, ◌≤◌, ◌≡◌, refl, ap, sym, ◌∙◌, ◌↔◌, Bytes, length, Bool, not, some, List, [], ◌∷◌, ◌==◌, arith,
  Only, All, map,
}
use las_shell.InputParser.Quote.{escape_quotes}
use las_shell.Alias.Table.{Alias, max_aliases}
use las_shell.Alias.File.{init_aliases, save_aliases}
use las_shell.Alias.RoundTrip.{Fits, escaped, init-save}

abbrev pub is_no_quote : ℕ → Bool
is_no_quote c = not (c == b'\'')

abbrev pub Unquoted : Alias → Type 0
Unquoted a = Only is_no_quote a.value

escape_quotes-id : (s : Bytes) → Only is_no_quote s → escape_quotes s ≡ s
unfolding escape_quotes
escape_quotes-id [] h = refl
escape_quotes-id (c ∷ cs) h = ground (arith, escape_quotes-id cs h.1)

escape_quotes-le : (s : Bytes) → length s ≤ length (escape_quotes s)
unfolding escape_quotes
escape_quotes-le [] = omega arith
escape_quotes-le (c ∷ cs) = ground (arith, escape_quotes-le cs)

escape_quotes-fixed : (s : Bytes) → length (escape_quotes s) ≡ length s → Only is_no_quote s
unfolding escape_quotes
escape_quotes-fixed [] h = tt
escape_quotes-fixed (c ∷ cs) h = (
  ground (arith, escape_quotes-le cs),
  escape_quotes-fixed cs (ground (arith, escape_quotes-le cs)),
)

escaped-fixed : (t : List Alias) → map escaped t ≡ t → All Unquoted t
escaped-fixed [] h = tt
escaped-fixed (a ∷ rest) h =
    let first : escape_quotes a.value ≡ a.value = ground arith in
    (escape_quotes-fixed a.value (ap (length {A = ℕ}) first), escaped-fixed rest (ground arith))

escaped-id : (t : List Alias) → All Unquoted t → map escaped t ≡ t
escaped-id [] h = refl
escaped-id (a ∷ rest) h = ground (arith, escape_quotes-id a.value h.0, escaped-id rest h.1)

-- A saved table of at most 100 entries that fit a line each is read back unchanged exactly when no
-- value holds a single quote.
pub init-save_exact :
    (t : List Alias)
    → All Fits t
    → length t ≤ max_aliases
    → (init_aliases (some (save_aliases t)) [] ≡ t) ↔ All Unquoted t
init-save_exact t h room =
    let back = init-save t h room in
    ((λ same. escaped-fixed t (sym back ∙ same)), λ plain. back ∙ escaped-id t plain)
