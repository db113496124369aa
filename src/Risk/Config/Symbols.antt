-- ===== src/Risk/Config/Symbols.antt =====
-- A list of symbols as it is written in the file.
use las_shell.Prelude.{
  take_all, ℕ, suc, zero, ◌<◌, ◌≤◌, ◌≡◌, ◌≢◌, refl, ap₂, Bytes, map, length, Bool, false, List, [],
  ◌∷◌, arith, All, ◌==◌,
}
use las_shell.CString.Libc.{toupper, length-map-toupper}
use las_shell.Risk.Text.{str_to_upper, safe_strncpy}
use las_shell.Risk.Text.Tokens.{IsToken, IsTrimmed, trim_ws-IsTrimmed, strtok_all-joined, joined}
use las_shell.Risk.Config.{symbols_from, parse_symbol_list, is_empty, symbol_len}

abbrev is_comma : ℕ → Bool
is_comma c = c == b','

-- A symbol that fits, without a comma and without white space at its ends.
abbrev pub IsSymbol : Bytes → Type 0
IsSymbol s = IsToken is_comma s × IsTrimmed s × (length s < 32)

tokens_of : (ss : List Bytes) → All IsSymbol ss → All (IsToken is_comma) ss
tokens_of [] h = tt
tokens_of (s ∷ ss) h = (h.0.0, tokens_of ss h.1)

is_empty-ne : (s : Bytes) → s ≢ [] → is_empty s ≡ false
is_empty-ne [] n = absurd (n refl)
is_empty-ne (c ∷ cs) n = refl

symbol_lem : (s : Bytes) → length s < 32 → safe_strncpy (str_to_upper s) symbol_len ≡ str_to_upper s
unfolding str_to_upper
symbol_lem s h = take_all 31 (map toupper s) (omega (arith, h, length-map-toupper s))

symbols_from_lem :
    (room : ℕ) (ss : List Bytes)
    → length ss ≤ room
    → All IsSymbol ss
    → symbols_from room ss ≡ map str_to_upper ss
unfolding symbols_from
symbols_from_lem zero [] l h = refl
symbols_from_lem zero (s ∷ ss) l h = absurd (omega (arith, l))
symbols_from_lem (suc room) [] l h = refl
symbols_from_lem (suc room) (s ∷ ss) l (h, hs) =
    rw (trim_ws-IsTrimmed s h.1, is_empty-ne s h.0.0)
      (ap₂ (λ (x : Bytes) (xs : List Bytes). x ∷ xs) (symbol_lem s h.2)
        (symbols_from_lem room ss (omega (arith, l)) hs))

-- A list of at most 256 symbols, written with commas between them, is read as the same symbols in
-- upper case and in the same order. Each symbol has 1 to 31 bytes, no comma, and no white space at its
-- ends, and the text has less than 4096 bytes.
pub parse_symbol_list-joined :
    (ss : List Bytes)
    → All IsSymbol ss
    → length ss ≤ 256
    → length (joined b',' ss) < 4096
    → parse_symbol_list (joined b',' ss) ≡ map str_to_upper ss
unfolding parse_symbol_list
parse_symbol_list-joined ss h l k =
    rw
      (
        take_all 4095 (joined b',' ss) (omega (arith, k)),
        strtok_all-joined is_comma b',' ss refl (tokens_of ss h),
      )
      (symbols_from_lem 256 ss l h)
