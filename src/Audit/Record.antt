-- ===== src/Audit/Record.antt =====
-- src/audit.c: the texts of a record: `csv_quote`, `bytes_to_hex`, `is_valid_hex64`, and the place of
-- the chain hash in a record, which both the writer and the verifier look for.
pub mod Shape
use las_shell.Prelude.{
  ℕ, zero, suc, ◌+◌, ◌-◌, ◌/◌, ◌%◌, Bytes, length, Bool, true, false, not, ◌&&◌, ◌||◌, Option, none,
  some, List, [], ◌∷◌, ◌++◌, ltb, leb, ◌==◌, if◌then◌else◌,
}

-- A byte of the command at the position `i` of the buffer of 2,048 bytes.
abbrev pub quoted_byte : ℕ → ℕ → Bytes
quoted_byte i c = if c == b'"' then (if ltb i 2044 then b'"' ∷ b'"' ∷ [] else []) else c ∷ []

unfoldable pub quote_from : ℕ → Bytes → Bytes
quote_from i [] = []
quote_from i (c ∷ cs) =
    let piece = quoted_byte i c in
    let rest = quote_from (i + length piece) cs in if ltb i 2045 then piece ++ rest else []

unfoldable pub csv_quote : Bytes → Bytes
unfolding quote_from
csv_quote cmd = b'"' ∷ (quote_from 1 cmd ++ (b'"' ∷ []))

abbrev pub hex_digit : ℕ → ℕ
hex_digit n = if ltb n 10 then b'0' + n else b'a' + (n - 10)

unfoldable pub bytes_to_hex : Bytes → Bytes
bytes_to_hex [] = []
bytes_to_hex (b ∷ bs) = hex_digit (b / 16 % 16) ∷ hex_digit (b % 16) ∷ bytes_to_hex bs

-- `isxdigit`
abbrev pub is_xdigit : ℕ → Bool
is_xdigit c = leb b'0' c && leb c b'9' || leb b'a' c && leb c b'f' || leb b'A' c && leb c b'F'

unfoldable pub all_xdigits : Bytes → Bool
all_xdigits [] = true
all_xdigits (c ∷ cs) = is_xdigit c && all_xdigits cs

unfoldable pub is_valid_hex64 : Bytes → Bool
unfolding all_xdigits
is_valid_hex64 s = length s == 64 && all_xdigits s

abbrev prepend : ℕ → Option (Bytes × Bytes) → Option (Bytes × Bytes)
prepend c none = none
prepend c (some (pre, rest)) = some (c ∷ pre, rest)

-- The line cut in front of its `n`th comma outside quotes; the second argument is `in_q`.
unfoldable pub split_comma : ℕ → Bool → Bytes → Option (Bytes × Bytes)
split_comma n in_q [] = none
split_comma n in_q (c ∷ cs) =
    let q = if c == b'"' then not in_q else in_q in
    let comma = not q && c == b',' in
    let later = prepend c (split_comma (if comma then n - 1 else n) q cs) in
    if c == b'\n' then none else if comma && n == 1 then some ([], c ∷ cs) else later
