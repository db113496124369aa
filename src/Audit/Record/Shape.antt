-- ===== src/Audit/Record/Shape.antt =====
-- Records of fields without commas, quotes and line ends, and the texts that go into them.
use las_shell.Prelude.{
  ℕ, suc, ◌+◌, ◌-◌, ◌*◌, ◌/◌, ◌%◌, ◌<◌, ◌≤◌, ◌≡◌, refl, ap, ◌∙◌, Bytes, length, Bool, true, false,
  not, ◌||◌, Option, none, some, [], ◌∷◌, ◌++◌, ltb, ◌==◌, arith, Only, All-append, length-append,
  if_both,
}
use las_shell.Audit.Record.{
  quoted_byte, quote_from, csv_quote, hex_digit, bytes_to_hex, is_xdigit, all_xdigits,
  is_valid_hex64, split_comma, prepend,
}

abbrev pub in_field : ℕ → Bool
in_field c = not (c == b',' || c == b'"' || c == b'\n')

abbrev pub not_newline : ℕ → Bool
not_newline c = not (c == b'\n')

-- The split of a line behind a field.
abbrev pub behind : Bytes → Option (Bytes × Bytes) → Option (Bytes × Bytes)
behind t none = none
behind t (some (pre, rest)) = some (t ++ (b',' ∷ pre), rest)

prepend-behind :
    (c : ℕ) (t : Bytes) (o : Option (Bytes × Bytes)) → prepend c (behind t o) ≡ behind (c ∷ t) o
prepend-behind c t none = refl
prepend-behind c t (some (pre, rest)) = refl

prepend-nil : (o : Option (Bytes × Bytes)) → prepend b',' o ≡ behind [] o
prepend-nil none = refl
prepend-nil (some (pre, rest)) = refl

pub split_comma-first :
    (t rest : Bytes)
    → Only in_field t
    → split_comma 1 false (t ++ (b',' ∷ rest)) ≡ some (t, b',' ∷ rest)
unfolding split_comma
split_comma-first [] rest h = refl
split_comma-first (c ∷ t) rest h =
    let comma : (c == b',') ≡ false = ground (arith, h.0) in
    let quote : (c == b'"') ≡ false = ground (arith, h.0) in
    let end : (c == b'\n') ≡ false = ground (arith, h.0) in
    rw (comma, quote, end) (ap (prepend c) (split_comma-first t rest h.1))

pub split_comma-behind :
    (n : ℕ) (t rest : Bytes)
    → Only in_field t
    → split_comma (suc (suc n)) false (t ++ (b',' ∷ rest))
      ≡ behind t (split_comma (suc n) false rest)
unfolding split_comma
split_comma-behind n [] rest h =
    let other : (suc (suc n) == 1) ≡ false = ground arith in
    let less : suc (suc n) - 1 ≡ suc n = omega arith in
    rw (other, less) (prepend-nil (split_comma (suc n) false rest))
split_comma-behind n (c ∷ t) rest h =
    let comma : (c == b',') ≡ false = ground (arith, h.0) in
    let quote : (c == b'"') ≡ false = ground (arith, h.0) in
    let end : (c == b'\n') ≡ false = ground (arith, h.0) in
    rw (comma, quote, end)
      (ap (prepend c) (split_comma-behind n t rest h.1)
        ∙ prepend-behind c t (split_comma (suc n) false rest))

-- The digits of a hash.
hex_digit_lem :
    (n : ℕ) → n < 16 → (is_xdigit (hex_digit n) ≡ true) × (in_field (hex_digit n) ≡ true)
hex_digit_lem n h = (ground (arith, h), ground (arith, h))

pub bytes_to_hex-digits :
    (bs : Bytes)
    → (length (bytes_to_hex bs) ≡ 2 * length bs)
      × (all_xdigits (bytes_to_hex bs) ≡ true)
      × Only in_field (bytes_to_hex bs)
unfolding bytes_to_hex all_xdigits
bytes_to_hex-digits [] = (refl, refl, tt)
bytes_to_hex-digits (b ∷ bs) =
    let (len, digits, fits) = bytes_to_hex-digits bs in
    let high = hex_digit_lem (b / 16 % 16) (omega arith) in
    let low = hex_digit_lem (b % 16) (omega arith) in
    (omega (arith, len), rw (high.0, low.0) digits, (high.1, (low.1, fits)))

pub is_valid_hex64-bytes_to_hex :
    (bs : Bytes) → length bs ≡ 32 → is_valid_hex64 (bytes_to_hex bs) ≡ true
unfolding is_valid_hex64
is_valid_hex64-bytes_to_hex bs h =
    let (len, digits, fits) = bytes_to_hex-digits bs in
    let e : length (bytes_to_hex bs) ≡ 64 = omega (arith, len, h) in rw (e, digits) refl

-- A command without line ends is quoted without line ends, in at most twice its length.
quoted_byte_lem :
    (i c : ℕ)
    → not_newline c ≡ true
    → (length (quoted_byte i c) ≤ 2) × Only not_newline (quoted_byte i c)
quoted_byte_lem i c h =
    if_both P (c == b'"') _ (c ∷ [])
      (if_both P (ltb i 2044) (b'"' ∷ b'"' ∷ []) [] (omega arith, (refl, (refl, tt)))
        (omega arith, tt))
      (omega arith, (h, tt))
  where
    P : Bytes → Type 0
    P q = (length q ≤ 2) × Only not_newline q

quote_from_lem :
    (i : ℕ) (cmd : Bytes)
    → Only not_newline cmd
    → (length (quote_from i cmd) ≤ 2 * length cmd) × Only not_newline (quote_from i cmd)
unfolding quote_from
quote_from_lem i [] h = (omega arith, tt)
quote_from_lem i (c ∷ cs) h =
    let piece = quoted_byte i c in
    let (len, clean) = quote_from_lem (i + length piece) cs h.1 in
    let (two, kept) = quoted_byte_lem i c h.0 in
    if_both P (ltb i 2045) (piece ++ quote_from (i + length piece) cs) []
      (
        omega (arith, len, two, length-append piece (quote_from (i + length piece) cs)),
        All-append (λ c. not_newline c ≡ true) piece (quote_from (i + length piece) cs) kept clean,
      )
      (omega arith, tt)
  where
    P : Bytes → Type 0
    P q = (length q ≤ 2 * length (c ∷ cs)) × Only not_newline q

pub csv_quote_lem :
    (cmd : Bytes)
    → Only not_newline cmd
    → (length (csv_quote cmd) ≤ 2 * length cmd + 2) × Only not_newline (csv_quote cmd)
unfolding csv_quote
csv_quote_lem cmd h =
    let (len, clean) = quote_from_lem 1 cmd h in
    (
      omega (arith, len, length-append (quote_from 1 cmd) (b'"' ∷ [])),
      (
        refl,
        All-append (λ c. not_newline c ≡ true) (quote_from 1 cmd) (b'"' ∷ []) clean (refl, tt),
      ),
    )
