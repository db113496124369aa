-- ===== src/Registry/Field.antt =====
-- `extract_str`: a string field is read back as it was written.
use las_shell.Prelude.{
  ℕ, zero, suc, ◌-◌, ◌≡◌, refl, ap, ◌∙◌, Bytes, take, Bool, true, false, not, ◌||◌, some, [], ◌∷◌,
  ◌++◌, ◌==◌, if◌then◌else◌, arith, Only, drop-append, Bool-cases, inl, inr,
}
use las_shell.Registry.Json.{
  starts_with, strstr, quoted_key, skip_separators, copy_string, value_at, extract_str,
}

-- The text of a JSON string: a backslash in front of each quote and each backslash.
unfoldable pub json_escape : Bytes → Bytes
json_escape [] = []
json_escape (c ∷ cs) =
    let rest = json_escape cs in if c == b'"' || c == b'\\' then b'\\' ∷ c ∷ rest else c ∷ rest

abbrev pub is_separator : ℕ → Bool
is_separator c = c == b' ' || c == b'\t' || c == b'\n' || c == b':'

copy_plain :
    (n : ℕ) (c : ℕ) (s : Bytes)
    → (c == b'"' || c == b'\\') ≡ false
    → copy_string (suc n) (c ∷ s) ≡ c ∷ copy_string n s
unfolding copy_string
copy_plain zero c [] h = ground arith
copy_plain (suc n) c [] h = ground arith
copy_plain n c (d ∷ s) h = ground arith

copy_string-escape :
    (n : ℕ) (v rest : Bytes) → copy_string n (json_escape v ++ (b'"' ∷ rest)) ≡ take n v
unfolding copy_string json_escape
copy_string-escape zero v rest = refl
copy_string-escape (suc n) [] [] = refl
copy_string-escape (suc n) [] (d ∷ rest) = refl
copy_string-escape (suc n) (c ∷ cs) rest = elim (Bool-cases (c == b'"' || c == b'\\')) [
  | inl special ↦ rw special (ap (◌∷◌ c) (copy_string-escape n cs rest))
  | inr plain ↦ rw plain (copy_plain n c _ plain ∙ ap (◌∷◌ c) (copy_string-escape n cs rest))
]

skip_separators-append :
    (seps : Bytes) (c : ℕ) (s : Bytes)
    → Only is_separator seps
    → is_separator c ≡ false
    → skip_separators (seps ++ (c ∷ s)) ≡ c ∷ s
unfolding skip_separators
skip_separators-append [] c s h k = rw k
skip_separators-append (d ∷ seps) c s h k = rw h.0 (skip_separators-append seps c s h.1 k)

starts_with-append : (a b : Bytes) → starts_with a (a ++ b) ≡ true
unfolding starts_with
starts_with-append [] b = refl
starts_with-append (c ∷ a) b = ground (arith, starts_with-append a b)

strstr-key :
    (pre key rest : Bytes)
    → Only (λ c. not (c == b'"')) pre
    → strstr (pre ++ (quoted_key key ++ rest)) (quoted_key key) ≡ some (quoted_key key ++ rest)
unfolding strstr
strstr-key [] key rest h = rw (starts_with-append (quoted_key key) rest)
strstr-key (c ∷ pre) key rest h =
    let miss : starts_with (quoted_key key) (c ∷ (pre ++ (quoted_key key ++ rest))) ≡ false =
      unfold starts_with in ground (arith, h.0) in
    rw miss (strstr-key pre key rest h.1)

-- The first field of an object, if it is a string, is read back as it was before it was escaped, cut
-- to the `outlen - 1` bytes that fit the buffer: whatever blanks and colons stand behind the key, and
-- whatever follows the value.
pub extract_str-field :
    (pre key seps v rest : Bytes) (outlen : ℕ)
    → Only (λ c. not (c == b'"')) pre
    → Only is_separator seps
    → extract_str
        (pre ++ (quoted_key key ++ (seps ++ (b'"' ∷ (json_escape v ++ (b'"' ∷ rest))))))
        key
        outlen
      ≡ some (take (outlen - 1) v)
unfolding extract_str value_at
extract_str-field pre key seps v rest outlen h k =
    let text = b'"' ∷ (json_escape v ++ (b'"' ∷ rest)) in
    rw
      (
        strstr-key pre key (seps ++ text) h,
        drop-append (quoted_key key) (seps ++ text),
        skip_separators-append seps b'"' (json_escape v ++ (b'"' ∷ rest)) k refl,
        copy_string-escape (outlen - 1) v rest,
      )
      refl
