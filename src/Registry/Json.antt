-- ===== src/Registry/Json.antt =====
-- src/calendar.c and src/currency.c: `extract_str`, `next_array_object`, `extract_block` and
-- `truncate_before_countries`. A position in the JSON text is the text from there on. Allocation
-- failures are not modelled.
use mathlib.Core.Option
use las_shell.Prelude.{
  ℕ, zero, suc, ◌+◌, ◌-◌, Bytes, length, take, drop, codes, Bool, true, false, ◌&&◌, ◌||◌, not,
  Option, none, some, [], ◌∷◌, ◌++◌, leb, ◌==◌, if◌then◌else◌,
}

unfoldable pub starts_with : Bytes → Bytes → Bool
starts_with [] s = true
starts_with (n ∷ ns) [] = false
starts_with (n ∷ ns) (c ∷ cs) = n == c && starts_with ns cs

-- The C library's `strstr`.
unfoldable pub strstr : Bytes → Bytes → Option Bytes
unfolding starts_with
strstr [] needle = if starts_with needle [] then some [] else none
strstr (c ∷ cs) needle = if starts_with needle (c ∷ cs) then some (c ∷ cs) else strstr cs needle

-- `"key"`, as `snprintf` puts it into `search`; the keys of the callers are short literals.
abbrev pub quoted_key : Bytes → Bytes
quoted_key key = b'"' ∷ (key ++ (b'"' ∷ []))

unfoldable pub skip_separators : Bytes → Bytes
skip_separators [] = []
skip_separators (c ∷ cs) =
    if c == b' ' || c == b'\t' || c == b'\n' || c == b':' then skip_separators cs else c ∷ cs

-- The copying loop, with room for `n` bytes: a backslash that is not the last byte is dropped and
-- the byte behind it kept.
unfoldable pub copy_string : ℕ → Bytes → Bytes
copy_string zero s = []
copy_string (suc n) [] = []
copy_string (suc n) (c ∷ []) = if c == b'"' then [] else c ∷ []
copy_string (suc n) (c ∷ d ∷ cs) =
    let literal = c ∷ copy_string n (d ∷ cs) in
    let escaped = d ∷ copy_string n cs in
    if c == b'"' then [] else if c == b'\\' then escaped else literal

-- The value's position behind the key, the colon and the blanks.
unfoldable pub value_at : Bytes → Bytes → Option Bytes
unfolding strstr skip_separators
value_at json key =
    Option.map (λ p. skip_separators (drop (length (quoted_key key)) p))
      (strstr json (quoted_key key))

abbrev string_at : ℕ → Option Bytes → Option Bytes
string_at outlen none = none
string_at outlen (some []) = none
string_at outlen (some (c ∷ cs)) = if c == b'"' then some (copy_string (outlen - 1) cs) else none

-- `some` is the text in `out` behind a result of 1, `none` the result 0 that leaves `out` alone.
unfoldable pub extract_str : Bytes → Bytes → ℕ → Option Bytes
unfolding value_at copy_string
extract_str json key outlen = string_at outlen (value_at json key)

-- Where the walk through an object stands: between the strings, in one, or behind a backslash in one.
pub data Place : Type 0 where
  outside inside escaped : Place

abbrev pub push : ℕ → Option (Bytes × Bytes) → Option (Bytes × Bytes)
push c none = none
push c (some (obj, rest)) = some (c ∷ obj, rest)

abbrev pub after : Place → ℕ → Place
after outside c = if c == b'"' then inside else outside
after inside c = if c == b'"' then outside else if c == b'\\' then escaped else inside
after escaped c = inside

-- Walks from an opening bracket to the closing one at depth 0: the text passed, and the rest.
-- `none` is a read behind the terminating NUL, which a string without an end leads to.
module _ (opens closes : ℕ → Bool) where
  abbrev pub depth_after : ℕ → Place → ℕ → ℕ
  depth_after depth outside c = if opens c then depth + 1 else if closes c then depth - 1 else depth
  depth_after depth inside c = depth
  depth_after depth escaped c = depth

  abbrev pub ends : ℕ → Place → ℕ → Bool
  ends depth outside c = not (opens c) && closes c && leb depth 1
  ends depth inside c = false
  ends depth escaped c = false

  unfoldable pub walk : Place → ℕ → Bytes → Option (Bytes × Bytes)
  walk outside depth [] = some ([], [])
  walk inside depth [] = none
  walk escaped depth [] = none
  walk place depth (c ∷ cs) =
      let later = walk (after place c) (depth_after depth place c) cs in
      if ends depth place c then some (c ∷ [], cs) else push c later

abbrev pub is_open : ℕ → Bool
is_open c = c == b'{' || c == b'['

abbrev pub is_close : ℕ → Bool
is_close c = c == b'}' || c == b']'

-- `while (*p && *p != '{' && *p != ']') p++;`
unfoldable pub skip_to_object : Bytes → Bytes
skip_to_object [] = []
skip_to_object (c ∷ cs) = if c == b'{' || c == b']' then c ∷ cs else skip_to_object cs

-- The object found, if there is one, and the new cursor; a fault of the walk is `none`.
abbrev pub object_at : Bytes → Option (Option Bytes × Bytes)
object_at [] = some (none, [])
object_at (c ∷ cs) =
    if c == b'{'
    then Option.map (λ p. (some p.0, p.1)) (walk is_open is_close outside 0 (c ∷ cs))
    else some (none, c ∷ cs)

unfoldable pub next_array_object : Bytes → Option (Option Bytes × Bytes)
unfolding skip_to_object walk
next_array_object cursor = object_at (skip_to_object cursor)

abbrev block_at : Option Bytes → Option (Option Bytes)
block_at none = some none
block_at (some []) = some none
block_at (some (c ∷ cs)) =
    if c == b'{'
    then Option.map (λ p. some p.0) (walk (λ x. x == b'{') (λ x. x == b'}') outside 0 (c ∷ cs))
    else if c == b'['
    then Option.map (λ p. some p.0) (walk (λ x. x == b'[') (λ x. x == b']') outside 0 (c ∷ cs))
    else some none

-- The object or array behind a key: `some none` where the key is absent or has another value.
unfoldable pub extract_block : Bytes → Bytes → Option (Option Bytes)
unfolding value_at walk
extract_block json key = block_at (value_at json key)

-- The text before the first `"countries"`.
unfoldable pub truncate_before_countries : Bytes → Bytes
unfolding strstr
truncate_before_countries obj = elim (strstr obj (quoted_key (codes "countries"))) [
  | none ↦ obj
  | some p ↦ take (length obj - length p) obj
]
