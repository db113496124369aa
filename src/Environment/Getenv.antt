-- ===== src/Environment/Getenv.antt =====
-- src/helper.c: `my_getenv`, `expand_arg`, `expand_args`. `os_getenv` is the C library's `getenv`.
-- Allocation failures are not modelled here.
use las_shell.Prelude.{
  ℕ, suc, ◌+◌, Bytes, codes, peek, length, drop, Bool, true, not, ◌&&◌, ◌||◌, Option, none, some,
  List, [], ◌∷◌, ◌++◌, map, ◌==◌, if◌then◌else◌, ◌≡◌, refl, arith, All, Only, ap, ◌∙◌, sym,
  Bool-cases, inl, inr,
}
use las_shell.Prelude.Int.{is_zero}
use las_shell.CString.Libc.{str_eq, str_eq_iff}
use las_shell.CString.Compare.{my_strncmp, my_strlen, my_strlen-length}
use las_shell.InputParser.{is_name_byte}

-- The test on one entry of the array.
unfoldable pub is_entry_of : Bytes → ℕ → Bytes → Bool
unfolding my_strncmp
is_entry_of name name_len entry =
    is_zero (my_strncmp entry name name_len) && peek (drop name_len entry) == b'='

scan_env : Bytes → ℕ → List Bytes → Option Bytes
scan_env name name_len [] = none
scan_env name name_len (entry ∷ rest) =
    if is_entry_of name name_len entry
    then some (drop (name_len + 1) entry)
    else scan_env name name_len rest

-- A missing name or array is `none`.
unfoldable pub my_getenv : Option Bytes → Option (List Bytes) → Option Bytes
unfolding scan_env my_strlen
my_getenv (some name) (some env) = scan_env name (my_strlen name) env
my_getenv _ _ = none

-- `my_getenv(name, env)`, and `getenv(name)` where that gives NULL.
abbrev pub or_else : Option Bytes → Option Bytes → Option Bytes
or_else none other = other
or_else (some v) other = some v

abbrev pub or_empty : Option Bytes → Bytes
or_empty none = []
or_empty (some v) = v

abbrev home_or : Option Bytes → Bytes → Bytes
home_or none arg = arg
home_or (some home) arg = home ++ drop 1 arg

unfoldable pub all_name : Bytes → Bool
unfolding is_name_byte
all_name [] = true
all_name (c ∷ cs) = is_name_byte c && all_name cs

module _ (env : List Bytes) (os_getenv : Bytes → Option Bytes) where
  unfoldable pub lookup_var : Bytes → Option Bytes
  unfolding my_getenv
  lookup_var name = or_else (my_getenv (some name) (some env)) (os_getenv name)

  unfoldable pub expand_arg : Bytes → Bytes
  unfolding lookup_var all_name
  expand_arg [] = []
  expand_arg (c ∷ cs) =
      if c == b'~' && (peek cs == b'/' || peek cs == 0)
      then home_or (lookup_var (codes "HOME")) (c ∷ cs)
      else if c == b'$' && not (peek cs == 0) && not (peek cs == b'?') && all_name cs
      then or_empty (lookup_var cs)
      else c ∷ cs

  unfoldable pub expand_args : List Bytes → List Bytes
  unfolding expand_arg
  expand_args args = map expand_arg args

-- The variables as the array holds them, `name=value`.
abbrev pub entry_text : Bytes × Bytes → Bytes
entry_text (name, value) = name ++ (b'=' ∷ value)

unfoldable pub lookup_pair : Bytes → List (Bytes × Bytes) → Option Bytes
lookup_pair name [] = none
lookup_pair name ((n, v) ∷ rest) = if str_eq n name then some v else lookup_pair name rest

abbrev pub is_not_equals : ℕ → Bool
is_not_equals c = not (c == b'=')

is_entry_of_lem :
    (n name value : Bytes)
    → Only is_not_equals n
    → Only is_not_equals name
    → is_entry_of name (length name) (entry_text (n, value)) ≡ str_eq n name
unfolding is_entry_of str_eq
is_entry_of_lem [] [] value h k = refl
is_entry_of_lem [] (c ∷ cs) value h k = ground (arith, k.0)
is_entry_of_lem (x ∷ xs) [] value h k = ground (arith, h.0)
is_entry_of_lem (x ∷ xs) (c ∷ cs) value h k = ground (arith, is_entry_of_lem xs cs value h.1 k.1)

drop_entry : (n value : Bytes) → drop (length n + 1) (entry_text (n, value)) ≡ value
drop_entry [] value = refl
drop_entry (x ∷ xs) value =
    ap (λ k. drop k (x ∷ (xs ++ (b'=' ∷ value)))) (suc_plus (length xs)) ∙ drop_entry xs value
  where
    suc_plus : (k : ℕ) → suc k + 1 ≡ suc (k + 1)
    suc_plus k = omega arith

scan_env_lem :
    (name : Bytes) (pairs : List (Bytes × Bytes))
    → Only is_not_equals name
    → All (λ p. Only is_not_equals p.0) pairs
    → scan_env name (length name) (map entry_text pairs) ≡ lookup_pair name pairs
unfolding scan_env lookup_pair
scan_env_lem name [] h k = refl
scan_env_lem name ((n, v) ∷ rest) h k =
    rw (is_entry_of_lem n name v k.0 h) (elim (Bool-cases (str_eq n name)) [
      | inl same ↦ rw same (
          ap (λ m. some (drop (length m + 1) (entry_text (n, v))))
            (sym ((str_eq_iff n name).0 same))
          ∙ ap (λ w. some w) (drop_entry n v))
      | inr other ↦ rw other (scan_env_lem name rest h k.1)
    ])

-- `lookup_pair` is the reference: the value of the first pair of that name.
-- For an environment array of entries `name=value` whose names hold no `=`, and a name without
-- `=`, `my_getenv` gives the value of the first entry with that name, and NULL when there is none.
pub my_getenv-lookup_pair :
    (name : Bytes) (pairs : List (Bytes × Bytes))
    → Only is_not_equals name
    → All (λ p. Only is_not_equals p.0) pairs
    → my_getenv (some name) (some (map entry_text pairs)) ≡ lookup_pair name pairs
unfolding my_getenv
my_getenv-lookup_pair name pairs h k =
    ap (λ n. scan_env name n (map entry_text pairs)) (my_strlen-length name)
    ∙ scan_env_lem name pairs h k
