-- ===== src/Environment/Line.antt =====
-- src/helper.c: `ensure_cap` and `expand_vars_in_line`. The buffer is its capacity and the bytes
-- written so far; a write outside of it is `fault`, and a failed `realloc` is `gave_up`, where the
-- function returns a copy of its input: `my_strdup` gives one, although it could be refused as well and
-- the result be NULL. The first `malloc` succeeds.
use las_shell.Prelude.{
  ℕ, zero, suc, ◌+◌, ◌-◌, ◌*◌, Bytes, codes, peek, length, take, drop, Bool, not, ◌&&◌, ◌||◌,
  Option, none, some, [], ◌∷◌, ◌++◌, List, ltb, ◌==◌, if◌then◌else◌,
}
use las_shell.InputParser.{is_name_byte, span_limit, skip_byte, last_byte}
use las_shell.Environment.Getenv.{lookup_var}

pub data Res {ℓ} (A : Type ℓ) : Type ℓ where
  ok : A → Res A
  gave_up : Res A
  fault : Res A

abbrev pub and_then {ℓ κ} : {A : Type ℓ} {B : Type κ} → Res A → (A → Res B) → Res B
and_then (ok a) f = f a
and_then gave_up f = gave_up
and_then fault f = fault

pub record Buffer : Type 0 where
  pub cap : ℕ
  pub out : Bytes

pub data Mode : Type 0 where
  outer single double : Mode

abbrev pub Round : Type 0
Round = Mode × Buffer × Bytes

-- `out[len++] = c`
unfoldable pub put : ℕ → Buffer → Res Buffer
put c b = if ltb (length b.out) b.cap then ok (record b { out = b.out ++ (c ∷ []) }) else fault

-- `my_strcpy(out + len, value); len += my_strlen(value)`, with the NUL that is written too.
unfoldable pub put_text : Bytes → Buffer → Res Buffer
put_text value b =
    if ltb (length b.out + length value) b.cap
    then ok (record b { out = b.out ++ value })
    else fault

-- What follows a `$`: a name of up to `limit` bytes, the default of `${NAME:-default}`, and the rest.
unfoldable pub variable_within : ℕ → Bytes → Bytes × (Option Bytes × Bytes)
unfolding span_limit
variable_within limit s =
    let braced = peek s == b'{' in
    let (name, s2) = span_limit is_name_byte limit (skip_byte b'{' s) in
    let (text, s3) = span_limit (λ c. not (c == b'}')) limit (drop 2 s2) in
    if braced && peek s2 == b':' && peek (drop 1 s2) == b'-'
    then (name, (some text, skip_byte b'}' s3))
    else if braced
    then (name, (none, skip_byte b'}' s2))
    else (name, (none, s2))

-- The arrays for the name and the default have 256 cells.
unfoldable pub variable : Bytes → Bytes × (Option Bytes × Bytes)
unfolding variable_within
variable s = variable_within 255 s

-- An unset or an empty variable has its default's value.
abbrev pub value_or : Option Bytes → Option Bytes → Option Bytes
value_or none default = default
value_or (some []) default = default
value_or (some (c ∷ cs)) default = some (c ∷ cs)

abbrev pub is_space : ℕ → Bool
is_space c = c == b' '

-- `*p == '$' && *(p+1) && *(p+1) != ' '`
abbrev pub starts_variable : ℕ → Bytes → Bool
starts_variable c cs = c == b'$' && not (peek cs == 0) && not (is_space (peek cs))

-- A tilde at the start or behind a space, and in front of `/`, a space or the end.
abbrev pub is_tilde : ℕ → ℕ → Bytes → Bool
is_tilde prev c cs =
    c == b'~' && is_space prev && (peek cs == b'/' || is_space (peek cs) || peek cs == 0)

module _ (realloc : ℕ → Bool) where
  -- The loop, on fuel; `realloc` says whether a block of the size is given.
  unfoldable pub grow : ℕ → ℕ → ℕ → Res ℕ
  grow zero cap need = fault
  grow (suc fuel) cap need =
      let more = grow fuel (cap * 2) need in
      if ltb need cap then ok cap else if realloc (cap * 2) then more else gave_up

  -- The tests `len + 2 >= cap` in front of some of the calls are the loop's own condition.
  unfoldable pub ensure_cap : ℕ → Buffer → Res Buffer
  unfolding grow
  ensure_cap need b = and_then (grow (suc need) b.cap need) (λ cap. ok (record b { cap = cap }))

  unfoldable pub put_byte : ℕ → Buffer → Res Buffer
  unfolding ensure_cap put
  put_byte c b = and_then (ensure_cap (length b.out + 2) b) (put c)

  unfoldable pub put_value : Bytes → Buffer → Res Buffer
  unfolding ensure_cap put_text
  put_value value b = and_then (ensure_cap (length b.out + length value + 2) b) (put_text value)

  abbrev pub put_option : Option Bytes → Buffer → Res Buffer
  put_option none b = ok b
  put_option (some value) b = put_value value b

  abbrev pub then_at : Mode → Bytes → Res Buffer → Res Round
  then_at m rest r = and_then r (λ b. ok (m, b, rest))

  module _ (env : List Bytes) (os_getenv : Bytes → Option Bytes) where
    abbrev pub put_variable : Bytes → Option Bytes → Buffer → Res Buffer
    put_variable [] default b = put_byte b'$' b
    put_variable (c ∷ cs) default b =
        put_option (value_or (lookup_var env os_getenv (c ∷ cs)) default) b

    unfoldable pub expand_variable : Mode → Buffer → Bytes → Res Round
    unfolding lookup_var variable put_byte put_value
    expand_variable m b s =
        let (name, (default, rest)) = variable s in then_at m rest (put_variable name default b)

    -- Behind a backslash in a double-quoted text.
    abbrev pub put_escaped : Bytes → Buffer → Res Round
    put_escaped [] b = then_at double [] (put b'\\' b)
    put_escaped (d ∷ ds) b = then_at double ds (and_then (put b'\\' b) (put d))

    unfoldable pub step_double : Buffer → ℕ → Bytes → Res Round
    unfolding expand_variable
    step_double b c cs =
        if c == b'"'
        then then_at outer cs (put_byte c b)
        else if c == b'\\'
        then and_then (ensure_cap (length b.out + 4) b) (put_escaped cs)
        else if starts_variable c cs
        then expand_variable double b cs
        else then_at double cs (put_byte c b)

    unfoldable pub step_single : Buffer → ℕ → Bytes → Res Round
    unfolding put_byte
    step_single b c cs = then_at (if c == b'\'' then outer else single) cs (put_byte c b)

    abbrev pub home_or_byte : Option Bytes → Buffer → ℕ → Res Buffer
    home_or_byte none b c = put_byte c b
    home_or_byte (some home) b c = put_value home b

    -- The opening single quote is written without a call of `ensure_cap`.
    unfoldable pub step_outer : ℕ → Buffer → ℕ → Bytes → Res Round
    unfolding expand_variable
    step_outer prev b c cs =
        if c == b'\''
        then then_at single cs (put c b)
        else if c == b'"'
        then then_at double cs (put_byte c b)
        else if is_tilde prev c cs
        then then_at outer cs (home_or_byte (lookup_var env os_getenv (codes "HOME")) b c)
        else if starts_variable c cs
        then expand_variable outer b cs
        else then_at outer cs (put_byte c b)

    unfoldable pub step : Mode → ℕ → Buffer → ℕ → Bytes → Res Round
    unfolding step_outer step_single step_double
    step outer prev b c cs = step_outer prev b c cs
    step single prev b c cs = step_single b c cs
    step double prev b c cs = step_double b c cs

    -- The loops, on fuel, and the NUL at the end; `prev` is the byte in front of the text.
    unfoldable pub run : ℕ → Mode → ℕ → Buffer → Bytes → Res Buffer
    unfolding step
    run zero m prev b s = fault
    run (suc fuel) m prev b [] = if ltb (length b.out) b.cap then ok b else fault
    run (suc fuel) m prev b (c ∷ cs) = and_then (step m prev b c cs) (λ (m', b', rest).
        run fuel m' (last_byte (take (suc (length cs) - length rest) (c ∷ cs))) b' rest)

    -- `none` is a write outside the buffer.
    abbrev pub or_input : Bytes → Res Buffer → Option Bytes
    or_input input (ok b) = some b.out
    or_input input gave_up = some input
    or_input input fault = none

    unfoldable pub expand_vars_in_line : Bytes → Option Bytes
    unfolding run
    expand_vars_in_line input =
        or_input input (run (suc (length input)) outer b' ' (record { cap = 1024; out = [] }) input)
