-- ===== src/Environment/Expansion.antt =====
-- `expand_vars_in_line` writes the expansion that Environment/Pieces gives.
use las_shell.Prelude.{
  ℕ, zero, suc, ◌+◌, ◌-◌, ◌≡◌, refl, ap, sym, subst, ◌∙◌, Bytes, codes, length, take, Bool, true,
  false, Option, none, some, [], ◌∷◌, ◌++◌, List, ◌==◌, if◌then◌else◌, append_assoc, append-nil,
  inl, inr, ◌⊎◌, ltb,
}
use las_shell.InputParser.{last_byte}
use las_shell.Environment.Getenv.{or_empty, lookup_var}
use las_shell.Environment.Room.{Safe, Refused}
use las_shell.Environment.Safety.{start-Safe}
use las_shell.Environment.Line.{
  Res, ok, gave_up, fault, and_then, Buffer, Mode, outer, single, double, Round, put, put_text,
  variable, value_or, starts_variable, is_tilde, grow, ensure_cap, put_byte, put_value, put_option,
  then_at, put_variable, expand_variable, put_escaped, step_double, step_single, home_or_byte,
  step_outer, step, run, or_input, expand_vars_in_line,
}
use las_shell.Environment.Pieces.{
  Piece, escaped_piece, value_text, variable_piece, home_text, piece, expand_from, expanded,
}

-- What holds of a result, if there is one.
abbrev pub Sound {ℓ} : {A : Type ℓ} → (A → Type 0) → Res A → Type 0
Sound P (ok a) = P a
Sound P gave_up = Unit
Sound P fault = Unit

Sound-and_then {ℓ κ} :
    {A : Type ℓ} {B : Type κ} (P : A → Type 0) (Q : B → Type 0) (r : Res A) (f : A → Res B)
    → Sound P r
    → ((a : A) → P a → Sound Q (f a))
    → Sound Q (and_then r f)
Sound-and_then P Q (ok a) f h k = k a h
Sound-and_then P Q gave_up f h k = tt
Sound-and_then P Q fault f h k = tt

abbrev Wrote : Bytes → Buffer → Type 0
Wrote s b = b.out ≡ s

abbrev Writes : Buffer → Piece → Res Round → Type 0
Writes b p r = Sound (λ q. (q.0 ≡ p.0) × (q.1.out ≡ b.out ++ p.1) × (q.2 ≡ p.2)) r

Writes-if :
    (b : Buffer) (c : Bool) (p p' : Piece) (r r' : Res Round)
    → Writes b p r
    → Writes b p' r'
    → Writes b (if c then p else p') (if c then r else r')
Writes-if b true p p' r r' h k = h
Writes-if b false p p' r r' h k = k

put-Wrote : (c : ℕ) (b : Buffer) → Sound (Wrote (b.out ++ (c ∷ []))) (put c b)
unfolding put
put-Wrote c b = if_ok (ltb (length b.out) b.cap)
  where
    if_ok :
        (t : Bool)
        → Sound
            (Wrote (b.out ++ (c ∷ [])))
            (if t then ok (record b { out = b.out ++ (c ∷ []) }) else fault)
    if_ok true = refl
    if_ok false = tt

put_text-Wrote : (s : Bytes) (b : Buffer) → Sound (Wrote (b.out ++ s)) (put_text s b)
unfolding put_text
put_text-Wrote s b = if_ok (ltb (length b.out + length s) b.cap)
  where
    if_ok :
        (t : Bool)
        → Sound (Wrote (b.out ++ s)) (if t then ok (record b { out = b.out ++ s }) else fault)
    if_ok true = refl
    if_ok false = tt

joined :
    (later : Mode → Bytes → Bytes) (b : Buffer) (q : Round) (p : Piece)
    → (q.0 ≡ p.0) × (q.1.out ≡ b.out ++ p.1) × (q.2 ≡ p.2)
    → q.1.out ++ later q.0 q.2 ≡ b.out ++ (p.1 ++ later p.0 p.2)
joined later b q p (em, eb, er) = cc (append_assoc b.out p.1 (later p.0 p.2))

-- A round and what follows it.
round-Wrote :
    (later : Mode → Bytes → Bytes) (b : Buffer) (p : Piece) (next : Round → Res Buffer)
    (r : Res Round)
    → Writes b p r
    → ((q : Round) → Sound (Wrote (q.1.out ++ later q.0 q.2)) (next q))
    → Sound (Wrote (b.out ++ (p.1 ++ later p.0 p.2))) (and_then r next)
round-Wrote later b p next (ok q) h k =
    subst (λ s. Sound (Wrote s) (next q)) (joined later b q p h) (k q)
round-Wrote later b p next gave_up h k = tt
round-Wrote later b p next fault h k = tt

module _ (realloc : ℕ → Bool) where
  ensure_cap-Wrote : (need : ℕ) (b : Buffer) → Sound (Wrote b.out) (ensure_cap realloc need b)
  unfolding ensure_cap
  ensure_cap-Wrote need b = any (grow realloc (suc need) b.cap need)
    where
      any : (r : Res ℕ) → Sound (Wrote b.out) (and_then r (λ cap. ok (record b { cap = cap })))
      any (ok cap) = refl
      any gave_up = tt
      any fault = tt

  put_byte-Wrote : (c : ℕ) (b : Buffer) → Sound (Wrote (b.out ++ (c ∷ []))) (put_byte realloc c b)
  unfolding put_byte
  put_byte-Wrote c b =
      Sound-and_then (Wrote b.out) _ _ _ (ensure_cap-Wrote _ b)
        (λ a e. subst (λ s. Sound (Wrote (s ++ (c ∷ []))) (put c a)) e (put-Wrote c a))

  put_value-Wrote : (s : Bytes) (b : Buffer) → Sound (Wrote (b.out ++ s)) (put_value realloc s b)
  unfolding put_value
  put_value-Wrote s b =
      Sound-and_then (Wrote b.out) _ _ _ (ensure_cap-Wrote _ b)
        (λ a e. subst (λ t. Sound (Wrote (t ++ s)) (put_text s a)) e (put_text-Wrote s a))

  then_at-Writes :
      (b : Buffer) (m : Mode) (s rest : Bytes) (r : Res Buffer)
      → Sound (Wrote (b.out ++ s)) r
      → Writes b (m, s, rest) (then_at realloc m rest r)
  then_at-Writes b m s rest (ok a) h = (refl, h, refl)
  then_at-Writes b m s rest gave_up h = tt
  then_at-Writes b m s rest fault h = tt

  module _ (env : List Bytes) (os_getenv : Bytes → Option Bytes) where
    put_variable-Wrote :
        (name : Bytes) (default : Option Bytes) (b : Buffer)
        → Sound
            (Wrote (b.out ++ value_text env os_getenv name default))
            (put_variable realloc env os_getenv name default b)
    put_variable-Wrote [] default b = put_byte-Wrote b'$' b
    put_variable-Wrote (c ∷ cs) default b =
        put_option-Wrote (value_or (lookup_var env os_getenv (c ∷ cs)) default)
      where
        put_option-Wrote :
            (v : Option Bytes) → Sound (Wrote (b.out ++ or_empty v)) (put_option realloc v b)
        put_option-Wrote none = sym (append-nil b.out)
        put_option-Wrote (some v) = put_value-Wrote v b

    expand_variable-Writes :
        (m : Mode) (b : Buffer) (s : Bytes)
        → Writes b (variable_piece env os_getenv m s) (expand_variable realloc env os_getenv m b s)
    unfolding expand_variable variable_piece
    expand_variable-Writes m b s =
        then_at-Writes b m _ (variable s).1.1 _
          (put_variable-Wrote (variable s).0 (variable s).1.0 b)

    escaped-Writes :
        (b a : Buffer) (s : Bytes)
        → a.out ≡ b.out
        → Writes b (escaped_piece s) (put_escaped realloc env os_getenv s a)
    escaped-Writes b a [] e =
        then_at-Writes b double _ [] _
          (subst (λ t. Sound (Wrote (t ++ (b'\\' ∷ []))) (put b'\\' a)) e (put-Wrote b'\\' a))
    escaped-Writes b a (d ∷ ds) e = then_at-Writes b double _ ds _ (
        Sound-and_then (Wrote (a.out ++ (b'\\' ∷ []))) _ _ _ (put-Wrote b'\\' a) (λ a' e'.
          subst (λ t. Sound (Wrote t) (put d a'))
            (ap (λ t. t ++ (d ∷ [])) e'
              ∙ append_assoc a.out (b'\\' ∷ []) (d ∷ [])
              ∙ ap (λ t. t ++ (b'\\' ∷ d ∷ [])) e)
            (put-Wrote d a')))

    step_double-Writes :
        (prev : ℕ) (b : Buffer) (c : ℕ) (cs : Bytes)
        → Writes b (piece env os_getenv double prev c cs) (step_double realloc env os_getenv b c cs)
    unfolding step_double piece
    step_double-Writes prev b c cs =
        let byte = put_byte-Wrote c b in
        Writes-if b (c == b'"') _ _ _ _ (then_at-Writes b outer _ cs _ byte) (
          Writes-if b (c == b'\\') _ _ _ _
            (Sound-and_then (Wrote b.out) _ _ _ (ensure_cap-Wrote _ b)
              (λ a e. escaped-Writes b a cs e))
            (Writes-if b (starts_variable c cs) _ _ _ _ (expand_variable-Writes double b cs)
              (then_at-Writes b double _ cs _ byte)))

    step_outer-Writes :
        (prev : ℕ) (b : Buffer) (c : ℕ) (cs : Bytes)
        → Writes b
            (piece env os_getenv outer prev c cs)
            (step_outer realloc env os_getenv prev b c cs)
    unfolding step_outer piece
    step_outer-Writes prev b c cs =
        let byte = put_byte-Wrote c b in
        Writes-if b (c == b'\'') _ _ _ _ (then_at-Writes b single _ cs _ (put-Wrote c b)) (
          Writes-if b (c == b'"') _ _ _ _ (then_at-Writes b double _ cs _ byte) (
            Writes-if b (is_tilde prev c cs) _ _ _ _
              (then_at-Writes b outer _ cs _ (home (lookup_var env os_getenv (codes "HOME"))))
              (Writes-if b (starts_variable c cs) _ _ _ _ (expand_variable-Writes outer b cs)
                (then_at-Writes b outer _ cs _ byte))))
      where
        home :
            (v : Option Bytes)
            → Sound
                (Wrote (b.out ++ home_text env os_getenv v c))
                (home_or_byte realloc env os_getenv v b c)
        home none = put_byte-Wrote c b
        home (some v) = put_value-Wrote v b

    step-Writes :
        (m : Mode) (prev : ℕ) (b : Buffer) (c : ℕ) (cs : Bytes)
        → Writes b (piece env os_getenv m prev c cs) (step realloc env os_getenv m prev b c cs)
    unfolding step piece step_single
    step-Writes outer prev b c cs = step_outer-Writes prev b c cs
    step-Writes single prev b c cs = then_at-Writes b _ _ cs _ (put_byte-Wrote c b)
    step-Writes double prev b c cs = step_double-Writes prev b c cs

    run-Wrote :
        (fuel : ℕ) (m : Mode) (prev : ℕ) (b : Buffer) (s : Bytes)
        → Sound
            (Wrote (b.out ++ expand_from env os_getenv fuel m prev s))
            (run realloc env os_getenv fuel m prev b s)
    unfolding run expand_from
    run-Wrote zero m prev b s = tt
    run-Wrote (suc fuel) m prev b [] = if_ok (ltb (length b.out) b.cap)
      where
        if_ok : (t : Bool) → Sound (Wrote (b.out ++ [])) (if t then ok b else fault)
        if_ok true = sym (append-nil b.out)
        if_ok false = tt
    run-Wrote (suc fuel) m prev b (c ∷ cs) =
        let before : Bytes → ℕ =
          λ rest. last_byte (take (suc (length cs) - length rest) (c ∷ cs)) in
        let later : Mode → Bytes → Bytes =
          λ m' rest. expand_from env os_getenv fuel m' (before rest) rest in
        round-Wrote later b (piece env os_getenv m prev c cs) _ _ (step-Writes m prev b c cs)
          (λ (m', b', rest). run-Wrote fuel m' (before rest) b' rest)

    answer :
        (input s : Bytes) (r : Res Buffer)
        → Sound (Wrote s) r
        → Safe (Refused realloc) (λ a. Unit) r
        → (or_input realloc env os_getenv input r ≡ some s)
          ⊎ (Refused realloc × (or_input realloc env os_getenv input r ≡ some input))
    answer input s (ok b) h k = inl (ap (λ t. some t) h)
    answer input s gave_up h k = inr (k, refl)
    answer input s fault h k = absurd k

    -- Whatever the line and the variables, `expand_vars_in_line` returns and writes nothing outside of
    -- its buffer, not even a NUL. The result is the line's expansion by `expanded`, which knows of no
    -- buffer; only if `realloc` refuses a block can it be the line as it was.
    pub expand_vars_in_line-expanded :
        (input : Bytes)
        → (expand_vars_in_line realloc env os_getenv input ≡ some (expanded env os_getenv input))
          ⊎ (Refused realloc × (expand_vars_in_line realloc env os_getenv input ≡ some input))
    unfolding expand_vars_in_line expanded
    expand_vars_in_line-expanded input =
        answer input _ _
          (run-Wrote (suc (length input)) outer b' ' (record { cap = 1024; out = [] }) input)
          (start-Safe realloc env os_getenv input)
