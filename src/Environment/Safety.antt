-- ===== src/Environment/Safety.antt =====
-- `expand_vars_in_line` writes only inside its buffer, and returns.
use las_shell.Prelude.{
  ℕ, zero, suc, ◌+◌, ◌*◌, ◌<◌, ◌≤◌, ◌≡◌, refl, sym, subst, Bytes, codes, length, Bool, true, Option,
  none, some, [], ◌∷◌, List, ltb, ◌==◌, arith, Bool-cases, inl, inr,
}
use las_shell.Environment.Getenv.{lookup_var}
use las_shell.Environment.Line.{
  Res, ok, gave_up, fault, Buffer, Mode, outer, single, double, Round, variable, value_or,
  starts_variable, is_tilde, grow, ensure_cap, put_byte, put_value, put_option, then_at,
  put_variable, expand_variable, put_escaped, step_double, step_single, home_or_byte, step_outer,
  step, run,
}
use las_shell.Environment.Room.{
  Safe, Safe-and_then, Safe-if, Room, spare, put-Room, put_text-Room, variable_le, Refused,
}

module _ (realloc : ℕ → Bool) where
  -- The loop ends within its fuel, with a capacity above the need.
  grow-Safe :
      (fuel cap need : ℕ)
      → 0 < cap
      → need < cap + fuel
      → Safe (Refused realloc) (λ cap'. need < cap') (grow realloc (suc fuel) cap need)
  unfolding grow
  grow-Safe zero cap need h k =
      let stop : ltb need cap ≡ true = ground arith in rw stop (omega arith)
  grow-Safe (suc fuel) cap need h k =
      let later = grow-Safe fuel (cap * 2) need (omega arith) in
      Safe-if (Refused realloc) _ (ltb need cap) _ _ (λ stop. ground arith)
        (λ more.
          Safe-if (Refused realloc) _ (realloc (cap * 2)) _ _ (λ yes. later (omega arith))
            (λ no. (cap * 2, no)))

  ensure_cap-Room :
      (need k : ℕ) (b : Buffer)
      → 0 < b.cap
      → need ≡ length b.out + k
      → Safe (Refused realloc) (Room (suc k)) (ensure_cap realloc need b)
  unfolding ensure_cap
  ensure_cap-Room need k b h e =
      Safe-and_then (Refused realloc) (λ cap. need < cap) (Room (suc k)) _ _
        (grow-Safe need b.cap need h (omega arith)) (λ cap l. omega (arith, e))

  put_byte-Room :
      (c : ℕ) (b : Buffer) → 0 < b.cap → Safe (Refused realloc) (Room 2) (put_byte realloc c b)
  unfolding put_byte
  put_byte-Room c b h =
      Safe-and_then (Refused realloc) (Room 3) (Room 2) _ _ (ensure_cap-Room _ 2 b h refl)
        (put-Room (Refused realloc) 2 c)

  put_value-Room :
      (value : Bytes) (b : Buffer)
      → 0 < b.cap
      → Safe (Refused realloc) (Room 2) (put_value realloc value b)
  unfolding put_value
  put_value-Room value b h =
      Safe-and_then (Refused realloc) (Room (length value + 3)) (Room 2) _ _
        (shift (ensure_cap realloc (length b.out + length value + 2) b)
          (ensure_cap-Room _ (length value + 2) b h (omega arith)))
        (put_text-Room (Refused realloc) value)
    where
      shift :
          (r : Res Buffer)
          → Safe (Refused realloc) (Room (suc (length value + 2))) r
          → Safe (Refused realloc) (Room (length value + 3)) r
      shift (ok a) l = omega (arith, l)
      shift gave_up l = l
      shift fault l = l

  abbrev Good : ℕ → Round → Type 0
  Good n (m, b, rest) = Room (spare m) b × (length rest < n)

  then_at-Good :
      (n : ℕ) (m : Mode) (rest : Bytes) (r : Res Buffer)
      → Safe (Refused realloc) (Room (spare m)) r
      → length rest < n
      → Safe (Refused realloc) (Good n) (then_at realloc m rest r)
  then_at-Good n m rest (ok b) h l = (h, l)
  then_at-Good n m rest gave_up h l = h
  then_at-Good n m rest fault h l = h

  module _ (env : List Bytes) (os_getenv : Bytes → Option Bytes) where
    put_variable-Room :
        (name : Bytes) (default : Option Bytes) (b : Buffer)
        → Room 2 b
        → Safe (Refused realloc) (Room 2) (put_variable realloc env os_getenv name default b)
    put_variable-Room [] default b h = put_byte-Room b'$' b (omega (arith, h))
    put_variable-Room (c ∷ cs) default b h =
        put_option-Room (value_or (lookup_var env os_getenv (c ∷ cs)) default)
      where
        put_option-Room :
            (v : Option Bytes) → Safe (Refused realloc) (Room 2) (put_option realloc v b)
        put_option-Room none = h
        put_option-Room (some v) = put_value-Room v b (omega (arith, h))

    expand_variable-Good :
        (n : ℕ) (m : Mode) (b : Buffer) (s : Bytes)
        → spare m ≡ 2
        → Room 2 b
        → length s < n
        → Safe (Refused realloc) (Good n) (expand_variable realloc env os_getenv m b s)
    unfolding expand_variable
    expand_variable-Good n m b s e h l =
        let name = (variable s).0 in
        let default = (variable s).1.0 in
        let written = put_variable-Room name default b h in
        then_at-Good n m (variable s).1.1 _
          (subst
            (λ k.
              Safe (Refused realloc) (Room k) (put_variable realloc env os_getenv name default b))
            (sym e) written)
          (omega (arith, l, variable_le s))

    step_double-Good :
        (b : Buffer) (c : ℕ) (cs : Bytes)
        → Room 2 b
        → Safe (Refused realloc) (Good (suc (length cs))) (step_double realloc env os_getenv b c cs)
    unfolding step_double
    step_double-Good b c cs h =
        let room : 0 < b.cap = omega (arith, h) in
        let byte = put_byte-Room c b room in
        let n = suc (length cs) in
        Safe-if (Refused realloc) (Good n) (c == b'"') _ _
          (λ e. then_at-Good n outer cs _ byte (omega arith))
          (λ e.
            Safe-if (Refused realloc) (Good n) (c == b'\\') _ _
              (λ e.
                Safe-and_then (Refused realloc) (Room 5) (Good n) _ _
                  (ensure_cap-Room _ 4 b room refl) (put_escaped-Good cs))
              (λ e.
                Safe-if (Refused realloc) (Good n) (starts_variable c cs) _ _
                  (λ e. expand_variable-Good n double b cs refl h (omega arith))
                  (λ e. then_at-Good n double cs _ byte (omega arith))))
      where
        put_escaped-Good :
            (s : Bytes) (a : Buffer)
            → Room 5 a
            → Safe (Refused realloc) (Good (suc (length s))) (put_escaped realloc env os_getenv s a)
        put_escaped-Good [] a k =
            then_at-Good 1 double [] _ (put-Room (Refused realloc) 2 b'\\' a (omega (arith, k)))
              (omega arith)
        put_escaped-Good (d ∷ ds) a k =
            then_at-Good (suc (length (d ∷ ds))) double ds _
              (Safe-and_then (Refused realloc) (Room 3) (Room 2) _ _
                (put-Room (Refused realloc) 3 b'\\' a (omega (arith, k)))
                (put-Room (Refused realloc) 2 d))
              (omega arith)

    step_single-Good :
        (b : Buffer) (c : ℕ) (cs : Bytes)
        → Room 1 b
        → Safe (Refused realloc) (Good (suc (length cs))) (step_single realloc env os_getenv b c cs)
    unfolding step_single
    step_single-Good b c cs h =
        let room : 0 < b.cap = omega (arith, h) in
        let byte = put_byte-Room c b room in
        elim (Bool-cases (c == b'\'')) [
          | inl close ↦ rw close (then_at-Good _ outer cs _ byte (omega arith))
          | inr on ↦
              rw on (then_at-Good _ single cs _ (one (put_byte realloc c b) byte) (omega arith))
        ]
      where
        one :
            (r : Res Buffer) → Safe (Refused realloc) (Room 2) r → Safe (Refused realloc) (Room 1) r
        one (ok a) l = omega (arith, l)
        one gave_up l = l
        one fault l = l

    step_outer-Good :
        (prev : ℕ) (b : Buffer) (c : ℕ) (cs : Bytes)
        → Room 2 b
        → Safe
            (Refused realloc)
            (Good (suc (length cs)))
            (step_outer realloc env os_getenv prev b c cs)
    unfolding step_outer
    step_outer-Good prev b c cs h =
        let room : 0 < b.cap = omega (arith, h) in
        let byte = put_byte-Room c b room in
        let n = suc (length cs) in
        Safe-if (Refused realloc) (Good n) (c == b'\'') _ _
          (λ e.
            then_at-Good n single cs _ (put-Room (Refused realloc) 1 c b (omega (arith, h)))
              (omega arith))
          (λ e.
            Safe-if (Refused realloc) (Good n) (c == b'"') _ _
              (λ e. then_at-Good n double cs _ byte (omega arith))
              (λ e.
                Safe-if (Refused realloc) (Good n) (is_tilde prev c cs) _ _
                  (λ e.
                    then_at-Good n outer cs _
                      (home-Room (lookup_var env os_getenv (codes "HOME")) room) (omega arith))
                  (λ e.
                    Safe-if (Refused realloc) (Good n) (starts_variable c cs) _ _
                      (λ e. expand_variable-Good n outer b cs refl h (omega arith))
                      (λ e. then_at-Good n outer cs _ byte (omega arith)))))
      where
        home-Room :
            (v : Option Bytes)
            → 0 < b.cap
            → Safe (Refused realloc) (Room 2) (home_or_byte realloc env os_getenv v b c)
        home-Room none k = put_byte-Room c b k
        home-Room (some v) k = put_value-Room v b k

    step-Good :
        (m : Mode) (prev : ℕ) (b : Buffer) (c : ℕ) (cs : Bytes)
        → Room (spare m) b
        → Safe (Refused realloc) (Good (suc (length cs))) (step realloc env os_getenv m prev b c cs)
    unfolding step
    step-Good outer prev b c cs h = step_outer-Good prev b c cs h
    step-Good single prev b c cs h = step_single-Good b c cs h
    step-Good double prev b c cs h = step_double-Good b c cs h

    spare_pos : (m : Mode) → 1 ≤ spare m
    spare_pos outer = omega arith
    spare_pos single = omega arith
    spare_pos double = omega arith

    run-Safe :
        (fuel : ℕ) (m : Mode) (prev : ℕ) (b : Buffer) (s : Bytes)
        → Room (spare m) b
        → length s < fuel
        → Safe (Refused realloc) (λ a. Unit) (run realloc env os_getenv fuel m prev b s)
    unfolding run
    run-Safe zero m prev b s h l = omega arith
    run-Safe (suc fuel) m prev b [] h l =
        let fits : ltb (length b.out) b.cap ≡ true = ground (arith, spare_pos m) in rw fits tt
    run-Safe (suc fuel) m prev b (c ∷ cs) h l =
        Safe-and_then (Refused realloc) (Good (suc (length cs))) _ _ _ (step-Good m prev b c cs h)
          (λ (m', b', rest) g. run-Safe fuel m' _ b' rest g.0 (omega (arith, g.1)))

    pub start-Safe :
        (input : Bytes)
        → Safe
            (Refused realloc)
            (λ a. Unit)
            (run realloc env os_getenv
              (suc (length input))
              outer
              b' '
              (record { cap = 1024; out = [] })
              input)
    start-Safe input =
        run-Safe (suc (length input)) outer b' ' (record { cap = 1024; out = [] }) input
          (omega arith) (omega arith)
