-- ===== src/Operators/Split/Operand.antt =====
-- The splitter over a text that is no split point.
use las_shell.Prelude.{
  ℕ, zero, suc, ◌<◌, ◌≡◌, refl, ap, sym, ◌∙◌, Bytes, length, Bool, true, false, not, ◌||◌, Option,
  List, [], ◌∷◌, ◌++◌, ◌==◌, arith, append_assoc, append-nil, Only,
}
use las_shell.Operators.Split.{Splitter, op_len, keep, step, run}
use las_shell.Operators.Split.Kept.{step-Round}

run_fuel :
    (f g : ℕ) (st : Splitter) (s : Bytes) → length s < f → length s < g → run f st s ≡ run g st s
unfolding run
run_fuel zero g st s h k = absurd (omega arith)
run_fuel (suc f) zero st s h k = absurd (omega arith)
run_fuel (suc f) (suc g) st [] h k = refl
run_fuel (suc f) (suc g) st (c ∷ cs) h k =
    let less = (step-Round st c cs).1 in
    run_fuel f g (step st c cs).0 (step st c cs).1 (omega arith) (omega arith)

abbrev pub exec : Splitter → Bytes → Option (List Bytes)
exec st s = run (suc (length s)) st s

pub exec-step :
    (st st' : Splitter) (c : ℕ) (cs rest : Bytes)
    → step st c cs ≡ (st', rest)
    → exec st (c ∷ cs) ≡ exec st' rest
unfolding run
exec-step st st' c cs rest e =
    let less = (step-Round st c cs).1 in
    run_fuel (suc (length cs)) (suc (length (step st c cs).1)) (step st c cs).0 (step st c cs).1
      (omega arith) (omega arith)
    ∙ ap (λ r. exec r.0 r.1) e

abbrev pub is_quote : ℕ → Bool
is_quote c = c == b'"' || c == b'\''

abbrev pub is_brace : ℕ → Bool
is_brace c = c == b'{' || c == b'}'

abbrev pub is_plain : ℕ → Bool
is_plain c =
    not (is_quote c || is_brace c || c == b'?' || c == b'~' || c == b'|' || c == b'&' || c == b';')

-- A text that is no split point: plain bytes, quoted texts, and braces around a text without quotes
-- or braces.
pub data Operand : Bytes → Type 0 where
  nil : Operand []
  plain : (c : ℕ) (s : Bytes) → is_plain c ≡ true → Operand s → Operand (c ∷ s)
  quoted :
      (q : ℕ) (t s : Bytes)
      → is_quote q ≡ true
      → Only (λ c. not (c == q)) t
      → Operand s
      → Operand (q ∷ (t ++ (q ∷ s)))
  group :
      (t s : Bytes)
      → Only (λ c. not (is_quote c || is_brace c)) t
      → Operand s
      → Operand (b'{' ∷ (t ++ (b'}' ∷ s)))

abbrev extended : Splitter → Bytes → Splitter
extended st s = record st { seg = st.seg ++ s }

abbrev Outside : Splitter → Type 0
Outside st = (st.quote ≡ 0) × (st.depth ≡ 0)

-- Rounds that keep a byte and stay where they are.
step_plain_lem :
    (st : Splitter) (c : ℕ) (cs : Bytes)
    → is_plain c ≡ true
    → Outside st
    → step st c cs ≡ (keep st c, cs)
unfolding step op_len
step_plain_lem st c cs h o = ground (arith, o.0, o.1)

step_open_lem :
    (st : Splitter) (q : ℕ) (cs : Bytes)
    → is_quote q ≡ true
    → Outside st
    → step st q cs ≡ (record (keep st q) { quote = q }, cs)
unfolding step
step_open_lem st q cs h o = ground (arith, o.0)

step_quoted_lem :
    (st : Splitter) (q c : ℕ) (cs : Bytes)
    → is_quote q ≡ true
    → st.quote ≡ q
    → (c == q) ≡ false
    → step st c cs ≡ (keep st c, cs)
unfolding step
step_quoted_lem st q c cs h e k = ground arith

step_close_lem :
    (st : Splitter) (q : ℕ) (cs : Bytes)
    → is_quote q ≡ true
    → st.quote ≡ q
    → step st q cs ≡ (record (keep st q) { quote = 0 }, cs)
unfolding step
step_close_lem st q cs h e = ground arith

step_group_lem :
    (st : Splitter) (d c : ℕ) (cs : Bytes)
    → not (is_quote c || is_brace c) ≡ true
    → st.quote ≡ 0
    → st.depth ≡ suc d
    → step st c cs ≡ (keep st c, cs)
unfolding step
step_group_lem st d c cs h e k = ground arith

exec-quoted :
    (st : Splitter) (q : ℕ) (t rest : Bytes)
    → is_quote q ≡ true
    → st.quote ≡ q
    → Only (λ c. not (c == q)) t
    → exec st (t ++ (q ∷ rest))
      ≡ exec (record st { quote = 0; seg = st.seg ++ (t ++ (q ∷ [])) }) rest
exec-quoted st q [] rest h e k = exec-step st _ q rest rest (step_close_lem st q rest h e)
exec-quoted st q (c ∷ t) rest h e k =
    exec-step st _ c (t ++ (q ∷ rest)) (t ++ (q ∷ rest))
      (step_quoted_lem st q c (t ++ (q ∷ rest)) h e (ground (arith, k.0)))
    ∙ exec-quoted (keep st c) q t rest h e k.1
    ∙ ap (λ s. exec (record st { quote = 0; seg = s }) rest)
        (append_assoc st.seg (c ∷ []) (t ++ (q ∷ [])))

close_group_lem :
    (st : Splitter) (rest : Bytes)
    → st.quote ≡ 0
    → st.depth ≡ 1
    → step st b'}' rest ≡ (record st { depth = 0; seg = st.seg ++ (b'}' ∷ []) }, rest)
unfolding step
close_group_lem st rest e d = ground (arith, e, d)

exec-group :
    (st : Splitter) (t rest : Bytes)
    → st.quote ≡ 0
    → st.depth ≡ 1
    → Only (λ c. not (is_quote c || is_brace c)) t
    → exec st (t ++ (b'}' ∷ rest))
      ≡ exec (record st { depth = 0; seg = st.seg ++ (t ++ (b'}' ∷ [])) }) rest
exec-group st [] rest e d k = exec-step st _ b'}' rest rest (close_group_lem st rest e d)
exec-group st (c ∷ t) rest e d k =
    exec-step st _ c (t ++ (b'}' ∷ rest)) (t ++ (b'}' ∷ rest))
      (step_group_lem st 0 c (t ++ (b'}' ∷ rest)) k.0 e d)
    ∙ exec-group (keep st c) t rest e d k.1
    ∙ ap (λ s. exec (record st { depth = 0; seg = s }) rest)
        (append_assoc st.seg (c ∷ []) (t ++ (b'}' ∷ [])))

open_group_lem :
    (st : Splitter) (rest : Bytes)
    → Outside st
    → step st b'{' rest ≡ (record (keep st b'{') { depth = 1 }, rest)
unfolding step
open_group_lem st rest o = ground (arith, o.0, o.1)

pub around :
    (seg : Bytes) (o c : ℕ) (t s : Bytes)
    → ((seg ++ (o ∷ [])) ++ (t ++ (c ∷ []))) ++ s ≡ seg ++ (o ∷ (t ++ (c ∷ s)))
around seg o c t s =
    append_assoc (seg ++ (o ∷ [])) (t ++ (c ∷ [])) s
    ∙ append_assoc seg (o ∷ []) ((t ++ (c ∷ [])) ++ s)
    ∙ ap (λ x. seg ++ (o ∷ x)) (append_assoc t (c ∷ []) s)

abbrev pub outside : Bool → Bytes → List Bytes → Splitter
outside seen seg parts = record { quote = 0; depth = 0; seen = seen; seg = seg; parts = parts }

pub exec-Operand :
    (a rest : Bytes) (seen : Bool) (seg : Bytes) (parts : List Bytes)
    → Operand a
    → exec (outside seen seg parts) (a ++ rest) ≡ exec (outside seen (seg ++ a) parts) rest
exec-Operand _ rest seen seg parts nil =
    ap (λ s. exec (outside seen s parts) rest) (sym (append-nil seg))
exec-Operand _ rest seen seg parts (plain c s h w) =
    let st = outside seen seg parts in
    exec-step st _ c (s ++ rest) (s ++ rest) (step_plain_lem st c (s ++ rest) h (refl, refl))
    ∙ exec-Operand s rest seen (seg ++ (c ∷ [])) parts w
    ∙ ap (λ t. exec (outside seen t parts) rest) (append_assoc seg (c ∷ []) s)
exec-Operand _ rest seen seg parts (quoted q t s h k w) =
    let st = outside seen seg parts in
    let tail = s ++ rest in
    let opened = record (keep st q) { quote = q } in
    ap (λ x. exec st (q ∷ x)) (append_assoc t (q ∷ s) rest)
    ∙ exec-step st _ q (t ++ (q ∷ tail)) (t ++ (q ∷ tail))
        (step_open_lem st q (t ++ (q ∷ tail)) h (refl, refl))
    ∙ exec-quoted opened q t tail h refl k
    ∙ exec-Operand s rest seen _ parts w
    ∙ ap (λ x. exec (outside seen x parts) rest) (around seg q q t s)
exec-Operand _ rest seen seg parts (group t s k w) =
    let st = outside seen seg parts in
    let tail = s ++ rest in
    let opened = record (keep st b'{') { depth = 1 } in
    ap (λ x. exec st (b'{' ∷ x)) (append_assoc t (b'}' ∷ s) rest)
    ∙ exec-step st _ b'{' (t ++ (b'}' ∷ tail)) (t ++ (b'}' ∷ tail))
        (open_group_lem st (t ++ (b'}' ∷ tail)) (refl, refl))
    ∙ exec-group opened t tail refl refl k
    ∙ exec-Operand s rest seen _ parts w
    ∙ ap (λ x. exec (outside seen x parts) rest) (around seg b'{' b'}' t s)
