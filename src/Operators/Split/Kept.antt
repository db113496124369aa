-- ===== src/Operators/Split/Kept.antt =====
-- `split_on_operators` returns, and keeps the bytes of the line but for blanks.
use las_shell.Prelude.{
  ℕ, zero, suc, ◌<◌, ◌≤◌, ◌≡◌, refl, ap, sym, ◌∙◌, Bytes, peek, length, take, drop, not, ◌&&◌, ◌||◌,
  some, List, [], ◌∷◌, ◌++◌, ltb, ◌==◌, if◌then◌else◌, arith, append_assoc, append-nil,
  take-append-drop, if_elim, Bool-cases, inl, inr,
}
use las_shell.CString.Token.{concat}
use las_shell.InputParser.Run.{length-drop_le}
use las_shell.Operators.Split.{
  Splitter, op_len, is_blank, trim_tail, trim_end, close_segment, keep, at_op, step, run, start,
  split_on_operators,
}

-- The bytes that are no blanks, in order.
abbrev pub unblank : Bytes → Bytes
unblank [] = []
unblank (c ∷ cs) = let rest = unblank cs in if is_blank c then rest else c ∷ rest

unblank-append : (s t : Bytes) → unblank (s ++ t) ≡ unblank s ++ unblank t
unblank-append [] t = refl
unblank-append (c ∷ cs) t = elim (Bool-cases (is_blank c)) [
  | inl blank ↦ rw blank (unblank-append cs t)
  | inr other ↦ rw other (ap (◌∷◌ c) (unblank-append cs t))
]

unblank-trim_tail : (s : Bytes) → unblank (trim_tail s) ≡ unblank s
unfolding trim_tail
unblank-trim_tail [] = refl
unblank-trim_tail (c ∷ cs) = ground (arith, unblank-trim_tail cs)

unblank-trim_end : (s : Bytes) → unblank (trim_end s) ≡ unblank s
unblank-trim_end [] = refl
unblank-trim_end (c ∷ cs) = ap (λ t. if is_blank c then t else c ∷ t) (unblank-trim_tail cs)

concat-snoc : (ts : List Bytes) (t : Bytes) → concat (ts ++ (t ∷ [])) ≡ concat ts ++ t
concat-snoc [] t = append-nil t
concat-snoc (s ∷ ts) t = ap (λ u. s ++ u) (concat-snoc ts t) ∙ sym (append_assoc s (concat ts) t)

-- All that has been read and is still to be read, without blanks.
abbrev pub Text : Splitter → Bytes → Bytes
Text st s = unblank (concat st.parts) ++ (unblank st.seg ++ unblank s)

close_segment_lem :
    (seg : Bytes) (parts : List Bytes)
    → unblank (concat (close_segment seg parts)) ≡ unblank (concat parts) ++ unblank seg
close_segment_lem [] parts = sym (append-nil (unblank (concat parts)))
close_segment_lem (c ∷ cs) parts =
    ap unblank (concat-snoc parts (trim_end (c ∷ cs)))
    ∙ unblank-append (concat parts) _
    ∙ ap (λ t. unblank (concat parts) ++ t) (unblank-trim_end (c ∷ cs))

keep-Text : (st : Splitter) (c : ℕ) (cs : Bytes) → Text (keep st c) cs ≡ Text st (c ∷ cs)
keep-Text st c cs =
    ap (λ t. unblank (concat st.parts) ++ t)
      (ap (λ t. t ++ unblank cs) (unblank-append st.seg (c ∷ []))
        ∙ append_assoc (unblank st.seg) (unblank (c ∷ [])) (unblank cs)
        ∙ ap (λ t. unblank st.seg ++ t) (sym (unblank-append (c ∷ []) cs)))

-- What a round leaves: the same text, and less to read.
abbrev pub Round : Splitter → ℕ → Bytes → Splitter × Bytes → Type 0
Round st c cs r = (Text r.0 r.1 ≡ Text st (c ∷ cs)) × (length r.1 ≤ length cs)

at_op-Round : (st : Splitter) (c : ℕ) (cs : Bytes) (n : ℕ) → Round st c cs (at_op st c cs n)
at_op-Round st c cs zero = (keep-Text st c cs, omega arith)
at_op-Round st c cs (suc n) =
    let op = c ∷ take n cs in
    let p = close_segment st.seg st.parts in
    let written : unblank (concat (p ++ (op ∷ [])))
        ≡ unblank (concat st.parts) ++ unblank st.seg ++ unblank op =
      ap unblank (concat-snoc p op)
      ∙ unblank-append (concat p) op
      ∙ ap (λ t. t ++ unblank op) (close_segment_lem st.seg st.parts) in
    let joined : unblank op ++ unblank (drop n cs) ≡ unblank (c ∷ cs) =
      sym (unblank-append op (drop n cs)) ∙ ap (λ t. unblank (c ∷ t)) (take-append-drop n cs) in
    let before = unblank (concat st.parts) ++ unblank st.seg in
    (
      ap (λ t. t ++ unblank (drop n cs)) written
          ∙ append_assoc before (unblank op) (unblank (drop n cs))
          ∙ ap (λ t. before ++ t) joined
          ∙ append_assoc (unblank (concat st.parts)) (unblank st.seg) (unblank (c ∷ cs)),
      length-drop_le n cs,
    )

pub step-Round : (st : Splitter) (c : ℕ) (cs : Bytes) → Round st c cs (step st c cs)
unfolding step
step-Round st c cs =
    let kept = keep-Text st c cs in
    let short : length cs ≤ length cs = omega arith in
    let P = Round st c cs in
    if_elim P (st.quote == 0 && (c == b'"' || c == b'\'')) _ _ (λ e. (kept, short))
      (λ e.
        if_elim P (not (st.quote == 0) && c == st.quote) _ _ (λ e. (kept, short))
          (λ e.
            if_elim P (not (st.quote == 0)) _ _ (λ e. (kept, short))
              (λ e.
                if_elim P (c == b'{') _ _ (λ e. (kept, short))
                  (λ e.
                    if_elim P (c == b'}') _ _ (λ e. (kept, short))
                      (λ e.
                        if_elim P (ltb 0 st.depth) _ _ (λ e. (kept, short))
                          (λ e. at_op-Round st c cs (op_len st.seen c (peek cs))))))))

run-Text :
    (fuel : ℕ) (st : Splitter) (s : Bytes)
    → length s < fuel
    → (ps : List Bytes) × (run fuel st s ≡ some ps) × (unblank (concat ps) ≡ Text st s)
unfolding run
run-Text zero st s h = absurd (omega arith)
run-Text (suc fuel) st [] h = (
  close_segment st.seg st.parts,
  refl,
  close_segment_lem st.seg st.parts
      ∙ ap (λ t. unblank (concat st.parts) ++ t) (sym (append-nil (unblank st.seg))),
)
run-Text (suc fuel) st (c ∷ cs) h =
    let (text, less) = step-Round st c cs in
    let (ps, e, kept) = run-Text fuel (step st c cs).0 (step st c cs).1 (omega arith) in
    (ps, e, kept ∙ text)

-- Splitting a line always ends, and the bytes of the parts, one part after the other and without their
-- blanks, are the bytes of the line without its blanks.
pub split_on_operators-unblank :
    (s : Bytes)
    → (ps : List Bytes) × (split_on_operators s ≡ some ps) × (unblank (concat ps) ≡ unblank s)
unfolding split_on_operators
split_on_operators-unblank s = run-Text (suc (length s)) start s (omega arith)
