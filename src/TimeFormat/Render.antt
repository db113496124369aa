-- ===== src/TimeFormat/Render.antt =====
-- The unbounded rendering of a format, and `my_strftime` as its cut to the buffer.
use las_shell.Prelude.{
  ℕ, zero, suc, ◌+◌, ◌-◌, ◌≡◌, refl, Bytes, length, take, Bool, true, not, none, some, [], ◌∷◌,
  ◌++◌, arith, ◌==◌, if◌then◌else◌, append_assoc, append-nil, inl, inr, Bool-cases, ◌∙◌, ap, ◌<◌,
  length-append,
}
use las_shell.TimeFormat.{Tm, directive, copy_tmp, format_from, my_strftime}

-- What the format stands for with no limit on the room.
unfoldable pub render : Tm → Bytes → Bytes
render tm [] = []
render tm (c ∷ []) = c ∷ []
render tm (c ∷ d ∷ fmt) =
    let plain = c ∷ render tm (d ∷ fmt) in
    let converted = directive tm d ++ render tm fmt in if c == b'%' then converted else plain

-- Every `%` of the format is followed by a byte.
unfoldable pub is_complete : Bytes → Bool
is_complete [] = true
is_complete (c ∷ []) = not (c == b'%')
is_complete (c ∷ d ∷ fmt) =
    let plain = is_complete (d ∷ fmt) in
    let converted = is_complete fmt in if c == b'%' then converted else plain

take-nil : (n : ℕ) → take {A = ℕ} n [] ≡ []
take-nil zero = refl
take-nil (suc n) = refl

-- What is written of `tmp`, and then of a rest, is a prefix of the two together.
copy_tmp-take :
    (out s : Bytes) (r : ℕ) (rest : Bytes)
    → (copy_tmp out s r).0 ++ take (copy_tmp out s r).1 rest ≡ out ++ take r (s ++ rest)
unfolding copy_tmp
copy_tmp-take out [] r rest = refl
copy_tmp-take out (c ∷ cs) zero rest = refl
copy_tmp-take out (c ∷ cs) (suc r) rest =
    copy_tmp-take (out ++ (c ∷ [])) cs r rest ∙ append_assoc out (c ∷ []) (take r (cs ++ rest))

format_from-render :
    (tm : Tm) (out : Bytes) (r : ℕ) (fmt : Bytes)
    → is_complete fmt ≡ true
    → format_from tm out r fmt ≡ some (out ++ take r (render tm fmt))
unfolding format_from render is_complete
format_from-render tm out zero fmt h = rw append-nil refl
format_from-render tm out (suc r) [] h = rw append-nil refl
format_from-render tm out (suc r) (c ∷ []) h = elim (Bool-cases (c == b'%')) [
  | inl p ↦ absurd (ground arith)
  | inr n ↦ rw (n, take-nil) refl
]
format_from-render tm out (suc r) (c ∷ d ∷ fmt) h = elim (Bool-cases (c == b'%')) [
  | inl p ↦
      let h' : is_complete fmt ≡ true = ground arith in
      rw p (
        format_from-render tm (copy_tmp out (directive tm d) (suc r)).0
          (copy_tmp out (directive tm d) (suc r)).1 fmt h'
        ∙ ap some (copy_tmp-take out (directive tm d) (suc r) (render tm fmt)))
  | inr n ↦
      let h' : is_complete (d ∷ fmt) ≡ true = ground arith in
      rw n (
        format_from-render tm (out ++ (c ∷ [])) r (d ∷ fmt) h'
        ∙ ap some (append_assoc out (c ∷ []) (take r (render tm (d ∷ fmt)))))
]

-- For every format in which a byte follows each `%`, whatever the size of the buffer, `my_strftime`
-- writes the longest prefix of the unbounded rendering that leaves room for the NUL.
pub my_strftime-render :
    (buflen : ℕ) (fmt : Bytes) (tm : Tm)
    → is_complete fmt ≡ true
    → my_strftime buflen fmt tm ≡ some (take (buflen - 1) (render tm fmt))
unfolding my_strftime
my_strftime-render zero fmt tm h = refl
my_strftime-render (suc n) fmt tm h =
    let same : suc n - 1 ≡ n = omega arith in rw same (format_from-render tm [] n fmt h)

copy_tmp_room : (out s : Bytes) (r : ℕ) → length s < r → (copy_tmp out s r).1 + length s ≡ r
unfolding copy_tmp
copy_tmp_room out [] r h = omega arith
copy_tmp_room out (c ∷ cs) zero h = absurd (omega arith)
copy_tmp_room out (c ∷ cs) (suc r) h =
    omega (arith, copy_tmp_room (out ++ (c ∷ [])) cs r (omega arith))

format_from_percent :
    (tm : Tm) (out : Bytes) (r : ℕ) (fmt : Bytes)
    → is_complete fmt ≡ true
    → length (render tm fmt) < r
    → format_from tm out r (fmt ++ (b'%' ∷ [])) ≡ none
unfolding format_from render is_complete
format_from_percent tm out zero fmt h l = absurd (omega arith)
format_from_percent tm out (suc r) [] h l = refl
format_from_percent tm out (suc zero) (c ∷ []) h l = absurd (omega arith)
format_from_percent tm out (suc (suc r)) (c ∷ []) h l = ground arith
format_from_percent tm out (suc r) (c ∷ d ∷ fmt) h l = elim (Bool-cases (c == b'%')) [
  | inl p ↦
      let h' : is_complete fmt ≡ true = ground arith in
      let l' : length (directive tm d ++ render tm fmt) < suc r = rw (p, render) at l in
      let sum = length-append (directive tm d) (render tm fmt) in
      let room = copy_tmp_room out (directive tm d) (suc r) (omega arith) in
      rw p (
        format_from_percent tm (copy_tmp out (directive tm d) (suc r)).0
          (copy_tmp out (directive tm d) (suc r)).1 fmt h' (omega arith))
  | inr n ↦
      let h' : is_complete (d ∷ fmt) ≡ true = ground arith in
      let l' : suc (length (render tm (d ∷ fmt))) < suc r = rw (n, render) at l in
      rw n (format_from_percent tm (out ++ (c ∷ [])) r (d ∷ fmt) h' (omega arith))
]

-- A format that ends in a lone `%` is read behind its terminating NUL whenever the buffer has room
-- left when the scan comes to that `%`.
pub my_strftime_percent :
    (n : ℕ) (fmt : Bytes) (tm : Tm)
    → is_complete fmt ≡ true
    → length (render tm fmt) < n
    → my_strftime (suc n) (fmt ++ (b'%' ∷ [])) tm ≡ none
unfolding my_strftime
my_strftime_percent n fmt tm h l = format_from_percent tm [] n fmt h l
