-- ===== src/CString/Copy.antt =====
-- src/helper.c: the functions that write into a caller's buffer. A buffer is the list of its cells;
-- a write behind its end is a fault, `none`.
use mathlib.Core.Option
use las_shell.Prelude.{
  ℕ, zero, suc, ◌+◌, ◌<◌, ◌≤◌, ◌≡◌, refl, Bytes, IsText, length, take, drop, Option, none, some, [],
  ◌∷◌, ◌++◌, arith, ◌==◌, if◌then◌else◌, inl, inr, Bool-cases,
}
use las_shell.CString.Compare.{my_strlen, my_strlen-length}

-- The text that a buffer holds: its cells up to the first NUL. `none` if there is no NUL in it.
unfoldable pub text_of : Bytes → Option Bytes
text_of [] = none
text_of (c ∷ cs) = if c == 0 then some [] else Option.map (◌∷◌ c) (text_of cs)

-- `while ((*dest++ = *src++) != '\0');`
unfoldable pub my_strcpy : Bytes → Bytes → Option Bytes
my_strcpy [] src = none
my_strcpy (d ∷ ds) [] = some (0 ∷ ds)
my_strcpy (d ∷ ds) (c ∷ cs) = Option.map (◌∷◌ c) (my_strcpy ds cs)

-- `n` cells are written: bytes of the text, then NULs.
unfoldable pub my_strncpy : Bytes → Bytes → ℕ → Option Bytes
my_strncpy ds src zero = some ds
my_strncpy [] src (suc n) = none
my_strncpy (d ∷ ds) [] (suc n) = Option.map (◌∷◌ 0) (my_strncpy ds [] n)
my_strncpy (d ∷ ds) (c ∷ cs) (suc n) = Option.map (◌∷◌ c) (my_strncpy ds cs n)

-- `dest + my_strlen(dest)` and the copy from there on; a buffer without a NUL is a fault.
unfoldable pub my_strcat : Bytes → Bytes → Option Bytes
unfolding my_strcpy
my_strcat [] src = none
my_strcat (d ∷ ds) src =
    if d == 0 then my_strcpy (d ∷ ds) src else Option.map (◌∷◌ d) (my_strcat ds src)

-- The first `n` bytes of the text and a NUL behind them.
unfoldable pub my_strncat : Bytes → Bytes → ℕ → Option Bytes
unfolding my_strcpy
my_strncat [] src n = none
my_strncat (d ∷ ds) src n =
    if d == 0 then my_strcpy (d ∷ ds) (take n src) else Option.map (◌∷◌ d) (my_strncat ds src n)

-- `malloc` gives a block of cells, or NULL.
unfoldable pub my_strdup : (ℕ → Option Bytes) → Option Bytes → Option Bytes
unfolding my_strcpy my_strlen
my_strdup malloc none = none
my_strdup malloc (some s) = elim (malloc (my_strlen s + 1)) [
  | none ↦ none
  | some block ↦ my_strcpy block s
]

-- A buffer with room for the text and its NUL holds the text afterwards, and the cells behind the
-- NUL are as before.
pub my_strcpy_fits :
    (ds src : Bytes)
    → length src < length ds
    → my_strcpy ds src ≡ some (src ++ (0 ∷ drop (suc (length src)) ds))
unfolding my_strcpy
my_strcpy_fits [] src h = absurd (omega arith)
my_strcpy_fits (d ∷ ds) [] h = refl
my_strcpy_fits (d ∷ ds) (c ∷ cs) h = ground (arith, my_strcpy_fits ds cs)

-- A buffer that is too short is overrun.
pub my_strcpy_overrun : (ds src : Bytes) → length ds ≤ length src → my_strcpy ds src ≡ none
unfolding my_strcpy
my_strcpy_overrun [] src h = refl
my_strcpy_overrun (d ∷ ds) [] h = absurd (omega arith)
my_strcpy_overrun (d ∷ ds) (c ∷ cs) h = ground (arith, my_strcpy_overrun ds cs)

pub text_of-append : (s rest : Bytes) → IsText s → text_of (s ++ (0 ∷ rest)) ≡ some s
unfolding text_of
text_of-append [] rest h = refl
text_of-append (c ∷ cs) rest h = ground (arith, text_of-append cs rest h.1)

-- The text in a buffer after a successful write.
abbrev pub Holds : Option Bytes → Bytes → Type 0
Holds none s = ⊥
Holds (some ds) s = text_of ds ≡ some s

Holds-cons :
    (d : ℕ) (r : Option Bytes) (s : Bytes)
    → 0 < d
    → Holds r s
    → Holds (Option.map (◌∷◌ d) r) (d ∷ s)
unfolding text_of
Holds-cons d none s p h = h
Holds-cons d (some ds) s p h = ground arith

-- Copying a text into a buffer of more cells than bytes makes the buffer hold that text; into any
-- smaller buffer the copy overruns it.
pub my_strcpy_exact :
    (ds src : Bytes)
    → IsText src
    → (length src < length ds → Holds (my_strcpy ds src) src)
      × (length ds ≤ length src → my_strcpy ds src ≡ none)
my_strcpy_exact ds src t =
    ((λ h. rw (my_strcpy_fits ds src h) (text_of-append src _ t)), my_strcpy_overrun ds src)

my_strcpy-Holds :
    (ds src : Bytes) → IsText src → length src < length ds → Holds (my_strcpy ds src) src
my_strcpy-Holds ds src t h = (my_strcpy_exact ds src t).0 h

-- Appending to a buffer that holds `s` and has `length src` cells behind the NUL makes it hold `s`
-- followed by `src`.
pub my_strcat-append :
    (s rest src : Bytes)
    → IsText s
    → IsText src
    → length src ≤ length rest
    → Holds (my_strcat (s ++ (0 ∷ rest)) src) (s ++ src)
unfolding my_strcat
my_strcat-append [] rest src h t l = my_strcpy-Holds (0 ∷ rest) src t (omega arith)
my_strcat-append (c ∷ cs) rest src h t l = elim (Bool-cases (c == 0)) [
  | inl z ↦ absurd (ground arith)
  | inr nz ↦ rw nz (Holds-cons c _ (cs ++ src) h.0 (my_strcat-append cs rest src h.1 t l))
]

IsText-take : (n : ℕ) (s : Bytes) → IsText s → IsText (take n s)
IsText-take zero s h = tt
IsText-take (suc n) [] h = tt
IsText-take (suc n) (c ∷ cs) h = (h.0, IsText-take n cs h.1)

-- `my_strncat` appends the first `n` bytes of `src`, all of them if it has no more, and needs no more
-- room than those bytes.
pub my_strncat-append :
    (s rest src : Bytes) (n : ℕ)
    → IsText s
    → IsText src
    → length (take n src) ≤ length rest
    → Holds (my_strncat (s ++ (0 ∷ rest)) src n) (s ++ take n src)
unfolding my_strncat
my_strncat-append [] rest src n h t l =
    my_strcpy-Holds (0 ∷ rest) (take n src) (IsText-take n src t) (omega arith)
my_strncat-append (c ∷ cs) rest src n h t l = elim (Bool-cases (c == 0)) [
  | inl z ↦ absurd (ground arith)
  | inr nz ↦ rw nz (Holds-cons c _ (cs ++ take n src) h.0 (my_strncat-append cs rest src n h.1 t l))
]

my_strncpy-nil : (ds : Bytes) (n : ℕ) → n ≤ length ds → (r : Bytes) × (my_strncpy ds [] n ≡ some r)
unfolding my_strncpy
my_strncpy-nil ds zero l = (ds, refl)
my_strncpy-nil [] (suc n) l = absurd (omega arith)
my_strncpy-nil (d ∷ ds) (suc n) l = let (r, e) = my_strncpy-nil ds n (omega arith) in (0 ∷ r, rw e)

-- `my_strncpy` ends its copy with a NUL exactly when the text is shorter than `n`: then the buffer
-- holds the text, and otherwise its first `n` cells are `n` bytes of the text with no NUL added.
pub my_strncpy_short :
    (ds src : Bytes) (n : ℕ)
    → IsText src
    → n ≤ length ds
    → (length src < n → Holds (my_strncpy ds src n) src)
      × (n ≤ length src → my_strncpy ds src n ≡ some (take n src ++ drop n ds))
unfolding my_strncpy text_of
my_strncpy_short ds src zero t l = ((λ h. absurd (omega arith)), λ h. refl)
my_strncpy_short [] src (suc n) t l = absurd (omega arith)
my_strncpy_short (d ∷ ds) [] (suc n) t l =
    ((λ h. rw (my_strncpy-nil ds n (omega arith)).1 refl), λ h. absurd (omega arith))
my_strncpy_short (d ∷ ds) (c ∷ cs) (suc n) t l =
    let (short, long) = my_strncpy_short ds cs n t.1 (omega arith) in
    ((λ h. Holds-cons c _ cs t.0 (short (omega arith))), λ h. ground (arith, long (omega arith)))

-- A duplicate is NULL when `malloc` fails, and holds the same text when it gives the block that was
-- asked for.
pub my_strdup-Holds :
    (malloc : ℕ → Option Bytes) (s block : Bytes)
    → IsText s
    → (malloc (suc (length s)) ≡ none → my_strdup malloc (some s) ≡ none)
      × (malloc (suc (length s)) ≡ some block
          → length block ≡ suc (length s)
          → Holds (my_strdup malloc (some s)) s)
unfolding my_strdup
my_strdup-Holds malloc s block t =
    let same : my_strlen s + 1 ≡ suc (length s) = omega (arith, my_strlen-length s) in
    (
      (λ e. rw (same, e, my_strdup) refl),
      λ e l. rw (same, e, my_strdup) (my_strcpy-Holds block s t (omega arith)),
    )
