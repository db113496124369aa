-- ===== src/Alias/RoundTrip.antt =====
-- What `init_aliases` reads back from the file that `save_aliases` wrote.
use las_shell.Prelude.{
  ℕ, zero, suc, ◌+◌, ◌-◌, ◌<◌, ◌≤◌, ◌≡◌, ◌≢◌, refl, ap, sym, ◌∙◌, Bytes, length, take, Bool, true,
  false, not, ◌&&◌, some, List, [], ◌∷◌, ◌++◌, ltb, ◌==◌, arith, Only, All, All-append,
  length-append, take-append, append_assoc, append-nil, map, Bool-cases, inl, inr,
}
use las_shell.CString.Search.{my_strchr, my_strcspn, in_set, cspn_from, my_strchr-first}
use las_shell.InputParser.{last_byte}
use las_shell.InputParser.Quote.{escape_quotes}
use las_shell.Alias.Table.{Alias, max_aliases}
use las_shell.Alias.File.{
  read_line, unquote, add_parts, add_line, load_from, init_aliases, alias_line, save_aliases,
}

-- A byte of a text other than the newline.
abbrev pub is_line_byte : ℕ → Bool
is_line_byte c = ltb 0 c && ltb c 256 && not (c == b'\n')

abbrev pub is_name_part : ℕ → Bool
is_name_part c = is_line_byte c && not (c == b'=')

-- An entry that one line of the file can hold: `fgets` reads at most 511 bytes at once.
abbrev pub Fits : Alias → Type 0
Fits a =
    Only is_name_part a.name
    × Only is_line_byte a.value
    × (length a.name + length (escape_quotes a.value) + 4 ≤ 511)

pub read_line_lem :
    (n : ℕ) (body rest : Bytes)
    → Only is_line_byte body
    → length body < n
    → read_line n (body ++ (b'\n' ∷ rest)) ≡ (body ++ (b'\n' ∷ []), rest)
unfolding read_line
read_line_lem zero body rest h l = absurd (omega arith)
read_line_lem (suc n) [] rest h l = refl
read_line_lem (suc n) (c ∷ cs) rest h l = ground (arith, read_line_lem n cs rest h.1 (omega arith))

newline_set : (c : ℕ) → is_line_byte c ≡ true → in_set (b'\n' ∷ []) c ≡ false
unfolding in_set my_strchr
newline_set c h = ground arith

cspn_lem :
    (count : ℕ) (body rest : Bytes)
    → Only is_line_byte body
    → cspn_from count (body ++ (b'\n' ∷ rest)) (b'\n' ∷ []) ≡ count + length body
unfolding cspn_from
cspn_lem count [] rest h = unfold in_set my_strchr in omega arith
cspn_lem count (c ∷ cs) rest h =
    rw (newline_set c h.0) (omega (arith, cspn_lem (count + 1) cs rest h.1))

escape_quotes-line : (s : Bytes) → Only is_line_byte s → Only is_line_byte (escape_quotes s)
unfolding escape_quotes
escape_quotes-line [] h = tt
escape_quotes-line (c ∷ cs) h = elim (Bool-cases (c == b'\'')) [
  | inl q ↦ rw q (refl, (refl, (refl, (refl, escape_quotes-line cs h.1))))
  | inr n ↦ rw n (h.0, escape_quotes-line cs h.1)
]

name-line : (s : Bytes) → Only is_name_part s → Only is_line_byte s
name-line [] h = tt
name-line (c ∷ cs) h = (ground (arith, h.0), name-line cs h.1)

name-ne : (s : Bytes) → Only is_name_part s → Only (λ x. not (x == b'=')) s
name-ne [] h = tt
name-ne (c ∷ cs) h = (ground (arith, h.0), name-ne cs h.1)

pub last_byte-snoc : (s : Bytes) (c : ℕ) → last_byte (s ++ (c ∷ [])) ≡ c
unfolding last_byte
last_byte-snoc [] c = refl
last_byte-snoc (d ∷ []) c = refl
last_byte-snoc (d ∷ e ∷ s) c = last_byte-snoc (e ∷ s) c

unquote_lem : (s : Bytes) → unquote (b'\'' ∷ (s ++ (b'\'' ∷ []))) ≡ s
unfolding unquote
unquote_lem s =
    let long = length-append {0} s (b'\'' ∷ []) in
    let shorter : length (s ++ (b'\'' ∷ [])) - 1 ≡ length s = omega (arith, long) in
    let some_left : ltb 0 (length (s ++ (b'\'' ∷ []))) ≡ true = ground (arith, long) in
    rw (last_byte-snoc s b'\'', some_left, shorter) (take-append s (b'\'' ∷ []))

-- What one line gives back: the name, and the value as it was escaped.
abbrev pub escaped : Alias → Alias
escaped a = record { name = a.name; value = escape_quotes a.value }

alias_line-line : (a : Alias) → Fits a → Only is_line_byte (alias_line a)
alias_line-line a h =
    All-append (λ c. is_line_byte c ≡ true) a.name _ (name-line a.name h.0)
      (
        refl,
        (
          refl,
          All-append (λ c. is_line_byte c ≡ true) (escape_quotes a.value) (b'\'' ∷ [])
              (escape_quotes-line a.value h.1) (refl, tt),
        ),
      )

length-alias_line :
    (a : Alias) → length (alias_line a) ≡ length a.name + length (escape_quotes a.value) + 3
length-alias_line a = omega (
  arith,
  length-append {0} a.name (b'=' ∷ b'\'' ∷ (escape_quotes a.value ++ (b'\'' ∷ []))),
  length-append {0} (escape_quotes a.value) (b'\'' ∷ []),
)

cut_line :
    (body : Bytes)
    → Only is_line_byte body
    → take (my_strcspn (body ++ (b'\n' ∷ [])) (b'\n' ∷ [])) (body ++ (b'\n' ∷ [])) ≡ body
unfolding my_strcspn
cut_line body h =
    let n : cspn_from 0 (body ++ (b'\n' ∷ [])) (b'\n' ∷ []) ≡ length body =
      omega (arith, cspn_lem 0 body [] h) in
    rw n (take-append body (b'\n' ∷ []))

add_line_lem :
    (table : List Alias) (a : Alias)
    → Fits a
    → add_line table (alias_line a ++ (b'\n' ∷ [])) ≡ table ++ (escaped a ∷ [])
unfolding add_line
add_line_lem table a h =
    let value = b'\'' ∷ (escape_quotes a.value ++ (b'\'' ∷ [])) in
    let found =
      (my_strchr-first a.name b'=' (omega arith) (omega arith) (name-ne a.name h.0)).0 value in
    let cut : length (alias_line a) - length (b'=' ∷ value) ≡ length a.name =
      omega (arith, length-append {0} a.name (b'=' ∷ value)) in
    ap (λ l. add_parts table l (my_strchr l b'=')) (cut_line (alias_line a) (alias_line-line a h))
    ∙ ap (add_parts table (alias_line a)) found
    ∙ rw (cut, take-append a.name (b'=' ∷ value), unquote_lem (escape_quotes a.value))

-- The fuel of the loop does not matter once it exceeds what is left of the file.
read_line_rest : (n : ℕ) (s : Bytes) → length (read_line n s).1 ≤ length s
unfolding read_line
read_line_rest zero s = omega arith
read_line_rest (suc n) [] = omega arith
read_line_rest (suc n) (c ∷ cs) = ground (arith, read_line_rest n cs)

read_line_shorter : (n : ℕ) (c : ℕ) (cs : Bytes) → length (read_line (suc n) (c ∷ cs)).1 ≤ length cs
unfolding read_line
read_line_shorter n c cs = ground (arith, read_line_rest n cs)

pub load_fuel :
    (f g : ℕ) (table : List Alias) (s : Bytes)
    → length s < f
    → length s < g
    → load_from f table s ≡ load_from g table s
unfolding load_from
load_fuel zero g table s h k = absurd (omega arith)
load_fuel (suc f) zero table s h k = absurd (omega arith)
load_fuel (suc f) (suc g) table [] h k = refl
load_fuel (suc f) (suc g) table (c ∷ cs) h k =
    let less = read_line_shorter 510 c cs in
    let (line, rest) = read_line 511 (c ∷ cs) in
    rw (load_fuel f g (add_line table line) rest (omega arith) (omega arith)) refl

load_cons :
    (f : ℕ) (table : List Alias) (s line rest : Bytes)
    → s ≢ []
    → length table < max_aliases
    → read_line 511 s ≡ (line, rest)
    → load_from (suc f) table s ≡ load_from f (add_line table line) rest
unfolding load_from
load_cons f table [] line rest h room e = absurd (h refl)
load_cons f table (c ∷ cs) line rest h room e =
    let in_room : ltb (length table) max_aliases ≡ true = ground arith in
    rw in_room (ap (λ (p : Bytes × Bytes). load_from f (add_line table p.0) p.1) e)

append-ne-nil : (s : Bytes) (c : ℕ) (t : Bytes) → s ++ (c ∷ t) ≢ []
append-ne-nil [] c t e = ground arith
append-ne-nil (d ∷ s) c t e = ground arith

load_step :
    (f : ℕ) (table : List Alias) (a : Alias) (rest : Bytes)
    → Fits a
    → length table < max_aliases
    → load_from (suc f) table (alias_line a ++ (b'\n' ∷ rest))
      ≡ load_from f (table ++ (escaped a ∷ [])) rest
load_step f table a rest h room =
    let size : length (alias_line a) < 511 = omega (arith, length-alias_line a, h.2) in
    load_cons f table (alias_line a ++ (b'\n' ∷ rest)) (alias_line a ++ (b'\n' ∷ [])) rest
      (append-ne-nil (alias_line a) b'\n' rest) room
      (read_line_lem 511 (alias_line a) rest (alias_line-line a h) size)
    ∙ ap (λ t. load_from f t rest) (add_line_lem table a h)

load_saved :
    (f : ℕ) (table t : List Alias)
    → All Fits t
    → length table + length t ≤ max_aliases
    → length (save_aliases t) < f
    → load_from f table (save_aliases t) ≡ table ++ map escaped t
unfolding save_aliases
load_saved zero table t h room l = absurd (omega arith)
load_saved (suc f) table [] h room l = unfold load_from in sym (append-nil table)
load_saved (suc f) table (a ∷ rest) h room l =
    load_step f table a (save_aliases rest) h.0 (omega arith)
    ∙ load_saved f (table ++ (escaped a ∷ [])) rest h.1
        (omega (arith, length-append {0} table (escaped a ∷ [])))
        (omega (arith, length-append {0} (alias_line a) (b'\n' ∷ save_aliases rest)))
    ∙ append_assoc table (escaped a ∷ []) (map escaped rest)

-- Reading back a saved table gives its entries in their order, each with its value escaped as
-- `save_aliases` wrote it, when each entry fits a line of 511 bytes and there are at most 100.
pub init-save :
    (t : List Alias)
    → All Fits t
    → length t ≤ max_aliases
    → init_aliases (some (save_aliases t)) [] ≡ map escaped t
unfolding init_aliases
init-save t h room = load_saved (suc (length (save_aliases t))) [] t h (omega arith) (omega arith)
