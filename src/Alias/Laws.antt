-- ===== src/Alias/Laws.antt =====
-- `add_alias` and `remove_alias` against the lookup, with their results and the table's invariant.
use las_shell.Prelude.{
  suc, ◌<◌, ◌≡◌, refl, ap, sym, subst, Bytes, IsText, length, true, false, Option, none, some, List,
  [], ◌∷◌, ◌++◌, arith, ltb, if◌then◌else◌, inl, inr, Bool-cases, All, All-append, length-append,
}
use las_shell.Prelude.Int.{ℤ, pos, negsuc}
use las_shell.Alias.Table.{
  Alias, max_aliases, store_alias, same_name, find_alias, replace, add_alias, remove_alias,
}
use las_shell.Alias.Invariant.{
  IsTable, Fresh, Distinct, names_of, same_name→eq, same_name_refl, same_name_sym, find_alias-Fresh,
  replace-none, find_alias-replace, find_alias-snoc, names_of-replace,
}

names_of-append : (s t : List Alias) → names_of (s ++ t) ≡ names_of s ++ names_of t
names_of-append [] t = refl
names_of-append (a ∷ rest) t = rw (names_of-append rest t)

Distinct-snoc :
    (ns : List Bytes) (name : Bytes) → Distinct ns → Fresh name ns → Distinct (ns ++ (name ∷ []))
Distinct-snoc [] name h f = (tt, tt)
Distinct-snoc (n ∷ ns) name h f = (
  All-append (λ m. same_name m n ≡ false) ns (name ∷ []) h.0
      (ground (arith, f.0, same_name_sym name n), tt),
  Distinct-snoc ns name h.1 f.1,
)

-- What `add_alias` promises of the table and the result that it returns: 0 (`pos 0`) or -1
-- (`negsuc 0`).
abbrev pub Added : Bytes → Bytes → List Alias → List Alias × ℤ → Type 0
Added name value t (t', pos n) =
    (n ≡ 0)
    × IsTable t'
    × ((other : Bytes)
        → IsText other
        → find_alias other t' ≡ (if same_name name other then some value else find_alias other t))
Added name value t (t', negsuc n) =
    (n ≡ 0) × (t' ≡ t) × (length t ≡ max_aliases) × (find_alias name t ≡ none)

stored-Added :
    (name value : Bytes) (t : List Alias) (r : Option (List Alias))
    → IsText name
    → IsTable t
    → replace name value t ≡ r
    → Added name value t (store_alias name value t r)
stored-Added name value t (some t') h v found =
    let (same, long) = names_of-replace name value t t' found in
    (
      refl,
      record {
        texts = rw same v.texts;
        distinct = rw same v.distinct;
        bounded = omega (arith, v.bounded, long);
      },
      λ other k. find_alias-replace name value other t t' h k v.texts found,
    )
stored-Added name value t none h v miss =
    let fresh = replace-none name value t miss in
    elim (Bool-cases (ltb (length t) max_aliases)) [
      | inl room ↦
          rw (room, store_alias)
            (
              refl,
              record {
                texts =
                    rw names_of-append (All-append IsText (names_of t) (name ∷ []) v.texts (h, tt));
                distinct = rw names_of-append (Distinct-snoc (names_of t) name v.distinct fresh);
                bounded =
                    let less : length t < max_aliases = ground arith in
                    omega (arith, length-append {0} t (record { name = name; value = value } ∷ []));
              },
              λ other k. find_alias-snoc name value other t h k fresh,
            )
      | inr full ↦
          rw (full, store_alias)
            (refl, refl, ground (arith, v.bounded), find_alias-Fresh name t fresh)
    ]

-- On a well-formed table `add_alias` either returns 0, and then the new table is well formed, finds
-- the value under the name and everything else as before, or it returns -1, and then the table is
-- unchanged, full and has no such name.
pub add_alias-Added :
    (name value : Bytes) (t : List Alias)
    → IsText name
    → IsTable t
    → Added name value t (add_alias name value t)
unfolding add_alias
add_alias-Added name value t h v = stored-Added name value t (replace name value t) h v refl

-- What `remove_alias` promises, with the same two results.
abbrev pub Removed : Bytes → List Alias → List Alias × ℤ → Type 0
Removed name t (t', pos n) =
    (n ≡ 0)
    × IsTable t'
    × (suc (length t') ≡ length t)
    × ((other : Bytes)
        → IsText other
        → find_alias other t' ≡ (if same_name name other then none else find_alias other t))
Removed name t (t', negsuc n) = (n ≡ 0) × (t' ≡ t) × (find_alias name t ≡ none)

remove_keeps :
    (P : Bytes → Type 0) (name : Bytes) (t : List Alias)
    → All P (names_of t)
    → All P (names_of (remove_alias name t).0)
unfolding remove_alias
remove_keeps P name [] h = tt
remove_keeps P name (a ∷ rest) h = elim (Bool-cases (same_name a.name name)) [
  | inl hit ↦ rw hit h.1
  | inr miss ↦ rw miss (h.0, remove_keeps P name rest h.1)
]

Removed-hit :
    (name : Bytes) (a : Alias) (rest : List Alias)
    → IsText name
    → IsTable (a ∷ rest)
    → same_name a.name name ≡ true
    → Removed name (a ∷ rest) (rest, pos 0)
unfolding find_alias
Removed-hit name a rest h v hit =
    let gone = find_alias-Fresh a.name rest v.distinct.0 in
    let same = same_name→eq a.name name v.texts.0 h hit in
    (
      refl,
      record { texts = v.texts.1; distinct = v.distinct.1; bounded = omega (arith, v.bounded) },
      refl,
      λ other k. ground (
        arith,
        gone,
        same,
        hit,
        same_name→eq name other h k,
        same_name→eq a.name other v.texts.0 k,
      ),
    )

Removed-miss :
    (name : Bytes) (a : Alias) (rest : List Alias) (r : List Alias × ℤ)
    → IsText name
    → IsTable (a ∷ rest)
    → same_name a.name name ≡ false
    → Fresh a.name (names_of r.0)
    → Removed name rest r
    → Removed name (a ∷ rest) (a ∷ r.0, r.1)
unfolding find_alias
Removed-miss name a rest (t', pos n) h v miss fresh (is_zero, ok, len, finds) = (
  is_zero,
  record {
    texts = (v.texts.0, ok.texts);
    distinct = (fresh, ok.distinct);
    bounded = omega (arith, v.bounded);
  },
  omega arith,
  λ other k. ground (
    arith,
    finds other k,
    miss,
    same_name→eq name other h k,
    same_name→eq a.name other v.texts.0 k,
    same_name_refl name,
  ),
)
Removed-miss name a rest (t', negsuc n) h v miss fresh (is_zero, same, gone) =
    (is_zero, ap (◌∷◌ a) same, ground arith)

tail-IsTable : (a : Alias) (rest : List Alias) → IsTable (a ∷ rest) → IsTable rest
tail-IsTable a rest v = record {
  texts = v.texts.1;
  distinct = v.distinct.1;
  bounded = omega (arith, v.bounded);
}

remove_hit :
    (name : Bytes) (a : Alias) (rest : List Alias)
    → same_name a.name name ≡ true
    → remove_alias name (a ∷ rest) ≡ (rest, pos 0)
unfolding remove_alias
remove_hit name a rest e = rw e

remove_miss :
    (name : Bytes) (a : Alias) (rest : List Alias)
    → same_name a.name name ≡ false
    → remove_alias name (a ∷ rest) ≡ (a ∷ (remove_alias name rest).0, (remove_alias name rest).1)
unfolding remove_alias
remove_miss name a rest e = rw e

-- On a well-formed table `remove_alias` either returns 0, and then the new table is well formed, one
-- entry shorter, no longer finds the name and finds every other name as before, or it returns -1,
-- and then the table is unchanged and had no such name.
pub remove_alias-Removed :
    (name : Bytes) (t : List Alias) → IsText name → IsTable t → Removed name t (remove_alias name t)
unfolding remove_alias find_alias
remove_alias-Removed name [] h v = (refl, refl, refl)
remove_alias-Removed name (a ∷ rest) h v = elim (Bool-cases (same_name a.name name)) [
  | inl hit ↦
      subst (Removed name (a ∷ rest)) (sym (remove_hit name a rest hit))
        (Removed-hit name a rest h v hit)
  | inr miss ↦ subst (Removed name (a ∷ rest)) (sym (remove_miss name a rest miss)) (
      Removed-miss name a rest (remove_alias name rest) h v miss
        (remove_keeps (λ n. same_name n a.name ≡ false) name rest v.distinct.0)
        (remove_alias-Removed name rest h (tail-IsTable a rest v)))
]
