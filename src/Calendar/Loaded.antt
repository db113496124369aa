-- ===== src/Calendar/Loaded.antt =====
-- What holds of every exchange that was loaded, and of the registry after `calendar_init`.
use las_shell.Prelude.{
  ℕ, zero, suc, ◌<◌, ◌≤◌, ◌≡◌, refl, subst, Bytes, codes, length, drop, Option, none, some, List,
  [], ◌∷◌, ◌++◌, leb, ltb, arith, All, All-append, Bool-cases, inl, inr, length-append, ◌>>=◌,
  >>=-eq-some,
}
use las_shell.Registry.Json.{next_array_object, extract_str, extract_block}
use las_shell.Registry.Sort.{Sorted, qsort_by-Sorted}
use las_shell.Calendar.Exchange.{HolidayEntry, Exchange}
use las_shell.Calendar.Load.{
  field, holiday_of, add_holiday, put_unless_empty, each_object, parse_holiday_array,
}
use las_shell.Calendar.Init.{
  max_exchanges, regular_hours, sub_block, lunch_of, build, build_with_hours, load_coded,
  load_one_exchange, merged_holidays,
}
use las_shell.Calendar.Holidays.{date_of, IsCalendar, put_holiday-IsCalendar}

some-inj {ℓ} : {A : Type ℓ} (a b : A) → some a ≡ some b → a ≡ b
some-inj a b e = cc

each_step {ℓ} :
    {S : Type ℓ} (P : S → Type 0) (s s' : S) (o : Option Bytes) (k : Bytes → Option S)
    → P s
    → ((obj : Bytes) → k obj ≡ some s' → P s')
    → ◌≡◌ {A = Option S} (elim o [ none ↦ some s | some obj ↦ k obj ]) (some s')
    → P s'
each_step P s s' none k h f e = subst P (some-inj s s' e) h
each_step P s s' (some obj) k h f e = f obj e

each_object_inv {ℓ} :
    {S : Type ℓ} (P : S → Type 0) (body : S → Bytes → S)
    → ((s : S) (obj : Bytes) → P s → P (body s obj))
    → (fuel : ℕ) (s s' : S) (cursor : Bytes) → P s
    → each_object body fuel s cursor ≡ some s'
    → P s'
unfolding each_object
each_object_inv P body keep zero s s' cursor h e = ground arith
each_object_inv P body keep (suc fuel) s s' cursor h e =
    let (r, found, later) = >>=-eq-some (next_array_object cursor) _ e in
    each_step P s s' r.0 (λ obj. each_object body fuel (body s obj) r.1) h
      (λ obj p. each_object_inv P body keep fuel (body s obj) s' r.1 (keep s obj h) p) later

put_unless_empty-IsCalendar :
    (date : Bytes) (e : HolidayEntry) (hs : List HolidayEntry)
    → IsCalendar hs
    → IsCalendar (put_unless_empty date e hs)
put_unless_empty-IsCalendar [] e hs v = v
put_unless_empty-IsCalendar (c ∷ cs) e hs v = put_holiday-IsCalendar e hs v

add_holiday-IsCalendar :
    (hs : List HolidayEntry) (obj : Bytes) → IsCalendar hs → IsCalendar (add_holiday hs obj)
unfolding add_holiday
add_holiday-IsCalendar hs obj v =
    put_unless_empty-IsCalendar (holiday_of obj).date (holiday_of obj) hs v

-- Reading an array of holidays into a list keeps one entry for each date and at most 128 of them.
pub parse_holiday_array-IsCalendar :
    (hs hs' : List HolidayEntry) (arr : Option Bytes)
    → IsCalendar hs
    → parse_holiday_array hs arr ≡ some hs'
    → IsCalendar hs'
unfolding parse_holiday_array
parse_holiday_array-IsCalendar hs hs' none v e = subst IsCalendar (some-inj hs hs' e) v
parse_holiday_array-IsCalendar hs hs' (some arr) v e =
    each_object_inv IsCalendar add_holiday add_holiday-IsCalendar (suc (length arr)) hs hs'
      (drop 1 arr) v e

-- The holidays of an exchange are sorted by date, with no date twice.
abbrev pub IsSorted : Exchange → Type 0
IsSorted ex = Sorted date_of ex.holidays

no_holidays : IsCalendar []
no_holidays = record { unique = tt; bounded = omega arith }

-- What a result that was reached satisfies.
abbrev pub Yields {ℓ} : {A : Type ℓ} → (A → Type 0) → Option A → Type 0
Yields P none = Unit
Yields P (some a) = P a

pub Yields-bind {ℓ κ} :
    {A : Type ℓ} {B : Type κ} (P : B → Type 0) (m : Option A) (f : A → Option B)
    → ((a : A) → m ≡ some a → Yields P (f a))
    → Yields P (m >>= f)
Yields-bind P none f h = tt
Yields-bind P (some a) f h = h a refl

pub Yields-eq {ℓ} :
    {A : Type ℓ} (P : A → Type 0) (m : Option A) → ((a : A) → m ≡ some a → P a) → Yields P m
Yields-eq P none h = tt
Yields-eq P (some a) h = h a refl

merged_holidays-IsCalendar : (obj : Bytes) → Yields IsCalendar (merged_holidays obj)
unfolding merged_holidays
merged_holidays-IsCalendar obj =
    Yields-bind IsCalendar (extract_block obj (codes "holidays")) _ λ hol _.
      Yields-bind IsCalendar (sub_block hol (codes "explicit")) _ λ explicit_arr _.
        Yields-bind IsCalendar (sub_block hol (codes "generated")) _ λ generated_arr _.
          Yields-bind IsCalendar (parse_holiday_array [] explicit_arr) _ λ h₁ p₁.
            Yields-bind IsCalendar (parse_holiday_array h₁ generated_arr) _ λ h₂ p₂.
              Yields-bind IsCalendar (extract_block obj (codes "ad_hoc_closures")) _ λ adhoc _.
                let v₁ = parse_holiday_array-IsCalendar [] h₁ explicit_arr no_holidays p₁ in
                let v₂ = parse_holiday_array-IsCalendar h₁ h₂ generated_arr v₁ p₂ in
                Yields-eq IsCalendar (parse_holiday_array h₂ adhoc)
                  (λ h₃ p₃. parse_holiday_array-IsCalendar h₂ h₃ adhoc v₂ p₃)

build-IsSorted :
    (code timezone : Bytes) (hours : ℕ × ℕ) (obj : Bytes)
    → Yields IsSorted (build code timezone hours obj)
build-IsSorted code timezone (opens, closes) obj =
    Yields-bind IsSorted (extract_block obj (codes "extended_hours")) _ λ xh _.
      Yields-bind IsSorted (sub_block xh (codes "pre_market")) _ λ pm _.
        Yields-bind IsSorted (sub_block xh (codes "after_hours")) _ λ ah _.
          Yields-bind IsSorted (extract_block obj (codes "sessions")) _ λ sessions _.
            Yields-bind IsSorted (lunch_of sessions) _ λ lunch _.
              Yields-bind IsSorted (merged_holidays obj) _ λ hs merged.
                Yields-bind IsSorted (extract_block obj (codes "generation_range")) _ λ gr _.
                  qsort_by-Sorted date_of hs
                    (subst (Yields IsCalendar) merged (merged_holidays-IsCalendar obj)).unique

-- The table of exchanges: within the array, and each exchange with sorted holidays.
abbrev pub Good : List Exchange → Type 0
Good xs = All IsSorted xs × (length xs ≤ max_exchanges)

Good-snoc :
    (xs : List Exchange) (ex : Exchange)
    → Good xs
    → length xs < max_exchanges
    → IsSorted ex
    → Good (xs ++ (ex ∷ []))
Good-snoc xs ex g room h =
    (All-append IsSorted xs (ex ∷ []) g.0 (h, tt), omega (arith, length-append {0} xs (ex ∷ [])))

built-Good :
    (code timezone : Bytes) (hours : Option (ℕ × ℕ)) (obj : Bytes) (xs : List Exchange)
    → Good xs
    → length xs < max_exchanges
    → Yields Good (build_with_hours code timezone hours obj xs)
built-Good code timezone none obj xs g room = g
built-Good code timezone (some hours) obj xs g room =
    Yields-bind Good (build code timezone hours obj) _ λ ex made.
      Good-snoc xs ex g room (subst (Yields IsSorted) made (build-IsSorted code timezone hours obj))

coded-Good :
    (code : Option Bytes) (obj : Bytes) (xs : List Exchange)
    → Good xs
    → length xs < max_exchanges
    → Yields Good (load_coded code obj xs)
coded-Good none obj xs g room = g
coded-Good (some code) obj xs g room =
    elim (Bool-cases (ltb 0 (length (field obj (codes "timezone") 64)))) [
      | inl zone ↦
          rw (zone, load_coded)
            (Yields-bind Good (extract_block obj (codes "regular_hours")) _ λ rh _.
              built-Good code (field obj (codes "timezone") 64) (regular_hours rh) obj xs g room)
      | inr nowhere ↦ rw (nowhere, load_coded) g
    ]

pub load_one_exchange-Good :
    (xs : List Exchange) (obj : Bytes) → Good xs → Yields Good (load_one_exchange xs obj)
unfolding load_one_exchange
load_one_exchange-Good xs obj g = elim (Bool-cases (leb max_exchanges (length xs))) [
  | inl full ↦ rw full g
  | inr room ↦ rw room (coded-Good (extract_str obj (codes "code") 8) obj xs g (ground arith))
]
