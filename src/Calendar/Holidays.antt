-- ===== src/Calendar/Holidays.antt =====
-- The merged list of holidays: one entry for each date, the entry that was read last.
use las_shell.Prelude.{
  suc, ◌<◌, ◌≤◌, ◌≡◌, refl, ap, subst, Bytes, length, true, false, Option, some, List, [], ◌∷◌,
  ◌++◌, leb, if◌then◌else◌, arith, All-append, Bool-cases, ◌⊎◌, inl, inr, length-append,
}
use las_shell.CString.Libc.{str_eq, str_eq_iff}
use las_shell.Registry.Sort.{find_key, Unique, Fresh}
use las_shell.Calendar.Exchange.{HolidayEntry}
use las_shell.Calendar.Load.{max_holidays, has_date, replace_holiday, put_holiday}

abbrev pub date_of : HolidayEntry → Bytes
date_of h = h.date

abbrev pub find_date : Bytes → List HolidayEntry → Option HolidayEntry
find_date = find_key date_of

-- One entry for each date, in an array that is not overrun.
pub record IsCalendar (hs : List HolidayEntry) : Type 0 where
  pub unique : Unique date_of hs
  pub bounded : length hs ≤ max_holidays

has_date-Fresh : (d : Bytes) (hs : List HolidayEntry) → has_date d hs ≡ false → Fresh date_of d hs
has_date-Fresh d [] h = tt
has_date-Fresh d (x ∷ hs) h = (ground arith, has_date-Fresh d hs (ground arith))

find_date-replace :
    (e : HolidayEntry) (d : Bytes) (hs : List HolidayEntry)
    → has_date e.date hs ≡ true
    → find_date d (replace_holiday e hs) ≡ (if str_eq e.date d then some e else find_date d hs)
unfolding replace_holiday find_key
find_date-replace e d [] h = ground arith
find_date-replace e d (x ∷ hs) h = ground (
  arith,
  find_date-replace e d hs,
  str_eq_iff x.date e.date,
  str_eq_iff x.date d,
  str_eq_iff e.date d,
)

find_date-snoc :
    (e : HolidayEntry) (d : Bytes) (hs : List HolidayEntry)
    → has_date e.date hs ≡ false
    → find_date d (hs ++ (e ∷ [])) ≡ (if str_eq e.date d then some e else find_date d hs)
unfolding find_key
find_date-snoc e d [] h = refl
find_date-snoc e d (x ∷ hs) h = ground (
  arith,
  find_date-snoc e d hs,
  str_eq_iff x.date e.date,
  str_eq_iff x.date d,
  str_eq_iff e.date d,
)

-- Putting an entry into the list makes it the entry of its date, in place of an older one, and leaves
-- the other dates alone; only an entry with a new date is dropped, when the list is full.
pub put_holiday-find :
    (e : HolidayEntry) (d : Bytes) (hs : List HolidayEntry)
    → ((has_date e.date hs ≡ true) ⊎ (length hs < max_holidays)
        → find_date d (put_holiday e hs) ≡ (if str_eq e.date d then some e else find_date d hs))
      × (has_date e.date hs ≡ false → max_holidays ≤ length hs → put_holiday e hs ≡ hs)
unfolding put_holiday
put_holiday-find e d hs = elim (Bool-cases (has_date e.date hs)) [
  | inl old ↦ ((λ h. rw old (find_date-replace e d hs old)), (λ h k. ground arith))
  | inr new ↦ (
    (λ h.
        let room : leb max_holidays (length hs) ≡ false = ground arith in
        rw (new, room) (find_date-snoc e d hs new)),
    (λ h k. let full : leb max_holidays (length hs) ≡ true = ground arith in rw (new, full) refl),
  )
]

replace_holiday-Fresh :
    (e : HolidayEntry) (d : Bytes) (hs : List HolidayEntry)
    → Fresh date_of d hs
    → str_eq e.date d ≡ false
    → Fresh date_of d (replace_holiday e hs)
unfolding replace_holiday
replace_holiday-Fresh e d [] h k = tt
replace_holiday-Fresh e d (x ∷ hs) h k = elim (Bool-cases (str_eq x.date e.date)) [
  | inl hit ↦ rw hit (k, h.1)
  | inr miss ↦ rw miss (h.0, replace_holiday-Fresh e d hs h.1 k)
]

replace_holiday-Unique :
    (e : HolidayEntry) (hs : List HolidayEntry)
    → Unique date_of hs
    → Unique date_of (replace_holiday e hs) × (length (replace_holiday e hs) ≡ length hs)
unfolding replace_holiday
replace_holiday-Unique e [] h = (tt, refl)
replace_holiday-Unique e (x ∷ hs) h =
    let (u, l) = replace_holiday-Unique e hs h.1 in
    elim (Bool-cases (str_eq x.date e.date)) [
      | inl hit ↦
          rw hit
            ((subst (λ d. Fresh date_of d hs) ((str_eq_iff x.date e.date).0 hit) h.0, h.1), refl)
      | inr miss ↦
          let ne : str_eq e.date x.date ≡ false =
            ground (arith, str_eq_iff x.date e.date, str_eq_iff e.date x.date) in
          rw miss ((replace_holiday-Fresh e x.date hs h.0 ne, u), ap suc l)
    ]

Unique-snoc :
    (e : HolidayEntry) (hs : List HolidayEntry)
    → Unique date_of hs
    → Fresh date_of e.date hs
    → Unique date_of (hs ++ (e ∷ []))
Unique-snoc e [] h f = (tt, tt)
Unique-snoc e (x ∷ hs) h f =
    let ne : str_eq e.date x.date ≡ false =
      ground (arith, f.0, str_eq_iff x.date e.date, str_eq_iff e.date x.date) in
    (
      All-append (λ y. str_eq y.date x.date ≡ false) hs (e ∷ []) h.0 (ne, tt),
      Unique-snoc e hs h.1 f.1,
    )

pub put_holiday-IsCalendar :
    (e : HolidayEntry) (hs : List HolidayEntry) → IsCalendar hs → IsCalendar (put_holiday e hs)
unfolding put_holiday
put_holiday-IsCalendar e hs v = elim (Bool-cases (has_date e.date hs)) [
  | inl old ↦
      let (u, l) = replace_holiday-Unique e hs v.unique in
      rw old (record { unique = u; bounded = omega (arith, l, v.bounded) })
  | inr new ↦ elim (Bool-cases (leb max_holidays (length hs))) [
    | inl full ↦ rw (new, full) v
    | inr room ↦
        let less : length hs < max_holidays = ground arith in
        rw (new, room)
          (record {
            unique = Unique-snoc e hs v.unique (has_date-Fresh e.date hs new);
            bounded = omega (arith, length-append {0} hs (e ∷ []));
          })
  ]
]
