-- ===== src/Calendar/Change.antt =====
-- `calendar_minutes_until_change`: nothing changes before the reported minute.
use las_shell.Prelude.{
  ℕ, zero, suc, ◌+◌, ◌-◌, ◌*◌, ◌<◌, ◌≤◌, ◌≡◌, refl, true, false, ◌&&◌, Option, none, some, List, [],
  ◌∷◌, ◌++◌, leb, ltb, arith, All, Bool-cases, ◌⊎◌, inl, inr,
}
use las_shell.Calendar.Date.{Date, add_days}
use las_shell.Calendar.Exchange.{Exchange}
use las_shell.Calendar.Query.{
  DaySchedule, compute_day_schedule, in_session, status_at, LocalTime, session_bounds, boundaries,
  best_from, first_boundary, roll_forward, minutes_until_change, or_roll,
}

-- No boundary of the list lies behind `cur` and at or before `t`.
abbrev pub Quiet : ℕ → ℕ → List ℕ → Type 0
Quiet cur t = All (λ b. (b ≤ cur) ⊎ (t < b))

in_session-Quiet :
    (o : Option (ℕ × ℕ)) (cur t : ℕ)
    → cur ≤ t
    → Quiet cur t (session_bounds o)
    → in_session o t ≡ in_session o cur
in_session-Quiet none cur t l q = refl
in_session-Quiet (some (from, until)) cur t l q = ground arith

Quiet-left : (cur t : ℕ) (xs ys : List ℕ) → Quiet cur t (xs ++ ys) → Quiet cur t xs × Quiet cur t ys
Quiet-left cur t [] ys q = (tt, q)
Quiet-left cur t (x ∷ xs) ys q = let (a, b) = Quiet-left cur t xs ys q.1 in ((q.0, a), b)

status_at-Quiet :
    (ex : Exchange) (sched : DaySchedule) (cur t : ℕ)
    → cur ≤ t
    → Quiet cur t (boundaries ex sched)
    → status_at ex sched t ≡ status_at ex sched cur
unfolding boundaries status_at
status_at-Quiet ex sched cur t l q =
    let (pre, rest) = Quiet-left cur t (session_bounds ex.pre) _ q in
    let (lunch, (opens, (closes, after))) = Quiet-left cur t (session_bounds ex.lunch) _ rest in
    let a = in_session-Quiet ex.pre cur t l pre in
    let b = in_session-Quiet ex.lunch cur t l lunch in
    let c = in_session-Quiet ex.after cur t l after in
    let d : (leb ex.regular_open_min t && ltb t sched.effective_close_min)
        ≡ (leb ex.regular_open_min cur && ltb cur sched.effective_close_min) =
      ground (arith, opens, closes) in
    rw (a, b, c, d) refl

-- What the loop returns: a boundary above `cur` with none between, or the news that none is above it.
abbrev Least : ℕ → Option ℕ → List ℕ → Type 0
Least cur none bs = All (λ b. b ≤ cur) bs
Least cur (some best) bs = (cur < best) × All (λ b. (b ≤ cur) ⊎ (best ≤ b)) bs

-- The list with what was kept so far.
abbrev with_best : Option ℕ → List ℕ → List ℕ
with_best none bs = bs
with_best (some best) bs = best ∷ bs

abbrev Above : ℕ → Option ℕ → Type 0
Above cur none = Unit
Above cur (some best) = cur < best

Least-cons :
    (cur c : ℕ) (r : Option ℕ) (bs : List ℕ) → c ≤ cur → Least cur r bs → Least cur r (c ∷ bs)
Least-cons cur c none bs l h = (l, h)
Least-cons cur c (some best) bs l h = (h.0, (inl l, h.1))

Least-front :
    (cur b c : ℕ) (r : Option ℕ) (bs : List ℕ)
    → cur < c
    → c < b
    → Least cur r (c ∷ bs)
    → Least cur r (b ∷ c ∷ bs)
Least-front cur b c none bs l m h = absurd (omega (arith, h.0))
Least-front cur b c (some best) bs l m h = (h.0, (inr (ground (arith, h.1.0)), h.1))

Least-second :
    (cur b c : ℕ) (r : Option ℕ) (bs : List ℕ)
    → cur < b
    → (ltb cur c && ltb c b) ≡ false
    → Least cur r (b ∷ bs)
    → Least cur r (b ∷ c ∷ bs)
Least-second cur b c none bs l m h = absurd (omega (arith, h.0))
Least-second cur b c (some best) bs l m h = (h.0, (h.1.0, (ground (arith, h.1.0), h.1.1)))

best_from-Least :
    (cur : ℕ) (best : Option ℕ) (bs : List ℕ)
    → Above cur best
    → Least cur (best_from cur best bs) (with_best best bs)
unfolding best_from
best_from-Least cur none [] h = tt
best_from-Least cur (some b) [] h = (h, (inr (omega arith), tt))
best_from-Least cur none (c ∷ bs) h = elim (Bool-cases (ltb cur c)) [
  | inl above ↦ rw above (best_from-Least cur (some c) bs (ground arith))
  | inr below ↦
      rw below (
        Least-cons cur c (best_from cur none bs) bs (ground arith) (best_from-Least cur none bs tt))
]
best_from-Least cur (some b) (c ∷ bs) h = elim (Bool-cases (ltb cur c && ltb c b)) [
  | inl nearer ↦
      let l : cur < c = ground arith in
      let m : c < b = ground arith in
      rw nearer
        (Least-front cur b c (best_from cur (some c) bs) bs l m (best_from-Least cur (some c) bs l))
  | inr other ↦ rw other (
      Least-second cur b c (best_from cur (some b) bs) bs h other
        (best_from-Least cur (some b) bs h))
]

Quiet-none : (cur t : ℕ) (bs : List ℕ) → Least cur none bs → Quiet cur t bs
Quiet-none cur t [] h = tt
Quiet-none cur t (b ∷ bs) h = (inl h.0, Quiet-none cur t bs h.1)

Quiet-some :
    (cur t best : ℕ) (bs : List ℕ)
    → t < best
    → All (λ b. (b ≤ cur) ⊎ (best ≤ b)) bs
    → Quiet cur t bs
Quiet-some cur t best [] l h = tt
Quiet-some cur t best (b ∷ bs) l h = (ground (arith, h.0), Quiet-some cur t best bs l h.1)

-- What the two branches of the function make of the least boundary.
Quiet-until :
    (cur m t : ℕ) (today later : Option ℕ) (bs : List ℕ)
    → Least cur today bs
    → or_roll today cur later ≡ some m
    → t < cur + m
    → Quiet cur t bs
Quiet-until cur m t none later bs h e l = Quiet-none cur t bs h
Quiet-until cur m t (some best) later bs h e l =
    let same : best - cur ≡ m = ground arith in Quiet-some cur t best bs (omega (arith, h.0)) h.1

closed_day :
    (ex : Exchange) (sched : DaySchedule) (t cur : ℕ)
    → sched.is_full_holiday ≡ true
    → status_at ex sched t ≡ status_at ex sched cur
unfolding status_at
closed_day ex sched t cur h = rw h refl

-- From now until `m` minutes from now, as long as the day lasts, the exchange keeps the status that it
-- has now, where `m` is the reported time until a change.
pub minutes_until_change_steady :
    (ex : Exchange) (now : LocalTime) (m t : ℕ)
    → minutes_until_change ex now ≡ some m
    → now.minute ≤ t
    → t < now.minute + m
    → status_at ex (compute_day_schedule ex now.date) t
      ≡ status_at ex (compute_day_schedule ex now.date) now.minute
unfolding minutes_until_change
minutes_until_change_steady ex now m t e l h =
    let sched = compute_day_schedule ex now.date in
    elim (Bool-cases sched.is_full_holiday) [
      | inl holiday ↦ closed_day ex sched t now.minute holiday
      | inr trading ↦
          let today = best_from now.minute none (boundaries ex sched) in
          let later = roll_forward 30 ex now.date 0 (1440 - now.minute) in
          let found : or_roll today now.minute later ≡ some m = rw trading at e in
          status_at-Quiet ex sched now.minute t l (
            Quiet-until now.minute m t today later (boundaries ex sched)
              (best_from-Least now.minute none (boundaries ex sched) tt) found h)
    ]

-- Every one of the first `k` days behind `date` is a holiday.
abbrev pub Holidays : Exchange → Date → ℕ → Type 0
Holidays ex date k =
    (j : ℕ) → j < k → (compute_day_schedule ex (add_days date (suc j))).is_full_holiday ≡ true

-- Where the roll to the next trading day ends.
abbrev pub Rolled : ℕ → Exchange → Date → ℕ → ℕ → Option ℕ → Type 0
Rolled left ex date passed until_midnight none = Holidays ex date left
Rolled left ex date passed until_midnight (some m) =
    (k : ℕ) × (k < left)
    × Holidays ex date k
    × ((compute_day_schedule ex (add_days date (suc k))).is_full_holiday ≡ false)
    × (m ≡ until_midnight + (passed + k) * 1440 + first_boundary ex)

Holidays-cons :
    (ex : Exchange) (date : Date) (k : ℕ)
    → (compute_day_schedule ex (add_days date 1)).is_full_holiday ≡ true
    → Holidays ex (add_days date 1) k
    → Holidays ex date (suc k)
unfolding add_days
Holidays-cons ex date k h more zero l = h
Holidays-cons ex date k h more (suc j) l = more j (omega arith)

Rolled-cons :
    (left : ℕ) (ex : Exchange) (date : Date) (passed until_midnight : ℕ) (r : Option ℕ)
    → (compute_day_schedule ex (add_days date 1)).is_full_holiday ≡ true
    → Rolled left ex (add_days date 1) (passed + 1) until_midnight r
    → Rolled (suc left) ex date passed until_midnight r
unfolding add_days
Rolled-cons left ex date passed u none h r = Holidays-cons ex date left h r
Rolled-cons left ex date passed u (some m) h (k, l, more, trading, e) =
    (suc k, omega arith, Holidays-cons ex date k h more, trading, grind arith)

-- With `left` days behind `date` to look at, `roll_forward` finds the first of them that is no
-- holiday and gives the minutes until midnight, plus a whole day for each day passed before, plus
-- that exchange's first boundary; it gives none only when all of them are holidays.
pub roll_forward-Rolled :
    (left : ℕ) (ex : Exchange) (date : Date) (passed until_midnight : ℕ)
    → Rolled left ex date passed until_midnight (roll_forward left ex date passed until_midnight)
unfolding roll_forward
roll_forward-Rolled zero ex date passed u = λ j l. absurd (omega arith)
roll_forward-Rolled (suc left) ex date passed u =
    elim (Bool-cases (compute_day_schedule ex (add_days date 1)).is_full_holiday) [
      | inl holiday ↦
          rw (holiday, Rolled)
            (Rolled-cons left ex date passed u _ holiday
              (roll_forward-Rolled left ex (add_days date 1) (passed + 1) u))
      | inr trading ↦
          rw (trading, Rolled) (0, omega arith, (λ j l. absurd (omega arith)), trading, omega arith)
    ]
