-- ===== src/Calendar/Boundary.antt =====
-- `find_next_boundary`: the first day that is not skipped, within the range of the registry's data.
use las_shell.Prelude.{
  ℕ, ◌+◌, ◌<◌, ◌≤◌, ◌≡◌, ◌≢◌, Bool, true, false, Option, none, some, [], ◌⊎◌, Ordering,
  if◌then◌else◌,
}
use las_shell.CString.Libc.{strcmp}
use las_shell.Calendar.Date.{Date, add_days, format_date}
use las_shell.Calendar.Exchange.{Exchange}
use las_shell.Calendar.Trading.{ClosesAt, Closed}
use las_shell.Calendar.Query.{compute_day_schedule, LocalTime, target_min, is_past, is_skipped}

abbrev past_at : Exchange → LocalTime → ℕ → Bool
past_at ex now k = is_past (format_date (add_days now.date k)) ex.gen_range_end

-- Every day from `step` up to `k` days on is within the data and is skipped.
abbrev SkippedUpTo : Exchange → Bool → LocalTime → ℕ → ℕ → Type 0
SkippedUpTo ex want_open now step k =
    (j : ℕ) → step ≤ j → j < k → (past_at ex now j ≡ false) × (is_skipped ex want_open now j ≡ true)

-- What the search from `step` on with `left` rounds gives.
abbrev Searched : Exchange → Bool → LocalTime → ℕ → ℕ → Option LocalTime → Type 0
Searched ex want_open now left step (some at) =
    (k : ℕ) × (at.date ≡ add_days now.date k)
    × (at.minute ≡ target_min ex want_open (compute_day_schedule ex (add_days now.date k)))
    × (step ≤ k)
    × (k < step + left)
    × (past_at ex now k ≡ false)
    × (is_skipped ex want_open now k ≡ false)
    × SkippedUpTo ex want_open now step k
Searched ex want_open now left step none =
    (k : ℕ) × (step ≤ k)
    × (k ≤ step + left)
    × ((k ≡ step + left) ⊎ (past_at ex now k ≡ true))
    × SkippedUpTo ex want_open now step k

-- The exchange has data up to a day, and the day is behind it.
abbrev pub PastData : Exchange → Date → Type 0
PastData ex d = (ex.gen_range_end ≢ []) × (strcmp (format_date d) ex.gen_range_end ≡ Ordering.gt)

-- The minute that is looked for on a day with this close.
abbrev pub minute_of : Exchange → Bool → ℕ → ℕ
minute_of ex want_open close = if want_open then ex.regular_open_min else close

-- Why day `j` is not the one: the exchange does not trade on it, or it is today and the time has come.
abbrev pub PassedOver : Exchange → Bool → LocalTime → ℕ → Type 0
PassedOver ex want_open now j =
    Closed ex (add_days now.date j)
    ⊎ ((j ≡ 0)
        × ((close : ℕ) × ClosesAt ex now.date close × (minute_of ex want_open close ≤ now.minute)))

-- Every day before day `k` is within the data and is passed over.
abbrev pub PassedUpTo : Exchange → Bool → LocalTime → ℕ → Type 0
PassedUpTo ex want_open now k =
    (j : ℕ) → j < k → (PastData ex (add_days now.date j) → ⊥) × PassedOver ex want_open now j

-- The next open or close among today and the 400 days behind it.
abbrev pub NextBoundary : Exchange → Bool → LocalTime → Option LocalTime → Type 0
NextBoundary ex want_open now (some at) =
    (k : ℕ) × (close : ℕ) × (k ≤ 400)
    × (at.date ≡ add_days now.date k)
    × (at.minute ≡ minute_of ex want_open close)
    × ClosesAt ex at.date close
    × (PastData ex at.date → ⊥)
    × (k ≡ 0 → now.minute < at.minute)
    × PassedUpTo ex want_open now k
NextBoundary ex want_open now none =
    (k : ℕ) × (k ≤ 401)
    × ((k ≡ 401) ⊎ PastData ex (add_days now.date k))
    × PassedUpTo ex want_open now k
