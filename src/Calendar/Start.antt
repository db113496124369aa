-- ===== src/Calendar/Start.antt =====
-- The registry behind `calendar_init`, and the fuel of the loading loops.
use las_shell.Prelude.{
  ℕ, zero, suc, ◌<◌, ◌≡◌, refl, subst, Bytes, codes, length, drop, Bool, true, Option, none, some,
  List, [], ◌∷◌, ltb, arith, Bool-cases, inl, inr,
}
use las_shell.Registry.Json.{next_array_object, extract_block}
use las_shell.Registry.Search.{binary_search-find_key}
use las_shell.Calendar.Exchange.{Exchange, Registry, find_holiday}
use las_shell.Calendar.Init.{
  max_exchanges, load_one_exchange, load_exchanges, load_array, load_from_file, try_files,
  calendar_init,
}
use las_shell.Calendar.Holidays.{date_of, find_date}
use las_shell.Calendar.Loaded.{IsSorted, Good, Yields, Yields-bind, load_one_exchange-Good}

Yields-elim :
    (xs : List Exchange) (o : Option Bytes) (k : Bytes → Option (List Exchange))
    → Good xs
    → ((obj : Bytes) → Yields Good (k obj))
    → Yields Good (elim o [ none ↦ some xs | some obj ↦ k obj ])
Yields-elim xs none k h f = h
Yields-elim xs (some obj) k h f = f obj

load_exchanges-Good :
    (fuel : ℕ) (xs : List Exchange) (cursor : Bytes)
    → Good xs
    → Yields Good (load_exchanges fuel xs cursor)
unfolding load_exchanges
load_exchanges-Good zero xs cursor g = tt
load_exchanges-Good (suc fuel) xs cursor g = elim (Bool-cases (ltb (length xs) max_exchanges)) [
  | inr full ↦ rw full g
  | inl room ↦ rw room (
      Yields-bind Good (next_array_object cursor) _ λ r _. Yields-elim xs r.0 _ g (λ obj.
        Yields-bind Good (load_one_exchange xs obj) _ λ xs' p.
          load_exchanges-Good fuel xs' r.1
            (subst (Yields Good) p (load_one_exchange-Good xs obj g))))
]

-- A loaded registry with at least one exchange.
pub record IsReady (r : Registry) : Type 0 where
  pub is_loaded : r.loaded ≡ true
  pub some_exchange : 0 < length r.exchanges
  pub good : Good r.exchanges

-- What one file leaves behind.
abbrev Tried : List Exchange × Bool → Type 0
Tried (xs, good) = Good xs × (good ≡ true → 0 < length xs)

load_array-Tried :
    (arr : Option Bytes) (xs : List Exchange) → Good xs → Yields Tried (load_array arr xs)
load_array-Tried none xs g = (g, λ e. absurd (ground arith))
load_array-Tried (some arr) xs g =
    Yields-bind Tried (load_exchanges (suc (length arr)) [] (drop 1 arr)) _ λ loaded p. (
      subst (Yields Good) p
          (load_exchanges-Good (suc (length arr)) [] (drop 1 arr) (tt, omega arith)),
      λ e. ground arith,
    )

load_from_file-Tried :
    (file : Option Bytes) (xs : List Exchange) → Good xs → Yields Tried (load_from_file file xs)
unfolding load_from_file
load_from_file-Tried none xs g = (g, λ e. absurd (ground arith))
load_from_file-Tried (some json) xs g =
    Yields-bind Tried (extract_block json (codes "exchanges")) _ λ arr _. load_array-Tried arr xs g

try_files-IsReady :
    (files : List (Option Bytes)) (xs : List Exchange)
    → Good xs
    → Yields IsReady (try_files files xs)
try_files-IsReady [] xs g = record {
  is_loaded = refl;
  some_exchange = omega arith;
  good = ((tt, tt), omega arith);
}
try_files-IsReady (file ∷ files) xs g = Yields-bind IsReady (load_from_file file xs) _ λ r p.
    let tried = subst (Yields Tried) p (load_from_file-Tried file xs g) in
    elim (Bool-cases r.1) [
      | inl good ↦
          rw good (record { is_loaded = refl; some_exchange = tried.1 good; good = tried.0 })
      | inr bad ↦ rw bad (try_files-IsReady files r.0 tried.0)
    ]

-- A result of `calendar_init`, for a table of exchanges that was good before.
pub calendar_init-IsReady :
    (explicit home installed : Option Bytes) (r : Registry)
    → Good r.exchanges
    → Yields IsReady (calendar_init explicit home installed r)
unfolding calendar_init
calendar_init-IsReady explicit home installed r g =
    try_files-IsReady (explicit ∷ home ∷ installed ∷ []) r.exchanges g

-- In an exchange with sorted holidays `find_holiday` returns what a scan of all its holidays returns.
pub find_holiday-find_date :
    (ex : Exchange) (date : Bytes) → IsSorted ex → find_holiday ex date ≡ find_date date ex.holidays
unfolding find_holiday
find_holiday-find_date ex date h = binary_search-find_key date_of ex.holidays date h
