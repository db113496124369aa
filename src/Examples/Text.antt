-- ===== src/Examples/Text.antt =====
-- The text functions of src/helper.c at concrete inputs.
use las_shell.Prelude.{ℕ, Bytes, codes, take, Option, some, List, [], ◌∷◌, map, ◌≡◌, refl}
use las_shell.TimeFormat.{Tm, directive, my_strftime}
use las_shell.TimeFormat.Render.{is_complete, render, my_strftime-render}
use las_shell.Environment.Getenv.{is_entry_of, my_getenv, entry_text}

abbrev cells : Bytes
cells = codes "........"

-- Two blocks of the heap: only requests of up to eight bytes are met.
abbrev small_heap : ℕ → Option Bytes
small_heap n = some (take n cells)

abbrev noon : Tm
noon = record { year = 2026; month = 3; mday = 9; hour = 12; min = 0; sec = 5 }

abbrev variables : List (Bytes × Bytes)
variables =
    (codes "PATH", codes "/bin") ∷ (codes "HOME", codes "/root") ∷ (codes "HOME", codes "/tmp") ∷ []

my_strftime-render_example : my_strftime 8 (codes "%Y-%m-%d") noon ≡ some (codes "2026-03")
unfolding is_complete render directive
my_strftime-render_example = my_strftime-render 8 (codes "%Y-%m-%d") noon refl

first_home :
    my_getenv (some (codes "HOME")) (some (map entry_text variables)) ≡ some (codes "/root")
unfolding my_getenv is_entry_of
first_home = refl
