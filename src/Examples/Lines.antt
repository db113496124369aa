-- ===== src/Examples/Lines.antt =====
-- The tokeniser and the aliases at concrete inputs.
use las_shell.Alias.Expand.{expand_once}
use las_shell.InputParser.Quote.{escape_quotes}
use las_shell.InputParser.{flush}
use las_shell.InputParser.{last_byte}
use las_shell.InputParser.{step_single}
use las_shell.InputParser.{is_name_byte}
use las_shell.InputParser.{span_limit}
use las_shell.InputParser.{bare}
use las_shell.InputParser.{step_double}
use las_shell.InputParser.{is_blank}
use las_shell.InputParser.{step_plain}
use las_shell.InputParser.{step}
use las_shell.Prelude.{
  ℕ, ◌≤◌, Bytes, codes, Bool, true, ◌⊎◌, Option, some, List, [], ◌∷◌, map, ◌↔◌, ◌≡◌, refl, arith,
  All,
}
use las_shell.InputParser.{span_limit, is_name_byte, last_byte, parse_input}
use las_shell.InputParser.Total.{Clean, parse_input-Clean}
use las_shell.InputParser.Quote.{quoted_line, parse_input-quoted_line}
use las_shell.Alias.Table.{Alias, same_name, find_alias, add_alias, remove_alias}
use las_shell.Alias.Invariant.{IsTable}
use las_shell.Alias.Laws.{Added, Removed, add_alias-Added, remove_alias-Removed}
use las_shell.Alias.File.{init_aliases, save_aliases}
use las_shell.Alias.RoundTrip.{is_line_byte, is_name_part, Fits, escaped, init-save}
use las_shell.Alias.Exact.{Unquoted, init-save_exact}
use las_shell.Alias.Expand.{split_word, expand_aliases}
use las_shell.Alias.Replaced.{Stuck, Replacements, expand_aliases-Replacements}
use las_shell.Examples.Data.{only, text}
use las_shell.Environment.Line.{variable, variable_within, expand_vars_in_line}
use las_shell.Environment.Room.{Refused}
use las_shell.Environment.Expansion.{expand_vars_in_line-expanded}
use las_shell.Environment.Pieces.{piece, variable_piece, expand_from, expanded}
use las_shell.Environment.Getenv.{my_getenv, lookup_var}

-- One variable in the environment.
abbrev user : Bytes → Option Bytes
user name = some (codes "ada")

abbrev greeting : Bytes
greeting = codes "echo \"hi $USER\" 'a b'>out $?"

parse_input-Clean_example :
    (ts : List Bytes) × (parse_input user (codes "0") greeting ≡ some ts) × Clean ts
parse_input-Clean_example = parse_input-Clean user (codes "0") greeting (λ e. ground arith)

parse_input-greeting :
    parse_input user (codes "0") greeting
    ≡ some (codes "echo" ∷ codes "hi ada" ∷ codes "a b" ∷ codes ">" ∷ codes "out" ∷ codes "0" ∷ [])
unfolding parse_input step step_plain is_blank step_double bare span_limit is_name_byte step_single
    last_byte flush
parse_input-greeting = refl

parse_input-quoted_line_example :
    parse_input user (codes "0") (quoted_line (codes "it's" ∷ [] ∷ codes "$USER >" ∷ []))
    ≡ some (codes "it's" ∷ codes "$USER >" ∷ [])
parse_input-quoted_line_example =
    parse_input-quoted_line user (codes "0") (codes "it's") ([] ∷ codes "$USER >" ∷ [])

abbrev ll : Alias
ll = record { name = codes "ll"; value = codes "ls -l" }

abbrev ls : Alias
ls = record { name = codes "ls"; value = codes "ls --color" }

abbrev it : Alias
it = record { name = codes "it"; value = codes "echo it's" }

abbrev table : List Alias
table = ll ∷ ls ∷ []

table-IsTable : IsTable table
unfolding same_name
table-IsTable = record {
  texts = (text (codes "ll") refl, (text (codes "ls") refl, tt));
  distinct = ((refl, tt), (tt, tt));
  bounded = omega arith;
}

add_alias-Added_example :
    Added (codes "ll") (codes "ls -la") table (add_alias (codes "ll") (codes "ls -la") table)
add_alias-Added_example =
    add_alias-Added (codes "ll") (codes "ls -la") table (text (codes "ll") refl) table-IsTable

remove_alias-Removed_example : Removed (codes "ll") table (remove_alias (codes "ll") table)
remove_alias-Removed_example =
    remove_alias-Removed (codes "ll") table (text (codes "ll") refl) table-IsTable

ll-Fits : Fits ll
unfolding escape_quotes
ll-Fits = (only is_name_part (codes "ll") refl, only is_line_byte (codes "ls -l") refl, omega arith)

it-Fits : Fits it
unfolding escape_quotes
it-Fits =
    (only is_name_part (codes "it") refl, only is_line_byte (codes "echo it's") refl, omega arith)

init-save_example :
    init_aliases (some (save_aliases (ll ∷ it ∷ []))) [] ≡ map escaped (ll ∷ it ∷ [])
init-save_example = init-save (ll ∷ it ∷ []) (ll-Fits, (it-Fits, tt)) (omega arith)

init-save_exact_example :
    (init_aliases (some (save_aliases (it ∷ []))) [] ≡ it ∷ []) ↔ All Unquoted (it ∷ [])
init-save_exact_example = init-save_exact (it ∷ []) (it-Fits, tt) (omega arith)

expand_aliases-Replacements_example :
    (k : ℕ) × (k ≤ 10)
    × Replacements table k (codes "ll /tmp") (expand_aliases table (codes "ll /tmp"))
    × (Stuck table (expand_aliases table (codes "ll /tmp")) ⊎ (k ≡ 10))
expand_aliases-Replacements_example =
    expand_aliases-Replacements table (codes "ll /tmp") (λ e. ground arith)

expand_aliases-ll : expand_aliases table (codes "ll /tmp") ≡ codes "ls -l /tmp"
unfolding expand_aliases split_word same_name find_alias expand_once
expand_aliases-ll = refl

-- A `realloc` that gives every block.
abbrev generous : ℕ → Bool
generous n = true

abbrev order_line : Bytes
order_line = codes "buy '$USER' \"${SYM}\" $?"

order_line-expanded : expanded [] user order_line ≡ codes "buy '$USER' \"ada\" $?"
unfolding expanded expand_from piece variable_piece variable variable_within span_limit is_name_byte
    last_byte lookup_var my_getenv
order_line-expanded = refl

expand_vars_in_line-expanded_example :
    (expand_vars_in_line generous [] user order_line ≡ some (expanded [] user order_line))
    ⊎ (Refused generous × (expand_vars_in_line generous [] user order_line ≡ some order_line))
expand_vars_in_line-expanded_example = expand_vars_in_line-expanded generous [] user order_line
