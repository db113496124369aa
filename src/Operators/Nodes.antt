-- ===== src/Operators/Nodes.antt =====
-- src/operators.c: `parse_operators`, the list of nodes of a line. The fields for redirections of
-- `CommandNode` are never set there and left out. `none` is a use of a null pointer or of `split_on_operators`.
pub mod Chain
use mathlib.Core.Option
use las_shell.Prelude.{
  ℕ, zero, suc, ◌-◌, Bytes, codes, peek, length, take, drop, Bool, true, false, not, ◌&&◌, ◌||◌,
  Option, none, some, List, [], ◌∷◌, ◌++◌, leb, ◌==◌, if◌then◌else◌, ◌>>=◌,
}
use las_shell.CString.Libc.{str_eq}
use las_shell.InputParser.{parse_input, last_byte}
use las_shell.Operators.Split.{split_on_operators, is_blank}

pub record Node : Type 0 where
  pub args : List Bytes
  pub is_group : Bool
  pub group_body : Bytes
  pub background : Bool
  pub operator : Option Bytes

unfoldable pub is_operator : Bytes → Bool
unfolding str_eq
is_operator s =
    str_eq s (codes "&&")
    || str_eq s (codes "||")
    || str_eq s (codes "&")
    || str_eq s (codes ";")
    || str_eq s (codes "|>")
    || str_eq s (codes "?>")
    || str_eq s (codes "~>")
    || str_eq s (codes "|")

unfoldable pub skip_blanks : Bytes → Bytes
skip_blanks [] = []
skip_blanks (c ∷ cs) = if is_blank c then skip_blanks cs else c ∷ cs

-- `current->operator = op`; without a node in front an operator is dropped.
abbrev pub set_last : Bytes → List Node → List Node
set_last op [] = []
set_last op (n ∷ []) = record n { operator = some op } ∷ []
set_last op (n ∷ m ∷ ns) = n ∷ set_last op (m ∷ ns)

-- A trailing argument `&` is taken off; the result says whether there was one.
unfoldable pub strip_background : List Bytes → List Bytes × Bool
unfolding str_eq
strip_background [] = ([], false)
strip_background (a ∷ []) = if str_eq a (codes "&") then ([], true) else (a ∷ [], false)
strip_background (a ∷ b ∷ args) =
    let (rest, found) = strip_background (b ∷ args) in (a ∷ rest, found)

-- `{ ... }` without the blanks in front.
unfoldable pub is_group_text : Bytes → Bool
unfolding last_byte
is_group_text s = leb 2 (length s) && peek s == b'{' && last_byte s == b'}'

abbrev pub group_node : Bytes → Node
group_node s = record {
  args = [];
  is_group = true;
  group_body = take (length s - 2) (drop 1 s);
  background = false;
  operator = none;
}

abbrev pub command_node : List Bytes → Node
command_node args =
    let (kept, found) = strip_background args in
    record { args = kept; is_group = false; group_body = []; background = found; operator = none }

module _ (getenv : Bytes → Option Bytes) (status : Bytes) where
  unfoldable pub node_of : Bytes → Option Node
  unfolding skip_blanks is_group_text strip_background parse_input
  node_of part =
      let trimmed = skip_blanks part in
      if is_group_text trimmed
      then some (group_node trimmed)
      else parse_input getenv status part >>= λ args. some (command_node args)

  -- The loop over the parts.
  unfoldable pub nodes_from : List Node → List Bytes → Option (List Node)
  unfolding node_of is_operator
  nodes_from nodes [] = some nodes
  nodes_from nodes (part ∷ parts) =
      if is_operator part
      then nodes_from (set_last part nodes) parts
      else node_of part >>= λ n. nodes_from (nodes ++ (n ∷ [])) parts

  unfoldable pub parse_operators : Bytes → Option (List Node)
  unfolding nodes_from split_on_operators
  parse_operators input = split_on_operators input >>= λ parts. nodes_from [] parts
