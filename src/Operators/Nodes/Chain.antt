-- ===== src/Operators/Nodes/Chain.antt =====
-- `parse_operators` on a chain of commands.
use las_shell.Prelude.{
  ℕ, ◌≡◌, ◌≢◌, refl, ap, ◌∙◌, Bytes, Bool, true, false, ◌||◌, Option, none, some, List, [], ◌∷◌,
  ◌++◌, ◌==◌, ◌>>=◌, arith, append_assoc, Bool-cases, inl, inr,
}
use las_shell.CString.Libc.{str_eq, strcmp}
use las_shell.InputParser.Total.{parse_input-Clean}
use las_shell.Operators.Split.{trim_end, trim_tail}
use las_shell.Operators.Split.Operand.{Operand, nil, plain, quoted, group}
use las_shell.Operators.Split.Chain.{
  Op, op_text, and_then, or_else, next, background, csv_log, risk_gate, backtest, Chain, last, link,
  chain_text, chain_parts, IsCommand, IsChain, split_on_operators-Chain,
}
use las_shell.Operators.Nodes.{
  Node, is_operator, skip_blanks, set_last, is_group_text, group_node, command_node, node_of,
  nodes_from, parse_operators,
}

abbrev starts_op : ℕ → Bool
starts_op c = c == b'&' || c == b'|' || c == b';' || c == b'?' || c == b'~'

is_operator_head : (c : ℕ) (s : Bytes) → starts_op c ≡ false → is_operator (c ∷ s) ≡ false
unfolding is_operator str_eq strcmp
is_operator_head c s h = ground arith

is_operator-Operand : (a : Bytes) → a ≢ [] → Operand a → is_operator (trim_end a) ≡ false
is_operator-Operand _ n nil = absurd (n refl)
is_operator-Operand _ n (plain c s h w) = is_operator_head c (trim_tail s) (ground (arith, h))
is_operator-Operand _ n (quoted q t s h k w) = is_operator_head q _ (ground (arith, h))
is_operator-Operand _ n (group t s k w) = is_operator_head b'{' _ refl

is_operator-op_text : (o : Op) → is_operator (op_text o) ≡ true
unfolding is_operator str_eq strcmp
is_operator-op_text and_then = refl
is_operator-op_text or_else = refl
is_operator-op_text next = refl
is_operator-op_text background = refl
is_operator-op_text csv_log = refl
is_operator-op_text risk_gate = refl
is_operator-op_text backtest = refl

abbrev with_op : Op → Node → Node
with_op o n = record n { operator = some (op_text o) }

set_last-snoc :
    (o : Op) (ns : List Node) (n : Node)
    → set_last (op_text o) (ns ++ (n ∷ [])) ≡ ns ++ (with_op o n ∷ [])
set_last-snoc o [] n = refl
set_last-snoc o (m ∷ []) n = refl
set_last-snoc o (m ∷ k ∷ ns) n = ap (◌∷◌ m) (set_last-snoc o (k ∷ ns) n)

module _ (getenv : Bytes → Option Bytes) (status : Bytes) where
  -- A node that no operator follows yet.
  abbrev pub Unlinked : Bytes → Node → Type 0
  Unlinked a n = (node_of getenv status (trim_end a) ≡ some n) × (n.operator ≡ none)

  node_of_returns : (a : Bytes) → a ≢ [] → (n : Node) × Unlinked a n
  unfolding node_of
  node_of_returns [] h = absurd (h refl)
  node_of_returns (c ∷ cs) h =
      let part = trim_end (c ∷ cs) in
      let (ts, e, clean) = parse_input-Clean getenv status part (λ k. ground arith) in
      elim (Bool-cases (is_group_text (skip_blanks part))) [
        | inl braces ↦ rw braces (group_node (skip_blanks part), (refl, refl))
        | inr other ↦
            rw other (command_node ts, (ap (λ o. o >>= λ args. some (command_node args)) e, refl))
      ]

  -- One node for each command of the chain, with the operator behind it.
  abbrev pub NodesOf : Chain → List Node → Type 0
  NodesOf (last a) ns = (n : Node) × (ns ≡ n ∷ []) × Unlinked a n
  NodesOf (link a o c) ns =
      (n : Node) × (rest : List Node) × (ns ≡ with_op o n ∷ rest) × Unlinked a n × NodesOf c rest

  nodes_from-command :
      (acc : List Node) (a : Bytes) (n : Node) (parts : List Bytes)
      → IsCommand a
      → node_of getenv status (trim_end a) ≡ some n
      → nodes_from getenv status acc (trim_end a ∷ parts)
        ≡ nodes_from getenv status (acc ++ (n ∷ [])) parts
  unfolding nodes_from
  nodes_from-command acc a n parts (ne, w) e =
      rw (is_operator-Operand a ne w)
        (ap (λ o. o >>= λ m. nodes_from getenv status (acc ++ (m ∷ [])) parts) e)

  nodes_from-operator :
      (acc : List Node) (n : Node) (o : Op) (parts : List Bytes)
      → nodes_from getenv status (acc ++ (n ∷ [])) (op_text o ∷ parts)
        ≡ nodes_from getenv status (acc ++ (with_op o n ∷ [])) parts
  unfolding nodes_from
  nodes_from-operator acc n o parts =
      rw (is_operator-op_text o)
        (ap (λ ns. nodes_from getenv status ns parts) (set_last-snoc o acc n))

  nodes_from-Chain :
      (c : Chain) (acc : List Node)
      → IsChain c
      → (ns : List Node) × (nodes_from getenv status acc (chain_parts c) ≡ some (acc ++ ns))
        × NodesOf c ns
  unfolding nodes_from
  nodes_from-Chain (last a) acc h =
      let (n, (e, o)) = node_of_returns a h.0 in
      (n ∷ [], nodes_from-command acc a n [] h e, (n, refl, (e, o)))
  nodes_from-Chain (link a o c) acc (h, k) =
      let (n, (e, bare)) = node_of_returns a h.0 in
      let (ns, found, shape) = nodes_from-Chain c (acc ++ (with_op o n ∷ [])) k in
      (
        with_op o n ∷ ns,
        nodes_from-command acc a n (op_text o ∷ chain_parts c) h e
            ∙ nodes_from-operator acc n o (chain_parts c)
            ∙ found
            ∙ ap (λ t. some t) (append_assoc acc (with_op o n ∷ []) ns),
        (n, ns, refl, (e, bare), shape),
      )

  -- Such a line as `split_on_operators` takes apart is parsed into one node for each command, in their
  -- order, which is the node of that command's text with the operator behind it, and none for the last.
  pub parse_operators-Chain :
      (c : Chain)
      → IsChain c
      → (ns : List Node) × (parse_operators getenv status (chain_text c) ≡ some ns) × NodesOf c ns
  unfolding parse_operators
  parse_operators-Chain c h =
      let (ns, e, shape) = nodes_from-Chain c [] h in
      (ns, ap (λ o. o >>= nodes_from getenv status []) (split_on_operators-Chain c h) ∙ e, shape)
