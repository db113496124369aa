-- ===== src/Operators/Sequence/Total.antt =====
-- `execute_sequence` comes to an end, and its rounds as equations.
use las_shell.Prelude.{
  ℕ, zero, suc, ◌<◌, ◌≤◌, ◌≡◌, refl, Bytes, codes, length, not, ◌&&◌, Option, none, some, List, [],
  ◌∷◌, if◌then◌else◌, arith, if_elim,
}
use las_shell.Prelude.Int.{ℤ, pos, is_zero}
use las_shell.Operators.Nodes.{Node}
use las_shell.Operators.Shell.{Shell}
use las_shell.Operators.Sequence.{
  is_op, is_capturing, first_arg, has_args, Position, move, run_node, gate_logged, run_gate,
  after_operator, round, execute_from, execute_sequence,
}

module _ {World : Type 0} (sh : Shell World) where
  -- A round leaves no more nodes than stand behind its own.
  abbrev pub Within : List Node → Position sh → Type 0
  Within rest p = length p.rest ≤ length rest

  gate_logged-Within :
      (prev node next : Node) (rest : List Node) (w : World)
      → Within (next ∷ rest) (gate_logged sh prev node next rest w)
  gate_logged-Within prev node next [] w = omega arith
  gate_logged-Within prev node next (file ∷ rest) w = named (first_arg file)
    where
      named :
          (o : Option Bytes)
          → Within (next ∷ file ∷ rest) (elim o as (λ x. Position sh) [
            | none ↦
                move sh next (file ∷ rest) (sh.risk_gate_chained prev.args node.args next.args w)
            | some path ↦
                if is_op next.operator (codes "|>")
                then move sh file rest (sh.risk_gate_logged prev.args node.args next.args path w)
                else move sh next
                    (file ∷ rest)
                    (sh.risk_gate_chained prev.args node.args next.args w)
          ])
      named none = omega arith
      named (some path) =
          if_elim (Within (next ∷ file ∷ rest)) (is_op next.operator (codes "|>")) _ _
            (λ e. omega arith) (λ e. omega arith)

  run_gate-Within :
      (prev node : Node) (rest : List Node) (w : World) → Within rest (run_gate sh prev node rest w)
  run_gate-Within prev node [] w = omega arith
  run_gate-Within prev node (next ∷ rest) w =
      if_elim (Within (next ∷ rest))
        (has_args node && is_op node.operator (codes "|") && has_args next) _ _
        (λ e. gate_logged-Within prev node next rest w) (λ e. omega arith)

  run_node-Within :
      (node : Node) (rest : List Node) (last : ℤ) (w : World)
      → Within rest (run_node sh node rest last w)
  unfolding run_node
  run_node-Within node rest last w =
      if_elim (Within rest) node.is_group _ _ (λ e. omega arith)
        (λ e.
          if_elim (Within rest) (is_capturing node.operator) _ _ (λ e. omega arith)
            (λ e. omega arith))

  after_operator-Within :
      (prev node : Node) (rest : List Node) (last : ℤ) (w : World)
      → Within rest (after_operator sh prev node rest last w)
  unfolding after_operator
  after_operator-Within prev node rest last w =
      let P = Within rest in
      let op = prev.operator in
      if_elim P (is_op op (codes "&&") && not (is_zero last)) _ _ (λ e. omega arith)
        (λ e.
          if_elim P (is_op op (codes "||") && is_zero last) _ _ (λ e. omega arith)
            (λ e.
              if_elim P (is_op op (codes "|>")) _ _ (λ e. omega arith)
                (λ e.
                  if_elim P (is_op op (codes "?>")) _ _ (λ e. run_gate-Within prev node rest w)
                    (λ e.
                      if_elim P (is_op op (codes "|")) _ _ (λ e. omega arith)
                        (λ e.
                          if_elim P (is_op op (codes "~>")) _ _ (λ e. omega arith)
                            (λ e. run_node-Within node rest last w))))))

  round-Within :
      (prev : Option Node) (node : Node) (rest : List Node) (last : ℤ) (w : World)
      → Within rest (round sh prev node rest last w)
  unfolding round
  round-Within prev node rest last w =
      if_elim (Within rest) (not node.is_group && not (has_args node)) _ _ (λ e. omega arith)
        (λ e. behind prev)
    where
      behind :
          (o : Option Node)
          → Within rest (elim o as (λ x. Position sh) [
            | none ↦ run_node sh node rest last w
            | some p ↦ after_operator sh p node rest last w
          ])
      behind none = run_node-Within node rest last w
      behind (some p) = after_operator-Within p node rest last w

  -- The loop on what a round leaves.
  abbrev later : ℕ → Position sh → List Node → Option (ℤ × World)
  later f p [] = some (p.last, p.world)
  later f p (node ∷ more) = execute_from sh f (round sh p.prev node more p.last p.world)

  later_eq :
      (f g : ℕ) (p : Position sh) (rest : List Node)
      → length rest < suc f
      → length rest < suc g
      → ((q : Position sh)
          → length q.rest < f
          → length q.rest < g
          → execute_from sh f q ≡ execute_from sh g q)
      → later f p rest ≡ later g p rest
  later_eq f g p [] h k ih = refl
  later_eq f g p (node ∷ more) h k ih =
      let less = round-Within p.prev node more p.last p.world in
      ih (round sh p.prev node more p.last p.world) (omega (arith, less)) (omega (arith, less))

  -- The fuel does not matter once it exceeds the number of nodes left.
  pub execute_from_fuel :
      (f g : ℕ) (p : Position sh)
      → length p.rest < f
      → length p.rest < g
      → execute_from sh f p ≡ execute_from sh g p
  unfolding execute_from
  execute_from_fuel zero g p h k = absurd (omega arith)
  execute_from_fuel (suc f) zero p h k = absurd (omega arith)
  execute_from_fuel (suc f) (suc g) p h k =
      later_eq f g p p.rest h k (λ q h k. execute_from_fuel f g q h k)

  abbrev pub exec : Position sh → Option (ℤ × World)
  exec p = execute_from sh (suc (length p.rest)) p

  pub exec-round :
      (prev : Option Node) (node : Node) (rest : List Node) (last : ℤ) (w : World)
      → exec (record { prev = prev; rest = node ∷ rest; last = last; world = w })
        ≡ exec (round sh prev node rest last w)
  unfolding execute_from
  exec-round prev node rest last w =
      let less = round-Within prev node rest last w in
      execute_from_fuel (suc (length rest)) (suc (length (round sh prev node rest last w).rest))
        (round sh prev node rest last w) (omega (arith, less)) (omega arith)

  returns :
      (f : ℕ) (p : Position sh)
      → length p.rest < f
      → (r : ℤ × World) × (execute_from sh f p ≡ some r)
  unfolding execute_from
  returns zero p h = absurd (omega arith)
  returns (suc f) p h = behind f p p.rest h (λ q k. returns f q k)
    where
      behind :
          (f : ℕ) (p : Position sh) (rest : List Node)
          → length rest < suc f
          → ((q : Position sh)
              → length q.rest < f
              → (r : ℤ × World) × (execute_from sh f q ≡ some r))
          → (r : ℤ × World) × (later f p rest ≡ some r)
      behind f p [] h ih = ((p.last, p.world), refl)
      behind f p (node ∷ more) h ih =
          let less = round-Within p.prev node more p.last p.world in
          ih (round sh p.prev node more p.last p.world) (omega (arith, less))

  -- Whatever the nodes and whatever the parts of the shell do that it calls, as long as each of these
  -- calls returns, the sequence ends with a status.
  pub execute_sequence_returns :
      (nodes : List Node) (w : World) → (r : ℤ × World) × (execute_sequence sh nodes w ≡ some r)
  unfolding execute_sequence
  execute_sequence_returns nodes w =
      returns (suc (length nodes)) (record { prev = none; rest = nodes; last = pos 0; world = w })
        (omega arith)
