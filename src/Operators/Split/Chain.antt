-- ===== src/Operators/Split/Chain.antt =====
-- `split_on_operators` takes a chain of commands apart at its operators, and at no operator inside
-- quotes or braces.
use las_shell.Prelude.{
  ◌≡◌, refl, ap, sym, ◌∙◌, Bytes, codes, peek, Bool, true, false, not, some, List, [], ◌∷◌, ◌++◌,
  ◌==◌, ◌≢◌, arith, append_assoc, append-nil,
}
use las_shell.Operators.Split.{op_len, trim_end, close_segment, step, run, split_on_operators}
use las_shell.Operators.Split.Operand.{
  exec, exec-step, Operand, nil, plain, quoted, group, outside, exec-Operand,
}

-- The operators at which every line is split. A bare `|` is one only behind another operator.
pub data Op : Type 0 where
  and_then or_else next background csv_log risk_gate backtest : Op

abbrev pub op_text : Op → Bytes
op_text and_then = codes "&&"
op_text or_else = codes "||"
op_text next = codes ";"
op_text background = codes "&"
op_text csv_log = codes "|>"
op_text risk_gate = codes "?>"
op_text backtest = codes "~>"

exec-Op :
    (o : Op) (rest seg : Bytes) (seen : Bool) (parts : List Bytes)
    → not (peek rest == b'&') ≡ true
    → exec (outside seen seg parts) (op_text o ++ rest)
      ≡ exec (outside true [] (close_segment seg parts ++ (op_text o ∷ []))) rest
unfolding step op_len
exec-Op and_then rest seg seen parts h =
    exec-step (outside seen seg parts) _ b'&' (b'&' ∷ rest) rest refl
exec-Op or_else rest seg seen parts h =
    exec-step (outside seen seg parts) _ b'|' (b'|' ∷ rest) rest refl
exec-Op next rest seg seen parts h = exec-step (outside seen seg parts) _ b';' rest rest refl
exec-Op background rest seg seen parts h =
    exec-step (outside seen seg parts) _ b'&' rest rest
      (let other : (peek rest == b'&') ≡ false = ground (arith, h) in rw other refl)
exec-Op csv_log rest seg seen parts h =
    exec-step (outside seen seg parts) _ b'|' (b'>' ∷ rest) rest refl
exec-Op risk_gate rest seg seen parts h =
    exec-step (outside seen seg parts) _ b'?' (b'>' ∷ rest) rest refl
exec-Op backtest rest seg seen parts h =
    exec-step (outside seen seg parts) _ b'~' (b'>' ∷ rest) rest refl

pub data Chain : Type 0 where
  last : Bytes → Chain
  link : Bytes → Op → Chain → Chain

abbrev pub chain_text : Chain → Bytes
chain_text (last a) = a
chain_text (link a o c) = a ++ (op_text o ++ chain_text c)

abbrev pub chain_parts : Chain → List Bytes
chain_parts (last a) = trim_end a ∷ []
chain_parts (link a o c) = trim_end a ∷ op_text o ∷ chain_parts c

abbrev pub IsCommand : Bytes → Type 0
IsCommand a = (a ≢ []) × Operand a

abbrev pub IsChain : Chain → Type 0
IsChain (last a) = IsCommand a
IsChain (link a o c) = IsCommand a × IsChain c

operand_head : (a rest : Bytes) → a ≢ [] → Operand a → not (peek (a ++ rest) == b'&') ≡ true
operand_head _ rest n nil = absurd (n refl)
operand_head _ rest n (plain c s h w) = ground (arith, h)
operand_head _ rest n (quoted q t s h k w) = ground (arith, h)
operand_head _ rest n (group t s k w) = refl

chain_head : (c : Chain) → IsChain c → not (peek (chain_text c) == b'&') ≡ true
chain_head (last a) (n, w) =
    ap (λ s. not (peek s == b'&')) (sym (append-nil a)) ∙ operand_head a [] n w
chain_head (link a o c) ((n, w), h) = operand_head a (op_text o ++ chain_text c) n w

close_segment-IsCommand :
    (a : Bytes) (parts : List Bytes) → a ≢ [] → close_segment a parts ≡ parts ++ (trim_end a ∷ [])
close_segment-IsCommand [] parts n = absurd (n refl)
close_segment-IsCommand (c ∷ cs) parts n = refl

exec-Chain :
    (c : Chain) (seen : Bool) (parts : List Bytes)
    → IsChain c
    → exec (outside seen [] parts) (chain_text c) ≡ some (parts ++ chain_parts c)
unfolding run
exec-Chain (last a) seen parts (n, w) =
    ap (exec (outside seen [] parts)) (sym (append-nil a))
    ∙ exec-Operand a [] seen [] parts w
    ∙ ap (λ ps. some ps) (close_segment-IsCommand a parts n)
exec-Chain (link a o c) seen parts ((n, w), h) =
    exec-Operand a (op_text o ++ chain_text c) seen [] parts w
    ∙ exec-Op o (chain_text c) a seen parts (chain_head c h)
    ∙ exec-Chain c true (close_segment a parts ++ (op_text o ∷ [])) h
    ∙ ap (λ ps. some ((ps ++ (op_text o ∷ [])) ++ chain_parts c))
        (close_segment-IsCommand a parts n)
    ∙ ap (λ ps. some ps)
        (append_assoc (parts ++ (trim_end a ∷ [])) (op_text o ∷ []) (chain_parts c)
          ∙ append_assoc parts (trim_end a ∷ []) (op_text o ∷ chain_parts c))

-- A line that consists of commands with the operators `&&`, `||`, `;`, `&`, `|>`, `?>` and `~>` between
-- them is split into exactly those commands, without their trailing blanks, and those operators, when
-- every command is plain bytes, quoted texts, which may hold any operator, and braces around a text
-- without quotes and braces, which may hold any operator too.
pub split_on_operators-Chain :
    (c : Chain) → IsChain c → split_on_operators (chain_text c) ≡ some (chain_parts c)
unfolding split_on_operators
split_on_operators-Chain c h = exec-Chain c false [] h
