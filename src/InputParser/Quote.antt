-- ===== src/InputParser/Quote.antt =====
-- Quoting for the tokeniser: a text between single quotes, each single quote inside it written as a
-- closing quote, an escaped quote and an opening one (the form that src/alias.c writes).
use las_shell.Prelude.{
  ◌≡◌, ◌≢◌, refl, Bytes, peek, Option, some, List, [], ◌∷◌, ◌++◌, arith, ◌==◌, if◌then◌else◌, inl,
  inr, Bool-cases, append-nil, append_assoc, ap, sym, ◌∙◌, ==_iff,
}
use las_shell.InputParser.{
  plain, single, Lexer, append, flush, close_single, step_single, step_plain, step, parse_input,
  is_blank,
}
use las_shell.InputParser.Run.{exec, exec-nil, exec-cons, parse_input-exec}
use las_shell.InputParser.Total.{NonEmpty}

-- `if (*p == '\'') fputs("'\\''", f); else fputc(*p, f);`
unfoldable pub escape_quotes : Bytes → Bytes
escape_quotes [] = []
escape_quotes (c ∷ cs) =
    let rest = escape_quotes cs in
    if c == b'\'' then b'\'' ∷ b'\\' ∷ b'\'' ∷ b'\'' ∷ rest else c ∷ rest

abbrev pub quoted : Bytes → Bytes → Bytes
quoted w rest = b'\'' ∷ (escape_quotes w ++ (b'\'' ∷ rest))

-- A line of quoted words with a space between two of them.
abbrev pub quoted_line : List Bytes → Bytes
quoted_line [] = []
quoted_line (w ∷ []) = quoted w []
quoted_line (w ∷ v ∷ ws) = quoted w (b' ' ∷ quoted_line (v ∷ ws))

-- The words that are not empty.
abbrev pub kept : List Bytes → List Bytes
kept [] = []
kept ([] ∷ ws) = kept ws
kept ((c ∷ cs) ∷ ws) = (c ∷ cs) ∷ kept ws

kept-cons : (w : Bytes) (ws : List Bytes) → kept (w ∷ []) ++ kept ws ≡ kept (w ∷ ws)
kept-cons [] ws = refl
kept-cons (c ∷ cs) ws = refl

append_lem : (lx : Lexer) (s t : Bytes) → append (append lx s) t ≡ append lx (s ++ t)
append_lem lx s t = ap (λ b. record lx { tbuf = b }) (append_assoc lx.tbuf s t)

append-nil_lem : (lx : Lexer) → append lx [] ≡ lx
append-nil_lem lx = ap (λ b. record lx { tbuf = b }) (append-nil lx.tbuf)

module _ (getenv : Bytes → Option Bytes) (status : Bytes) where
  exec_single :
      (w rest : Bytes) (lx : Lexer)
      → peek rest ≢ b'\\'
      → exec getenv status (single, lx, escape_quotes w ++ (b'\'' ∷ rest))
        ≡ exec getenv status (plain, append lx w, rest)
  unfolding escape_quotes step step_single
  exec_single [] rest lx h =
      let done : close_single lx rest ≡ (plain, lx, rest) = unfold close_single in ground arith in
      exec-cons getenv status single lx b'\'' rest
      ∙ ap (exec getenv status) (done ∙ ap (λ l. (plain, l, rest)) (sym (append-nil_lem lx)))
  exec_single (c ∷ cs) rest lx h = elim (Bool-cases (c == b'\'')) [
    | inl q ↦
        let e : c ≡ b'\'' = (==_iff c b'\'').0 q in
        rw e (
          exec-cons getenv status single lx b'\'' _
          ∙ exec_single cs rest (append lx (b'\'' ∷ [])) h
          ∙ ap (λ l. exec getenv status (plain, l, rest)) (append_lem lx (b'\'' ∷ []) cs))
    | inr n ↦
        let next : step_single lx c (escape_quotes cs ++ (b'\'' ∷ rest))
            ≡ (single, append lx (c ∷ []), escape_quotes cs ++ (b'\'' ∷ rest)) =
          rw (n, step_single) in
        rw n (
          exec-cons getenv status single lx c _
          ∙ ap (exec getenv status) next
          ∙ exec_single cs rest (append lx (c ∷ [])) h
          ∙ ap (λ l. exec getenv status (plain, l, rest)) (append_lem lx (c ∷ []) cs))
  ]

  -- At a word's start a quoted word becomes the token buffer.
  exec-quoted :
      (ts : List Bytes) (w rest : Bytes)
      → peek rest ≢ b'\\'
      → exec getenv status (plain, record { tokens = ts; tbuf = [] }, quoted w rest)
        ≡ exec getenv status (plain, record { tokens = ts; tbuf = w }, rest)
  unfolding step step_plain
  exec-quoted ts w rest h =
      exec-cons getenv status plain (record { tokens = ts; tbuf = [] }) b'\'' _
      ∙ exec_single w rest (record { tokens = ts; tbuf = [] }) h

  pub flush_word :
      (ts : List Bytes) (w : Bytes)
      → NonEmpty w
      → flush (record { tokens = ts; tbuf = w }) ≡ record { tokens = ts ++ (w ∷ []); tbuf = [] }
  unfolding flush
  flush_word ts [] h = absurd (h refl)
  flush_word ts (c ∷ cs) h = refl

  flush-kept :
      (ts : List Bytes) (w : Bytes)
      → flush (record { tokens = ts; tbuf = w })
        ≡ record { tokens = ts ++ kept (w ∷ []); tbuf = [] }
  unfolding flush
  flush-kept ts [] = ap (λ l. record { tokens = l; tbuf = [] }) (sym (append-nil ts))
  flush-kept ts (c ∷ cs) = refl

  exec_blank :
      (ts : List Bytes) (w rest : Bytes)
      → exec getenv status (plain, record { tokens = ts; tbuf = w }, b' ' ∷ rest)
        ≡ exec getenv status (plain, record { tokens = ts ++ kept (w ∷ []); tbuf = [] }, rest)
  unfolding step step_plain is_blank
  exec_blank ts w rest =
      exec-cons getenv status plain (record { tokens = ts; tbuf = w }) b' ' rest
      ∙ ap (λ l. exec getenv status (plain, l, rest)) (flush-kept ts w)

  exec_line :
      (ts ws : List Bytes)
      → exec getenv status (plain, record { tokens = ts; tbuf = [] }, quoted_line ws)
        ≡ some (ts ++ kept ws)
  exec_line ts [] = exec-nil getenv status plain _ ∙ rw append-nil (unfold flush in refl)
  exec_line ts (w ∷ []) =
      exec-quoted ts w [] (λ e. omega arith)
      ∙ exec-nil getenv status plain _
      ∙ ap (λ l. some l.tokens) (flush-kept ts w)
  exec_line ts (w ∷ v ∷ ws) =
      exec-quoted ts w (b' ' ∷ quoted_line (v ∷ ws)) (λ e. omega arith)
      ∙ exec_blank ts w _
      ∙ exec_line (ts ++ kept (w ∷ [])) (v ∷ ws)
      ∙ ap some (
          append_assoc ts (kept (w ∷ [])) (kept (v ∷ ws))
          ∙ ap (λ l. ts ++ l) (kept-cons w (v ∷ ws)))

  -- A line of single-quoted words with a space between two of them, whatever bytes the words hold, is
  -- split into exactly those of the words that are not empty, in their order.
  pub parse_input-quoted_line :
      (w : Bytes) (ws : List Bytes)
      → parse_input getenv status (quoted_line (w ∷ ws)) ≡ some (kept (w ∷ ws))
  parse_input-quoted_line w [] = parse_input-exec getenv status b'\'' _ ∙ exec_line [] (w ∷ [])
  parse_input-quoted_line w (v ∷ ws) =
      parse_input-exec getenv status b'\'' _ ∙ exec_line [] (w ∷ v ∷ ws)
