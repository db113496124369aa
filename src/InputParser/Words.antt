-- ===== src/InputParser/Words.antt =====
-- Unquoted words and the redirection operators between them.
use las_shell.Prelude.{
  ℕ, ◌≡◌, ◌≢◌, refl, Bytes, peek, Bool, true, not, ◌||◌, Option, some, List, [], ◌∷◌, ◌++◌, arith,
  ◌==◌, ◌⊎◌, inl, inr, Only, append-nil, append_assoc, ap, sym, ◌∙◌,
}
use las_shell.InputParser.{
  plain, Lexer, append, flush, step_plain, step, parse_input, is_blank, last_byte, push_token,
}
use las_shell.InputParser.Run.{exec, exec-nil, exec-cons, parse_input-exec}
use las_shell.InputParser.Total.{NonEmpty}
use las_shell.InputParser.Quote.{flush_word}

-- A byte with no meaning of its own to the tokeniser.
unfoldable pub is_ordinary : ℕ → Bool
unfolding is_blank
is_ordinary c = not (
    c == b'\''
    || c == b'"'
    || is_blank c
    || c == b'>'
    || c == b'<'
    || c == b'$'
    || c == b'='
    || c == b'?')

abbrev pub Word : Bytes → Type 0
Word w = NonEmpty w × Only is_ordinary w

last_byte-ordinary : (w : Bytes) → Only is_ordinary w → last_byte w ≢ b'?'
unfolding last_byte is_ordinary
last_byte-ordinary [] h e = omega arith
last_byte-ordinary (c ∷ []) h e = ground arith
last_byte-ordinary (c ∷ d ∷ cs) h e = last_byte-ordinary (d ∷ cs) h.1 e

peek-ordinary : (w rest : Bytes) → Word w → is_ordinary (peek (w ++ rest)) ≡ true
peek-ordinary [] rest h = absurd (h.0 refl)
peek-ordinary (c ∷ cs) rest h = h.1.0

module _ (getenv : Bytes → Option Bytes) (status : Bytes) where
  step_ordinary :
      (lx : Lexer) (c : ℕ) (cs : Bytes)
      → is_ordinary c ≡ true
      → step getenv status plain lx c cs ≡ (plain, append lx (c ∷ []), cs)
  unfolding step step_plain is_ordinary
  step_ordinary lx c cs h = ground arith

  exec_word :
      (ts : List Bytes) (b w rest : Bytes)
      → Only is_ordinary w
      → exec getenv status (plain, record { tokens = ts; tbuf = b }, w ++ rest)
        ≡ exec getenv status (plain, record { tokens = ts; tbuf = b ++ w }, rest)
  exec_word ts b [] rest h = rw append-nil refl
  exec_word ts b (c ∷ cs) rest h =
      exec-cons getenv status plain (record { tokens = ts; tbuf = b }) c (cs ++ rest)
      ∙ ap (exec getenv status)
          (step_ordinary (record { tokens = ts; tbuf = b }) c (cs ++ rest) h.0)
      ∙ exec_word ts (b ++ (c ∷ [])) cs rest h.1
      ∙ ap (λ x. exec getenv status (plain, record { tokens = ts; tbuf = x }, rest))
          (append_assoc b (c ∷ []) cs)

  -- A last word is flushed at the end of the line.
  exec_last :
      (ts : List Bytes) (w : Bytes)
      → Word w
      → exec getenv status (plain, record { tokens = ts; tbuf = [] }, w) ≡ some (ts ++ (w ∷ []))
  exec_last ts w h =
      ap (λ x. exec getenv status (plain, record { tokens = ts; tbuf = [] }, x))
        (sym (append-nil w))
      ∙ exec_word ts [] w [] h.1
      ∙ exec-nil getenv status plain _
      ∙ ap (λ l. some l.tokens) (flush_word getenv status ts w h.0)

  step_redirect :
      (ts : List Bytes) (a : Bytes) (op : ℕ) (rest : Bytes)
      → (op ≡ b'>') ⊎ (op ≡ b'<')
      → Word a
      → is_ordinary (peek rest) ≡ true
      → step getenv status plain (record { tokens = ts; tbuf = a }) op rest
        ≡ (plain, push_token (flush (record { tokens = ts; tbuf = a })) (op ∷ []), rest)
  unfolding step step_plain is_ordinary
  step_redirect ts a op rest o h r = ground (arith, last_byte-ordinary a h.1)

  step_append :
      (ts : List Bytes) (a rest : Bytes)
      → Word a
      → step getenv status plain (record { tokens = ts; tbuf = a }) b'>' (b'>' ∷ rest)
        ≡ (plain, push_token (flush (record { tokens = ts; tbuf = a })) (b'>' ∷ b'>' ∷ []), rest)
  unfolding step step_plain is_blank
  step_append ts a rest h = ground (arith, last_byte-ordinary a h.1)

  exec_redirect :
      (a b : Bytes) (op : ℕ)
      → (op ≡ b'>') ⊎ (op ≡ b'<')
      → Word a
      → Word b
      → exec getenv status (plain, record { tokens = []; tbuf = [] }, a ++ (op ∷ b))
        ≡ some (a ∷ (op ∷ []) ∷ b ∷ [])
  exec_redirect a b op o h k =
      let first : is_ordinary (peek b) ≡ true = rw append-nil at (peek-ordinary b [] k) in
      exec_word [] [] a (op ∷ b) h.1
      ∙ exec-cons getenv status plain (record { tokens = []; tbuf = a }) op b
      ∙ ap (exec getenv status) (step_redirect [] a op b o h first)
      ∙ ap (λ l. exec getenv status (plain, push_token l (op ∷ []), b))
          (flush_word getenv status [] a h.0)
      ∙ exec_last (a ∷ (op ∷ []) ∷ []) b k

  exec_append :
      (a b : Bytes)
      → Word a
      → Word b
      → exec getenv status (plain, record { tokens = []; tbuf = [] }, a ++ (b'>' ∷ b'>' ∷ b))
        ≡ some (a ∷ (b'>' ∷ b'>' ∷ []) ∷ b ∷ [])
  exec_append a b h k =
      exec_word [] [] a (b'>' ∷ b'>' ∷ b) h.1
      ∙ exec-cons getenv status plain (record { tokens = []; tbuf = a }) b'>' (b'>' ∷ b)
      ∙ ap (exec getenv status) (step_append [] a b h)
      ∙ ap (λ l. exec getenv status (plain, push_token l (b'>' ∷ b'>' ∷ []), b))
          (flush_word getenv status [] a h.0)
      ∙ exec_last (a ∷ (b'>' ∷ b'>' ∷ []) ∷ []) b k

  -- Between two unquoted words with no spaces `>`, `<` and `>>` are tokens of their own, and `>>` is
  -- one token.
  pub parse_input-redirect :
      (a b : Bytes)
      → Word a
      → Word b
      → (parse_input getenv status (a ++ (b'>' ∷ b)) ≡ some (a ∷ (b'>' ∷ []) ∷ b ∷ []))
        × (parse_input getenv status (a ++ (b'<' ∷ b)) ≡ some (a ∷ (b'<' ∷ []) ∷ b ∷ []))
        × (parse_input getenv status (a ++ (b'>' ∷ b'>' ∷ b))
            ≡ some (a ∷ (b'>' ∷ b'>' ∷ []) ∷ b ∷ []))
  parse_input-redirect [] b h k = absurd (h.0 refl)
  parse_input-redirect (c ∷ cs) b h k = (
    parse_input-exec getenv status c _ ∙ exec_redirect (c ∷ cs) b b'>' (inl refl) h k,
    parse_input-exec getenv status c _ ∙ exec_redirect (c ∷ cs) b b'<' (inr refl) h k,
    parse_input-exec getenv status c _ ∙ exec_append (c ∷ cs) b h k,
  )
