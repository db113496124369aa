-- ===== src/Risk/Order/Fields.antt =====
-- The fields of a line that is written out in full.
use las_shell.Prelude.{
  ℕ, ◌<◌, ◌≡◌, refl, ap, sym, subst, ◌∙◌, Bytes, length, take, take_all, false, ◌&&◌, some, List,
  [], ◌∷◌, ◌++◌, arith, All, if◌then◌else◌, ◌==◌,
}
use las_shell.Risk.Text.{is_white, trim_front, str_to_upper, strtok_all}
use las_shell.Risk.Text.Tokens.{IsToken, strtok_all-joined, joined}
use las_shell.Risk.Config.{Numbers}
use las_shell.Risk.Order.{is_blank, parse_order_line, order_of}

-- A symbol that does not make the line a comment.
abbrev pub IsFirst : Bytes → Type 0
IsFirst [] = ⊥
IsFirst (c ∷ cs) = (is_white c ≡ false) × ((c == b'#') ≡ false)

joined-cons :
    (c : ℕ) (cs : Bytes) (ts : List Bytes)
    → (rest : Bytes) × (joined b' ' ((c ∷ cs) ∷ ts) ≡ c ∷ rest)
joined-cons c cs [] = (cs, refl)
joined-cons c cs (t ∷ ts) = (cs ++ (b' ' ∷ joined b' ' (t ∷ ts)), refl)

module _ (nums : Numbers) where
  parse_order_line-cons :
      (c : ℕ) (cs : Bytes)
      → IsFirst (c ∷ cs)
      → length (c ∷ cs) < 512
      → parse_order_line nums (c ∷ cs) ≡ order_of nums (strtok_all is_blank (c ∷ cs))
  unfolding parse_order_line trim_front
  parse_order_line-cons c cs (h, k) l =
      rw (h, k)
        (ap (λ s. order_of nums (strtok_all is_blank s)) (take_all 511 (c ∷ cs) (omega (arith, l))))

  -- A line of words with single blanks between them is read by its words.
  parse_order_line-joined :
      (symbol : Bytes) (words : List Bytes)
      → IsFirst symbol
      → All (IsToken is_blank) (symbol ∷ words)
      → length (joined b' ' (symbol ∷ words)) < 512
      → parse_order_line nums (joined b' ' (symbol ∷ words)) ≡ order_of nums (symbol ∷ words)
  parse_order_line-joined [] words h k l = absurd h
  parse_order_line-joined (c ∷ cs) words h k l =
      let (rest, e) = joined-cons c cs words in
      let text : length (c ∷ rest) < 512 = subst (λ s. length s < 512) e l in
      ap (parse_order_line nums) e
      ∙ parse_order_line-cons c rest h text
      ∙ ap (λ s. order_of nums (strtok_all is_blank s)) (sym e)
      ∙ ap (order_of nums) (strtok_all-joined is_blank b' ' ((c ∷ cs) ∷ words) refl k)

  -- A line `SYMBOL ACTION SIZE PRICE` of less than 512 bytes, its words without blanks and with single
  -- blanks between them, gives the order with the symbol and the action in upper case, cut to 31 and 15
  -- bytes, the two numbers as `atof` reads them, and their product as the notional value, or zero
  -- unless both are above zero. The symbol begins with neither white space nor `#`.
  pub parse_order_line-fields :
      (symbol action size price : Bytes)
      → IsFirst symbol
      → All (IsToken is_blank) (symbol ∷ action ∷ size ∷ price ∷ [])
      → length (joined b' ' (symbol ∷ action ∷ size ∷ price ∷ [])) < 512
      → parse_order_line nums (joined b' ' (symbol ∷ action ∷ size ∷ price ∷ []))
        ≡ some (record {
          symbol = str_to_upper (take 31 symbol);
          action = str_to_upper (take 15 action);
          size = nums.atof size;
          price = nums.atof price;
          notional =
              if nums.lt (nums.of_ℕ 0) (nums.atof size) && nums.lt (nums.of_ℕ 0) (nums.atof price)
              then nums.mul (nums.atof size) (nums.atof price)
              else nums.of_ℕ 0;
        })
  parse_order_line-fields symbol action size price =
      parse_order_line-joined symbol (action ∷ size ∷ price ∷ [])
