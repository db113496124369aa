-- ===== src/Audit/Verify/Line.antt =====
-- A record as `audit_log_command` writes it, and what `audit_verify_log` reads in it.
use las_shell.Prelude.{
  ℕ, ◌+◌, ◌≤◌, ◌≡◌, refl, ap, sym, ◌∙◌, Bytes, length, take, take_all, peek, true, false, some, [],
  ◌∷◌, ◌++◌, ◌==◌, arith, Only, All-append, length-append, append_assoc,
}
use las_shell.CString.Libc.{str_eq_iff}
use las_shell.InputParser.{last_byte}
use las_shell.Alias.RoundTrip.{last_byte-snoc}
use las_shell.Alias.File.{read_line}
use las_shell.Audit.Record.{csv_quote, split_comma}
use las_shell.Audit.Record.Shape.{
  in_field, not_newline, split_comma-first, bytes_to_hex-digits, is_valid_hex64-bytes_to_hex,
  csv_quote_lem,
}
use las_shell.Audit.Log.{Entry, with_comma, sha_hex, chain_advance, body_of, final_record}
use las_shell.Audit.Verify.{
  end_line, rejoin, after_fifth, body_in, ok, check_body, check_fields, verify_record,
}
use las_shell.Audit.Verify.Fields.{
  IsEntry, line_of, command_end, read_line-line, split_comma-line_of, hashes-line_of,
  length-line_of, line_of-append, length-command_end,
}

module _ (sha : Bytes → Bytes) (sized : (s : Bytes) → length (sha s) ≡ 32) where
  pub hash_field : (s : Bytes) → Only in_field (sha_hex sha s)
  hash_field s = (bytes_to_hex-digits (sha s)).2

  pub length-hash : (s : Bytes) → length (sha_hex sha s) ≡ 64
  length-hash s = omega (arith, (bytes_to_hex-digits (sha s)).0, sized s)

  module _ (e : Entry) (v : IsEntry e) where
    abbrev pub out : Bytes
    out = sha_hex sha e.output

    -- The body that is hashed, and the line that is written with the hash `h`.
    abbrev pub plain_body : Bytes
    plain_body = line_of e (with_comma out (command_end e))

    abbrev pub record_line : Bytes → Bytes
    record_line h = line_of e (with_comma out (with_comma h (command_end e)))

    length-with_comma : (a b : Bytes) → length (with_comma a b) ≡ length a + length b + 1
    length-with_comma a b = omega (arith, length-append a (b',' ∷ b))

    length-plain_body : length plain_body ≤ 3072
    length-plain_body = omega (
      arith,
      length-line_of e v (with_comma out (command_end e)),
      length-with_comma out (command_end e),
      length-hash e.output,
      length-command_end e v,
    )

    length-record_line : (h : Bytes) → length h ≡ 64 → length (record_line h) ≤ 3137
    length-record_line h l = omega (
      arith,
      l,
      length-line_of e v (with_comma out (with_comma h (command_end e))),
      length-with_comma out (with_comma h (command_end e)),
      length-with_comma h (command_end e),
      length-hash e.output,
      length-command_end e v,
    )

    pub body_of_lem : body_of sha e ≡ plain_body
    unfolding body_of
    body_of_lem = take_all 4095 plain_body (omega (arith, length-plain_body))

    pub final_record_lem :
        (h : Bytes)
        → length h ≡ 64
        → final_record sha plain_body h (split_comma 5 false plain_body) ≡ record_line h
    final_record_lem h l =
        ap (final_record sha plain_body h)
          (split_comma-line_of e v out (command_end e) (hash_field e.output))
        ∙ ap (take 4199) (line_of-append e v out (b',' ∷ with_comma h (command_end e)))
        ∙ take_all 4199 (record_line h) (omega (arith, length-record_line h l))

    last_byte-plain_body : last_byte plain_body ≡ b'\n'
    last_byte-plain_body =
        ap last_byte (
          ap (line_of e) (sym (append_assoc out (b',' ∷ csv_quote e.cmd) (b'\n' ∷ [])))
          ∙ sym (line_of-append e v (with_comma out (csv_quote e.cmd)) (b'\n' ∷ [])))
        ∙ last_byte-snoc (line_of e (with_comma out (csv_quote e.cmd))) b'\n'

    end_line-plain_body : end_line plain_body ≡ plain_body
    end_line-plain_body = rw last_byte-plain_body refl

    body_in-record_line : (h : Bytes) → Only in_field h → body_in (record_line h) ≡ some plain_body
    unfolding body_in
    body_in-record_line h w =
        ap after_fifth
          (split_comma-line_of e v out (with_comma h (command_end e)) (hash_field e.output))
        ∙ ap (rejoin (line_of e out)) (split_comma-first h (command_end e) w)
        ∙ ap (λ s. some (end_line (take 4095 (line_of e out ++ s))))
            (take_all 2047 (b',' ∷ command_end e) (omega (arith, length-command_end e v)))
        ∙ ap (λ s. some (end_line (take 4095 s))) (line_of-append e v out (b',' ∷ command_end e))
        ∙ ap (λ s. some (end_line s)) (take_all 4095 plain_body (omega (arith, length-plain_body)))
        ∙ ap (λ s. some s) end_line-plain_body

    -- The record that a command leaves.
    abbrev pub record_of : Bytes → Bytes
    record_of chain = record_line (chain_advance sha chain (body_of sha e))

    pub verify_record_lem :
        (chain : Bytes)
        → verify_record sha chain (record_of chain) ≡ (ok, chain_advance sha chain (body_of sha e))
    unfolding verify_record chain_advance
    verify_record_lem chain =
        let input = take 64 chain ++ body_of sha e in
        let h = sha_hex sha input in
        ap (check_fields sha chain (record_line h)) (
          hashes-line_of e v out h (command_end e) (hash_field e.output) (hash_field input)
            (omega (arith, length-hash e.output)) (omega (arith, length-hash input)))
        ∙ rw
            (
              is_valid_hex64-bytes_to_hex (sha e.output) (sized e.output),
              is_valid_hex64-bytes_to_hex (sha input) (sized input),
            )
            (ap (check_body sha chain h) (body_in-record_line h (hash_field input))
              ∙ ap (λ b. check_body sha chain h (some b)) (sym body_of_lem)
              ∙ rw ((str_eq_iff (take 64 h) (take 64 h)).1 refl) refl)

    -- The line has a first byte that does not make the verifier skip it, and one line end.
    abbrev pub FirstByte : Bytes → Type 0
    FirstByte s =
        (c : ℕ) × (cs : Bytes) × (s ≡ c ∷ cs) × ((c == b'#') ≡ false) × ((c == b'\n') ≡ false)

    pub FirstByte-with_comma :
        (t rest : Bytes)
        → Only in_field t
        → (peek t == b'#') ≡ false
        → FirstByte (with_comma t rest)
    FirstByte-with_comma [] rest h n = (b',', rest, refl, refl, refl)
    FirstByte-with_comma (c ∷ t) rest h n = (c, t ++ (b',' ∷ rest), refl, n, ground (arith, h.0))

    not_newline-field : (t : Bytes) → Only in_field t → Only not_newline t
    not_newline-field [] h = tt
    not_newline-field (c ∷ t) h = (ground (arith, h.0), not_newline-field t h.1)

    not_newline-with_comma :
        (t rest : Bytes)
        → Only in_field t
        → Only not_newline rest
        → Only not_newline (with_comma t rest)
    not_newline-with_comma t rest h k =
        All-append (λ c. not_newline c ≡ true) t (b',' ∷ rest) (not_newline-field t h) (refl, k)

    abbrev pub inner : Bytes → Bytes
    inner h = line_of e (with_comma out (with_comma h (csv_quote e.cmd)))

    record_line-inner : (h : Bytes) → record_line h ≡ inner h ++ (b'\n' ∷ [])
    record_line-inner h = sym (
        line_of-append e v (with_comma out (with_comma h (csv_quote e.cmd))) (b'\n' ∷ [])
        ∙ ap (line_of e) (
            append_assoc out (b',' ∷ with_comma h (csv_quote e.cmd)) (b'\n' ∷ [])
            ∙ ap (with_comma out) (append_assoc h (b',' ∷ csv_quote e.cmd) (b'\n' ∷ []))))

    inner-not_newline : (h : Bytes) → Only in_field h → Only not_newline (inner h)
    inner-not_newline h k = not_newline-with_comma e.ts _ v.ts_field (
        not_newline-with_comma e.user _ v.user_field (
          not_newline-with_comma e.pid _ v.pid_field (
            not_newline-with_comma e.exit_code _ v.exit_field (
              not_newline-with_comma out _ (hash_field e.output)
                (not_newline-with_comma h _ k (csv_quote_lem e.cmd v.one_line).1)))))

    pub read_record :
        (h rest : Bytes)
        → Only in_field h
        → length h ≡ 64
        → read_line 4095 (record_line h ++ rest) ≡ (record_line h, rest)
    read_record h rest k l =
        ap (λ s. read_line 4095 (s ++ rest)) (record_line-inner h)
        ∙ ap (read_line 4095) (append_assoc (inner h) (b'\n' ∷ []) rest)
        ∙ read_line-line 4095 (inner h) rest (inner-not_newline h k) (
            omega (
              arith,
              length-record_line h l,
              ap length (record_line-inner h),
              length-append (inner h) (b'\n' ∷ []),
            ))
        ∙ ap (λ s. (s, rest)) (sym (record_line-inner h))
