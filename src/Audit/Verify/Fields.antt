-- ===== src/Audit/Verify/Fields.antt =====
-- The fields of a record, and a line that begins with them.
use las_shell.Prelude.{
  ℕ, zero, suc, ◌+◌, ◌<◌, ◌≤◌, ◌≡◌, refl, ap, ◌∙◌, Bytes, length, peek, false, some, [], ◌∷◌, ◌++◌,
  ◌==◌, arith, Only, length-append, append_assoc,
}
use las_shell.Alias.File.{read_line}
use las_shell.Audit.Record.{csv_quote, split_comma}
use las_shell.Audit.Record.Shape.{
  in_field, not_newline, behind, split_comma-first, split_comma-behind, csv_quote_lem,
}
use las_shell.Audit.Log.{Entry, with_comma}
use las_shell.Audit.Verify.{plain_field, skip_if, fields, hashes}

-- An entry that fits a line: no commas, quotes or line ends in its fields, no line end in its command.
pub record IsEntry (e : Entry) : Type 0 where
  pub ts_field : Only in_field e.ts
  pub no_comment : (peek e.ts == b'#') ≡ false
  pub user_field : Only in_field e.user
  pub pid_field : Only in_field e.pid
  pub exit_field : Only in_field e.exit_code
  pub fields_fit : length e.ts + length e.user + length e.pid + length e.exit_code ≤ 1000
  pub one_line : Only not_newline e.cmd
  pub cmd_fits : length e.cmd ≤ 1000

-- A line that begins with the fields of an entry.
abbrev pub line_of : Entry → Bytes → Bytes
line_of e s = with_comma e.ts (with_comma e.user (with_comma e.pid (with_comma e.exit_code s)))

abbrev pub command_end : Entry → Bytes
command_end e = csv_quote e.cmd ++ (b'\n' ∷ [])

pub read_line-line :
    (n : ℕ) (body rest : Bytes)
    → Only not_newline body
    → length body < n
    → read_line n (body ++ (b'\n' ∷ rest)) ≡ (body ++ (b'\n' ∷ []), rest)
unfolding read_line
read_line-line zero body rest h l = absurd (omega (arith, l))
read_line-line (suc n) [] rest h l = refl
read_line-line (suc n) (c ∷ cs) rest h l =
    let end : (c == b'\n') ≡ false = ground (arith, h.0) in
    rw end (ap (λ r. (c ∷ r.0, r.1)) (read_line-line n cs rest h.1 (omega (arith, l))))

pub plain_field_lem :
    (room : ℕ) (t rest : Bytes)
    → Only in_field t
    → length t ≤ room
    → plain_field room (t ++ (b',' ∷ rest)) ≡ (t, b',' ∷ rest)
unfolding plain_field
plain_field_lem zero [] rest h l = refl
plain_field_lem zero (c ∷ t) rest h l = absurd (omega (arith, l))
plain_field_lem (suc room) [] rest h l = refl
plain_field_lem (suc room) (c ∷ t) rest h l =
    let comma : (c == b',') ≡ false = ground (arith, h.0) in
    let end : (c == b'\n') ≡ false = ground (arith, h.0) in
    rw (comma, end) (ap (λ r. (c ∷ r.0, r.1)) (plain_field_lem room t rest h.1 (omega (arith, l))))

fields-cons :
    (n : ℕ) (t rest : Bytes)
    → Only in_field t
    → length t ≤ 1000
    → fields (suc n) (t ++ (b',' ∷ rest)) ≡ t ∷ fields n rest
unfolding fields
fields-cons n [] rest h l =
    ap (λ r. r.0 ∷ fields n (skip_if b',' r.1)) (plain_field_lem 1023 [] rest h (omega arith))
fields-cons n (c ∷ t) rest h l =
    let quote : (c == b'"') ≡ false = ground (arith, h.0) in
    rw quote (
      ap (λ r. r.0 ∷ fields n (skip_if b',' r.1))
        (plain_field_lem 1023 (c ∷ t) rest h (omega (arith, l))))

module _ (e : Entry) (v : IsEntry e) where
  pub split_comma-line_of :
      (hash rest : Bytes)
      → Only in_field hash
      → split_comma 5 false (line_of e (with_comma hash rest)) ≡ some (line_of e hash, b',' ∷ rest)
  split_comma-line_of hash rest h =
      split_comma-behind 3 e.ts _ v.ts_field
      ∙ ap (behind e.ts) (
          split_comma-behind 2 e.user _ v.user_field
          ∙ ap (behind e.user) (
              split_comma-behind 1 e.pid _ v.pid_field
              ∙ ap (behind e.pid) (
                  split_comma-behind 0 e.exit_code _ v.exit_field
                  ∙ ap (behind e.exit_code) (split_comma-first hash rest h))))

  pub hashes-line_of :
      (sh ch rest : Bytes)
      → Only in_field sh
      → Only in_field ch
      → length sh ≤ 1000
      → length ch ≤ 1000
      → hashes (fields 8 (line_of e (with_comma sh (with_comma ch rest)))) ≡ some (sh, ch)
  hashes-line_of sh ch rest h k l m = ap hashes (
      fields-cons 7 e.ts _ v.ts_field (omega (arith, v.fields_fit))
      ∙ ap (◌∷◌ e.ts) (
          fields-cons 6 e.user _ v.user_field (omega (arith, v.fields_fit))
          ∙ ap (◌∷◌ e.user) (
              fields-cons 5 e.pid _ v.pid_field (omega (arith, v.fields_fit))
              ∙ ap (◌∷◌ e.pid) (
                  fields-cons 4 e.exit_code _ v.exit_field (omega (arith, v.fields_fit))
                  ∙ ap (◌∷◌ e.exit_code)
                      (fields-cons 3 sh _ h l ∙ ap (◌∷◌ sh) (fields-cons 2 ch rest k m))))))

  pub length-line_of : (s : Bytes) → length (line_of e s) ≤ 1004 + length s
  length-line_of s = omega (
    arith,
    v.fields_fit,
    length-append e.ts (b',' ∷ with_comma e.user (with_comma e.pid (with_comma e.exit_code s))),
    length-append e.user (b',' ∷ with_comma e.pid (with_comma e.exit_code s)),
    length-append e.pid (b',' ∷ with_comma e.exit_code s),
    length-append e.exit_code (b',' ∷ s),
  )

  pub line_of-append : (s t : Bytes) → line_of e s ++ t ≡ line_of e (s ++ t)
  line_of-append s t =
      append_assoc e.ts _ t
      ∙ ap (with_comma e.ts) (
          append_assoc e.user _ t
          ∙ ap (with_comma e.user)
              (append_assoc e.pid _ t ∙ ap (with_comma e.pid) (append_assoc e.exit_code _ t)))

  pub length-command_end : length (command_end e) ≤ 2003
  length-command_end = omega (
    arith,
    (csv_quote_lem e.cmd v.one_line).0,
    v.cmd_fits,
    length-append (csv_quote e.cmd) (b'\n' ∷ []),
  )
