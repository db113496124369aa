-- ===== src/Audit/Init/Resumes.antt =====
-- A session that starts on the log of another one goes on with its chain.
use las_shell.Prelude.{
  ℕ, zero, suc, ◌<◌, ◌≡◌, refl, ap, sym, ◌∙◌, Bytes, length, take, true, false, not, ◌&&◌, ◌||◌,
  List, [], ◌∷◌, ◌++◌, ◌==◌, if◌then◌else◌, arith, All, Only, length-append, append_assoc,
  append-nil,
}
use las_shell.Alias.File.{read_line}
use las_shell.Audit.Record.{is_valid_hex64}
use las_shell.Audit.Record.Shape.{in_field, is_valid_hex64-bytes_to_hex}
use las_shell.Audit.Log.{
  Entry, AuditState, with_comma, sha_hex, chain_advance, body_of, audit_log_command, log_all,
}
use las_shell.Audit.Verify.{plain_field}
use las_shell.Audit.Verify.Fields.{IsEntry, line_of, command_end, plain_field_lem}
use las_shell.Audit.Verify.Line.{
  record_of, out, FirstByte-with_comma, read_record, hash_field, length-hash,
}
use las_shell.Audit.Verify.Accepts.{audit_log_command_lem}
use las_shell.Audit.Init.{past_commas, last_seen, seed_from, or_genesis, audit_init}

past_commas_lem :
    (n : ℕ) (t rest : Bytes)
    → Only in_field t
    → past_commas (suc n) false (t ++ (b',' ∷ rest)) ≡ past_commas n false rest
unfolding past_commas
past_commas_lem n [] rest h = refl
past_commas_lem n (c ∷ t) rest h =
    let comma : (c == b',') ≡ false = ground (arith, h.0) in
    let quote : (c == b'"') ≡ false = ground (arith, h.0) in
    let s = t ++ (b',' ∷ rest) in
    ap
      (λ b.
        past_commas (if not (if b then true else false) && c == b',' then n else suc n)
          (if b then true else false) s)
      quote
    ∙ ap (λ b. past_commas (if b then n else suc n) false s) comma
    ∙ past_commas_lem n t rest h.1

past_none : (s : Bytes) → past_commas 0 false s ≡ s
unfolding past_commas
past_none s = refl

past_commas-line_of :
    (e : Entry) (hash rest : Bytes)
    → IsEntry e
    → Only in_field hash
    → past_commas 5 false (line_of e (with_comma hash rest)) ≡ rest
past_commas-line_of e hash rest v h =
    past_commas_lem 4 e.ts _ v.ts_field
    ∙ past_commas_lem 3 e.user _ v.user_field
    ∙ past_commas_lem 2 e.pid _ v.pid_field
    ∙ past_commas_lem 1 e.exit_code _ v.exit_field
    ∙ past_commas_lem 0 hash rest h
    ∙ past_none rest

seed_from-cons :
    (f c : ℕ) (cs last line rest : Bytes)
    → (c == b'#') ≡ false
    → (c == b'\n') ≡ false
    → read_line 4095 (c ∷ cs) ≡ (line, rest)
    → seed_from (suc f) last (c ∷ cs) ≡ seed_from f (last_seen last line) rest
unfolding seed_from
seed_from-cons f c cs last line rest h k r =
    let skipped : (c == b'#' || c == b'\n') ≡ false = rw (h, k) refl in
    ap
      (λ b.
        seed_from f (if b then last else last_seen last (read_line 4095 (c ∷ cs)).0)
          (read_line 4095 (c ∷ cs)).1)
      skipped
    ∙ ap (λ p. seed_from f (last_seen last p.0) p.1) r

no_lines : (f : ℕ) (last : Bytes) → seed_from f last [] ≡ last
unfolding seed_from
no_lines zero last = refl
no_lines (suc f) last = refl

module _ (sha : Bytes → Bytes) (sized : (s : Bytes) → length (sha s) ≡ 32) where
  abbrev next_hash : Entry → Bytes → Bytes
  next_hash e chain = chain_advance sha chain (body_of sha e)

  last_seen-record_of :
      (e : Entry) (v : IsEntry e) (last chain : Bytes)
      → last_seen last (record_of sha sized e v chain) ≡ next_hash e chain
  unfolding chain_advance
  last_seen-record_of e v last chain =
      let input = take 64 chain ++ body_of sha e in
      let hash = sha_hex sha input in
      let cand : (plain_field 64 (past_commas 5 false (record_of sha sized e v chain))).0 ≡ hash =
        ap (λ s. (plain_field 64 s).0)
          (past_commas-line_of e (out sha sized e v) (with_comma hash (command_end e)) v
            (hash_field sha sized e.output))
        ∙ ap (λ r. r.0)
            (plain_field_lem 64 hash (command_end e) (hash_field sha sized input)
              (omega (arith, length-hash sha sized input))) in
      ap (λ s. if is_valid_hex64 s then s else last) cand
      ∙ ap (λ b. if b then hash else last) (is_valid_hex64-bytes_to_hex (sha input) (sized input))

  -- The last hash behind some entries.
  abbrev resumed : List Entry → Bytes → Bytes → Bytes
  resumed [] last chain = last
  resumed (e ∷ es) last chain = chain

  Resumed : List Entry → AuditState → Bytes → Type 0
  Resumed es s added =
      (f : ℕ) (last : Bytes)
      → length added < f
      → seed_from f last added ≡ resumed es last (log_all sha es s).chain

  resumed-log_all :
      (es : List Entry) (s : AuditState)
      → resumed es s.chain (log_all sha es s).chain ≡ (log_all sha es s).chain
  unfolding log_all
  resumed-log_all [] s = refl
  resumed-log_all (e ∷ es) s = refl

  resume :
      (e : Entry) (es : List Entry) (v : IsEntry e) (s : AuditState) (added : Bytes)
      → Resumed es (audit_log_command sha e s) added
      → Resumed (e ∷ es) s (record_of sha sized e v s.chain ++ added)
  unfolding log_all Resumed chain_advance
  resume e es v s added later zero last k = absurd (omega (arith, k))
  resume e es v s added later (suc f) last k =
      let line = record_of sha sized e v s.chain in
      let input = take 64 s.chain ++ body_of sha e in
      let next = audit_log_command sha e s in
      let (c, cs, split, no_comment, no_end) =
        FirstByte-with_comma sha sized e v e.ts _ v.ts_field v.no_comment in
      let text : line ++ added ≡ c ∷ (cs ++ added) = ap (λ t. t ++ added) split in
      let grows : length line ≡ suc (length cs) = ap length split in
      ap (seed_from (suc f) last) text
      ∙ seed_from-cons f c (cs ++ added) last line added no_comment no_end (
          ap (read_line 4095) (sym text)
          ∙ read_record sha sized e v (next_hash e s.chain) added (hash_field sha sized input)
              (length-hash sha sized input))
      ∙ ap (λ h. seed_from f h added)
          (last_seen-record_of e v last s.chain
            ∙ sym (ap (λ t. t.chain) (audit_log_command_lem sha sized e v s)))
      ∙ later f next.chain (omega (arith, k, grows, length-append line added))
      ∙ resumed-log_all es next

  or_genesis-hash : (genesis s : Bytes) → or_genesis genesis (sha_hex sha s) ≡ sha_hex sha s
  or_genesis-hash genesis s = long (sha_hex sha s) (length-hash sha sized s)
    where
      long : (h : Bytes) → length h ≡ 64 → or_genesis genesis h ≡ h
      long [] l = absurd (omega (arith, l))
      long (c ∷ cs) l = refl

  or_genesis-log_all :
      (genesis : Bytes) (e : Entry) (es : List Entry) (s : AuditState)
      → or_genesis genesis (log_all sha es (audit_log_command sha e s)).chain
        ≡ (log_all sha es (audit_log_command sha e s)).chain
  unfolding log_all audit_log_command chain_advance
  or_genesis-log_all genesis e [] s = or_genesis-hash genesis _
  or_genesis-log_all genesis e (d ∷ es) s =
      or_genesis-log_all genesis d es (audit_log_command sha e s)

  or_genesis-resumed :
      (es : List Entry) (s : AuditState)
      → All IsEntry es
      → or_genesis s.chain (resumed es [] (log_all sha es s).chain) ≡ (log_all sha es s).chain
  unfolding log_all
  or_genesis-resumed [] s h = refl
  or_genesis-resumed (e ∷ es) s h = or_genesis-log_all s.chain e es s

  entries-Resumed :
      (es : List Entry) (s : AuditState)
      → All IsEntry es
      → (added : Bytes) × ((log_all sha es s).log ≡ s.log ++ added) × Resumed es s added
  unfolding log_all Resumed
  entries-Resumed [] s h = ([], sym (append-nil s.log), λ f last k. no_lines f last)
  entries-Resumed (e ∷ es) s (v, h) =
      let line = record_of sha sized e v s.chain in
      let (added, log, later) = entries-Resumed es (audit_log_command sha e s) h in
      (
        line ++ added,
        log
            ∙ ap (λ t. t.log ++ added) (audit_log_command_lem sha sized e v s)
            ∙ append_assoc s.log line added,
        resume e es v s added later,
      )

  -- A session that is started on the log that some commands left takes up the chain behind the last of
  -- them, or the genesis if there was none; the entries are such as `audit_verify_log` accepts.
  pub audit_init-log_all :
      (es : List Entry) (genesis marker : Bytes)
      → All IsEntry es
      → let s = log_all sha es (record { chain = genesis; log = [] }) in
        audit_init genesis marker s.log ≡ record { chain = s.chain; log = s.log ++ marker }
  unfolding audit_init Resumed
  audit_init-log_all es genesis marker h =
      let start : AuditState = record { chain = genesis; log = [] } in
      let s = log_all sha es start in
      let (added, log, later) = entries-Resumed es start h in
      let seed : seed_from (suc (length s.log)) [] s.log ≡ resumed es [] s.chain =
        ap (λ t. seed_from (suc (length t)) [] t) log
        ∙ later (suc (length added)) [] (omega arith) in
      ap (λ c. record { chain = c; log = s.log ++ marker })
        (ap (or_genesis genesis) seed ∙ or_genesis-resumed es start h)
