-- ===== src/Audit/Verify/Accepts.antt =====
-- A log that `audit_log_command` wrote is accepted by `audit_verify_log`.
use las_shell.Prelude.{
  ℕ, zero, suc, ◌<◌, ◌≡◌, refl, ap, sym, subst, ◌∙◌, Bytes, length, take, Bool, true, false, List,
  [], ◌∷◌, ◌++◌, ◌==◌, ◌||◌, arith, All, length-append, append_assoc, append-nil,
}
use las_shell.Audit.Record.{split_comma}
use las_shell.Alias.File.{read_line}
use las_shell.Audit.Log.{
  Entry, AuditState, chain_advance, body_of, audit_log_command, log_all, final_record,
}
use las_shell.Audit.Verify.{
  Verdict, ok, verify_record, verify_lines, next_chain, add_verdict, all_ok, audit_verify_log,
}
use las_shell.Audit.Verify.Fields.{IsEntry}
use las_shell.Audit.Verify.Line.{
  record_of, FirstByte-with_comma, verify_record_lem, read_record, hash_field, length-hash,
  body_of_lem, final_record_lem,
}

module _ (sha : Bytes → Bytes) (sized : (s : Bytes) → length (sha s) ≡ 32) where
  pub audit_log_command_lem :
      (e : Entry) (v : IsEntry e) (s : AuditState)
      → audit_log_command sha e s ≡ record {
        chain = chain_advance sha s.chain (body_of sha e);
        log = s.log ++ record_of sha sized e v s.chain;
      }
  unfolding audit_log_command chain_advance
  audit_log_command_lem e v s =
      ap (λ r. record { chain = chain_advance sha s.chain (body_of sha e); log = s.log ++ r })
        (ap (λ b. final_record sha b hash (split_comma 5 false b)) (body_of_lem sha sized e v)
          ∙ final_record_lem sha sized e v hash
              (length-hash sha sized (take 64 s.chain ++ body_of sha e)))
    where
      hash : Bytes
      hash = chain_advance sha s.chain (body_of sha e)

  verify_lines-cons :
      (f c : ℕ) (cs chain line rest chain' : Bytes) (vs : List Verdict) (last : Bytes)
      → (c == b'#') ≡ false
      → (c == b'\n') ≡ false
      → read_line 4095 (c ∷ cs) ≡ (line, rest)
      → verify_record sha chain line ≡ (ok, chain')
      → verify_lines sha f chain' rest ≡ (vs, last)
      → verify_lines sha (suc f) chain (c ∷ cs) ≡ (ok ∷ vs, last)
  unfolding verify_lines
  verify_lines-cons f c cs chain line rest chain' vs last h k r v l =
      let skipped : (c == b'#' || c == b'\n') ≡ false = rw (h, k) refl in
      ap (λ b. looped b (read_line 4095 (c ∷ cs))) skipped
      ∙ ap (looped false) r
      ∙ ap (λ t. add_verdict sha false t (verify_lines sha f (next_chain sha false chain t) rest)) v
      ∙ ap (add_verdict sha false (ok, chain')) l
    where
      looped : Bool → Bytes × Bytes → List Verdict × Bytes
      looped b p =
          add_verdict sha b (verify_record sha chain p.0)
            (verify_lines sha f (next_chain sha b chain (verify_record sha chain p.0)) p.1)

  -- One round of the verifier over a record.
  verify_lines-record :
      (f : ℕ) (e : Entry) (v : IsEntry e) (chain rest : Bytes) (vs : List Verdict) (last : Bytes)
      → verify_lines sha f (chain_advance sha chain (body_of sha e)) rest ≡ (vs, last)
      → verify_lines sha (suc f) chain (record_of sha sized e v chain ++ rest) ≡ (ok ∷ vs, last)
  unfolding chain_advance
  verify_lines-record f e v chain rest vs last h =
      let line = record_of sha sized e v chain in
      let input = take 64 chain ++ body_of sha e in
      let (c, cs, split, no_comment, no_end) =
        FirstByte-with_comma sha sized e v e.ts _ v.ts_field v.no_comment in
      let text : line ++ rest ≡ c ∷ (cs ++ rest) = ap (λ s. s ++ rest) split in
      ap (verify_lines sha (suc f) chain) text
      ∙ verify_lines-cons f c (cs ++ rest) chain line rest (chain_advance sha chain (body_of sha e))
          vs last no_comment no_end
          (ap (read_line 4095) (sym text)
            ∙ read_record sha sized e v (chain_advance sha chain (body_of sha e)) rest
                (hash_field sha sized input) (length-hash sha sized input))
          (verify_record_lem sha sized e v chain) h

  Accepted : List Entry → AuditState → Bytes → Type 0
  Accepted es s added =
      (f : ℕ)
      → length added < f
      → (vs : List Verdict) × (verify_lines sha f s.chain added ≡ (vs, (log_all sha es s).chain))
        × (all_ok sha vs ≡ true)

  -- What a list of entries adds to the log, and that the verifier accepts it.
  Written : List Entry → AuditState → Type 0
  Written es s = (added : Bytes) × ((log_all sha es s).log ≡ s.log ++ added) × Accepted es s added

  nothing_more : (f : ℕ) (chain : Bytes) → 0 < f → verify_lines sha f chain [] ≡ ([], chain)
  unfolding verify_lines
  nothing_more zero chain h = absurd (omega (arith, h))
  nothing_more (suc f) chain h = refl

  accept :
      (e : Entry) (es : List Entry) (v : IsEntry e) (s : AuditState) (added : Bytes)
      → Accepted es (audit_log_command sha e s) added
      → Accepted (e ∷ es) s (record_of sha sized e v s.chain ++ added)
  unfolding log_all all_ok Accepted
  accept e es v s added accepts zero k = absurd (omega (arith, k))
  accept e es v s added accepts (suc f) k =
      let line = record_of sha sized e v s.chain in
      let first = FirstByte-with_comma sha sized e v e.ts _ v.ts_field v.no_comment in
      let grows : length line ≡ suc (length first.1) = ap length first.2 in
      let (vs, verified, all) = accepts f (omega (arith, k, grows, length-append line added)) in
      (
        ok ∷ vs,
        verify_lines-record f e v s.chain added vs _ (
            subst
              (λ chain.
                verify_lines sha f chain added
                ≡ (vs, (log_all sha es (audit_log_command sha e s)).chain))
              (ap (λ t. t.chain) (audit_log_command_lem e v s)) verified),
        all,
      )

  entries-Written : (es : List Entry) (s : AuditState) → All IsEntry es → Written es s
  unfolding log_all all_ok Written Accepted
  entries-Written [] s h = ([], sym (append-nil s.log), λ f k. ([], nothing_more f s.chain k, refl))
  entries-Written (e ∷ es) s (v, h) =
      let next = audit_log_command sha e s in
      let line = record_of sha sized e v s.chain in
      let (added, log, accepts) = entries-Written es next h in
      (
        line ++ added,
        log
            ∙ ap (λ t. t.log ++ added) (audit_log_command_lem e v s)
            ∙ append_assoc s.log line added,
        accept e es v s added accepts,
      )

  -- Whatever commands are logged one after the other from a genesis, the log verifies from that
  -- genesis. An entry has no comma, quote or line end in its fields, its command has no line end, and
  -- the lengths keep the buffers from overflowing; `compute_sha256` gives 32 bytes.
  pub audit_verify_log-log_all :
      (es : List Entry) (genesis : Bytes)
      → All IsEntry es
      → audit_verify_log sha genesis (log_all sha es (record { chain = genesis; log = [] })).log
        ≡ true
  unfolding audit_verify_log Written Accepted
  audit_verify_log-log_all es genesis h =
      let start : AuditState = record { chain = genesis; log = [] } in
      let (added, log, accepts) = entries-Written es start h in
      let (vs, verified, good) = accepts (suc (length added)) (omega arith) in
      ap (λ s. all_ok sha (verify_lines sha (suc (length s)) genesis s).0) log
      ∙ ap (λ r. all_ok sha r.0) verified
      ∙ good
