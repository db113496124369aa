-- ===== src/Audit/Init.antt =====
-- src/audit.c: `audit_init` on a log that can be opened: the seed of the chain is the last hash that
-- the log has, and else the genesis. The text of the marker is an argument.
pub mod Resumes
use las_shell.Prelude.{
  ℕ, zero, suc, Bytes, length, Bool, true, false, not, ◌&&◌, ◌||◌, [], ◌∷◌, ◌++◌, ◌==◌,
  if◌then◌else◌,
}
use las_shell.Alias.File.{read_line}
use las_shell.Audit.Record.{is_valid_hex64}
use las_shell.Audit.Log.{AuditState}
use las_shell.Audit.Verify.{plain_field}

-- The bytes behind the `n`th comma outside quotes; the second argument is `in_q`.
unfoldable pub past_commas : ℕ → Bool → Bytes → Bytes
past_commas zero in_q s = s
past_commas (suc n) in_q [] = []
past_commas (suc n) in_q (c ∷ cs) =
    let q = if c == b'"' then not in_q else in_q in
    past_commas (if not q && c == b',' then n else suc n) q cs

abbrev pub last_seen : Bytes → Bytes → Bytes
last_seen last line =
    let cand = (plain_field 64 (past_commas 5 false line)).0 in
    if is_valid_hex64 cand then cand else last

-- The loop over the lines, on fuel.
unfoldable pub seed_from : ℕ → Bytes → Bytes → Bytes
unfolding read_line past_commas plain_field is_valid_hex64
seed_from zero last s = last
seed_from (suc fuel) last [] = last
seed_from (suc fuel) last (c ∷ cs) =
    let (line, rest) = read_line 4095 (c ∷ cs) in
    let skipped = c == b'#' || c == b'\n' in
    seed_from fuel (if skipped then last else last_seen last line) rest

abbrev pub or_genesis : Bytes → Bytes → Bytes
or_genesis genesis [] = genesis
or_genesis genesis (c ∷ cs) = c ∷ cs

unfoldable pub audit_init : Bytes → Bytes → Bytes → AuditState
unfolding seed_from
audit_init genesis marker log = record {
  chain = or_genesis genesis (seed_from (suc (length log)) [] log);
  log = log ++ marker;
}
