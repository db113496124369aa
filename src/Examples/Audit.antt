-- ===== src/Examples/Audit.antt =====
-- The audit log (src/audit.c) at concrete inputs, with a sum of the bytes for the hash.
use las_shell.InputParser.{last_byte}
use las_shell.Prelude.{
  ℕ, zero, suc, ◌+◌, ◌*◌, ◌%◌, ◌≡◌, refl, Bytes, codes, length, true, List, [], ◌∷◌, ◌++◌, arith,
  ◌⊎◌,
}
use las_shell.Audit.Record.{csv_quote}
use las_shell.Audit.Record.Shape.{in_field, not_newline}
use las_shell.Audit.Log.{Entry, AuditState, log_all}
use las_shell.Audit.Verify.{audit_verify_log}
use las_shell.Audit.Verify.Fields.{IsEntry}
use las_shell.Audit.Verify.Accepts.{audit_verify_log-log_all}
use las_shell.Audit.Verify.Texts.{bodies, texts}
use las_shell.Audit.Verify.Tamper.{last_chain, Collision, audit_verify_log-bodies}
use las_shell.Audit.Init.{audit_init}
use las_shell.Audit.Init.Resumes.{audit_init-log_all}
use las_shell.Examples.Data.{only}

abbrev repeated : ℕ → ℕ → Bytes
repeated zero b = []
repeated (suc n) b = b ∷ repeated n b

abbrev mixed : ℕ → Bytes → ℕ
mixed acc [] = acc
mixed acc (c ∷ cs) = mixed ((acc * 31 + c) % 256) cs

abbrev toy_hash : Bytes → Bytes
toy_hash s = repeated 32 (mixed 7 s)

abbrev genesis : Bytes
genesis = repeated 64 b'0'

abbrev bought : Entry
bought = record {
  ts = codes "2026-03-09T12:00:05Z";
  user = codes "trader";
  pid = codes "4711";
  exit_code = codes "0";
  output = codes "filled";
  cmd = codes "order \"SPY\", 100";
}

quoted_command : csv_quote (codes "say \"hi\"") ≡ codes "\"say \"\"hi\"\"\""
unfolding csv_quote
quoted_command = refl

bought-IsEntry : IsEntry bought
bought-IsEntry = record {
  ts_field = only in_field bought.ts refl;
  no_comment = refl;
  user_field = only in_field bought.user refl;
  pid_field = only in_field bought.pid refl;
  exit_field = only in_field bought.exit_code refl;
  fields_fit = omega arith;
  one_line = only not_newline bought.cmd refl;
  cmd_fits = omega arith;
}

abbrev entries : List Entry
entries = bought ∷ bought ∷ []

audit_verify_log-log_all_example :
    audit_verify_log toy_hash genesis
      (log_all toy_hash entries (record { chain = genesis; log = [] })).log
    ≡ true
audit_verify_log-log_all_example =
    audit_verify_log-log_all toy_hash (λ s. refl) entries genesis
      (bought-IsEntry, (bought-IsEntry, tt))

abbrev empty_log : AuditState
empty_log = record { chain = genesis; log = [] }

abbrev written : Bytes
written = (log_all toy_hash entries empty_log).log

-- The same log with a marker of a session.
abbrev marked : Bytes
marked = codes "# SESSION_START\n" ++ written

marked-verifies : audit_verify_log toy_hash genesis marked ≡ true
unfolding audit_verify_log log_all last_byte
marked-verifies = refl

marked_count : length (bodies written) ≡ length (bodies marked)
unfolding log_all bodies
marked_count = refl

marked_chain :
    last_chain toy_hash (λ s. refl) genesis written ≡ last_chain toy_hash (λ s. refl) genesis marked
unfolding log_all last_chain
marked_chain = refl

audit_verify_log-bodies_example :
    (bodies written ≡ bodies marked)
    ⊎ Collision toy_hash (λ s. refl) (texts genesis written) (texts genesis marked)
audit_verify_log-bodies_example =
    audit_verify_log-bodies toy_hash (λ s. refl) genesis written marked refl
      (audit_verify_log-log_all toy_hash (λ s. refl) entries genesis
        (bought-IsEntry, (bought-IsEntry, tt)))
      marked-verifies marked_count marked_chain

audit_init-log_all_example : audit_init genesis (codes "# SESSION_START\n") written ≡ record {
  chain = (log_all toy_hash entries empty_log).chain;
  log = written ++ codes "# SESSION_START\n";
}
audit_init-log_all_example =
    audit_init-log_all toy_hash (λ s. refl) entries genesis (codes "# SESSION_START\n")
      (bought-IsEntry, (bought-IsEntry, tt))
