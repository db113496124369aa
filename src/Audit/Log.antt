-- ===== src/Audit/Log.antt =====
-- src/audit.c: `chain_advance`, and the record that `audit_log_command` writes. `compute_sha256` is a
-- parameter, for it is either OpenSSL's or the file's own; the time, the user, the process, the status
-- and the output of a command are given as they are printed.
use las_shell.Prelude.{
  ◌-◌, Bytes, length, take, false, Option, none, some, List, [], ◌∷◌, ◌++◌, ◌==◌, if◌then◌else◌,
}
use las_shell.InputParser.{last_byte}
use las_shell.Audit.Record.{csv_quote, bytes_to_hex, split_comma}

pub record Entry : Type 0 where
  pub ts : Bytes
  pub user : Bytes
  pub pid : Bytes
  pub exit_code : Bytes
  pub output : Bytes
  pub cmd : Bytes

-- `g_chain_hash` and the bytes of the log.
pub record AuditState : Type 0 where
  pub chain : Bytes
  pub log : Bytes

abbrev pub with_comma : Bytes → Bytes → Bytes
with_comma a b = a ++ (b',' ∷ b)

module _ (compute_sha256 : Bytes → Bytes) where
  abbrev pub sha_hex : Bytes → Bytes
  sha_hex s = bytes_to_hex (compute_sha256 s)

  -- The first 64 bytes of the chain and the body.
  unfoldable pub chain_advance : Bytes → Bytes → Bytes
  unfolding bytes_to_hex
  chain_advance chain body = sha_hex (take 64 chain ++ body)

  unfoldable pub body_of : Entry → Bytes
  unfolding csv_quote bytes_to_hex
  body_of e = take 4095 (
      with_comma e.ts (
        with_comma e.user (
          with_comma e.pid (
            with_comma e.exit_code
              (with_comma (sha_hex e.output) (csv_quote e.cmd ++ (b'\n' ∷ [])))))))

  abbrev pub drop_newline : Bytes → Bytes
  drop_newline s = if last_byte s == b'\n' then take (length s - 1) s else s

  -- The record with the chain hash as its sixth field.
  abbrev pub final_record : Bytes → Bytes → Option (Bytes × Bytes) → Bytes
  final_record body hash none = take 4199 (with_comma (drop_newline body) (hash ++ (b'\n' ∷ [])))
  final_record body hash (some (pre, suffix)) = take 4199 (with_comma pre (hash ++ suffix))

  unfoldable pub audit_log_command : Entry → AuditState → AuditState
  unfolding body_of chain_advance split_comma
  audit_log_command e s =
      let body = body_of e in
      let chain' = chain_advance s.chain body in
      record { chain = chain'; log = s.log ++ final_record body chain' (split_comma 5 false body) }

  unfoldable pub log_all : List Entry → AuditState → AuditState
  unfolding audit_log_command
  log_all [] s = s
  log_all (e ∷ es) s = log_all es (audit_log_command e s)
