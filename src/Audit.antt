-- ===== src/Audit.antt =====
-- src/audit.c: the audit log, a chain of records that is written by `audit_log_command` and checked by
-- `audit_verify_log`.
pub mod Record
pub mod Log
pub mod Verify
pub mod Init
