-- ===== src/Audit/Verify.antt =====
-- src/audit.c: `audit_verify_log`, with the printed report left out but for its counts. The log holds
-- no NUL byte: the code takes one inside a line for the line's end, and the model reads on.
pub mod Fields
pub mod Line
pub mod Accepts
pub mod Texts
pub mod Tamper
use las_shell.Prelude.{
  ℕ, zero, suc, ◌+◌, Bytes, length, take, drop, peek, Bool, true, false, not, ◌&&◌, ◌||◌, Option,
  none, some, List, [], ◌∷◌, ◌++◌, ◌==◌, if◌then◌else◌,
}
use las_shell.CString.Libc.{str_eq}
use las_shell.InputParser.{last_byte}
use las_shell.Alias.File.{read_line}
use las_shell.Audit.Record.{is_valid_hex64, split_comma}
use las_shell.Audit.Log.{chain_advance}

-- A field without quotes, up to a comma or the end of the line, of at most `room` bytes.
unfoldable pub plain_field : ℕ → Bytes → Bytes × Bytes
plain_field zero s = ([], s)
plain_field (suc room) [] = ([], [])
plain_field (suc room) (c ∷ cs) =
    let (f, rest) = plain_field room cs in
    if c == b',' || c == b'\n' then ([], c ∷ cs) else (c ∷ f, rest)

-- The inside of a field in quotes, where a doubled quote is one.
unfoldable pub quoted_field : ℕ → Bytes → Bytes × Bytes
quoted_field zero s = ([], s)
quoted_field (suc room) [] = ([], [])
quoted_field (suc room) (c ∷ cs) =
    let doubled = c == b'"' && peek cs == b'"' in
    let (f, rest) = quoted_field room (if doubled then drop 1 cs else cs) in
    if c == b'"' && not doubled then ([], c ∷ cs) else (c ∷ f, rest)

abbrev pub skip_if : ℕ → Bytes → Bytes
skip_if b [] = []
skip_if b (c ∷ cs) = if c == b then cs else c ∷ cs

-- A field, and the bytes behind its comma.
abbrev pub field : ℕ → Bytes → Bytes × Bytes
field c cs =
    if c == b'"'
    then (let (f, rest) = quoted_field 1023 cs in (f, skip_if b',' (skip_if b'"' rest)))
    else (let (f, rest) = plain_field 1023 (c ∷ cs) in (f, skip_if b',' rest))

-- At most `n` fields.
unfoldable pub fields : ℕ → Bytes → List Bytes
unfolding plain_field quoted_field
fields zero s = []
fields (suc n) [] = []
fields (suc n) (c ∷ cs) = let (f, rest) = field c cs in f ∷ fields n rest

-- The hash of the output and the stored chain hash, if there are six fields.
abbrev pub hashes : List Bytes → Option (Bytes × Bytes)
hashes (ts ∷ user ∷ pid ∷ exit ∷ sh ∷ ch ∷ rest) = some (sh, ch)
hashes _ = none

abbrev pub end_line : Bytes → Bytes
end_line s = if last_byte s == b'\n' then s else s ++ (b'\n' ∷ [])

-- The line without its chain hash.
abbrev pub rejoin : Bytes → Option (Bytes × Bytes) → Option Bytes
rejoin pre none = none
rejoin pre (some (chain, suffix)) = some (end_line (take 4095 (pre ++ take 2047 suffix)))

abbrev pub after_fifth : Option (Bytes × Bytes) → Option Bytes
after_fifth none = none
after_fifth (some (pre, rest)) = rejoin pre (split_comma 1 false (drop 1 rest))

unfoldable pub body_in : Bytes → Option Bytes
unfolding split_comma
body_in line = after_fifth (split_comma 5 false line)

pub data Verdict : Type 0 where
  ok chain_broken malformed : Verdict

module _ (compute_sha256 : Bytes → Bytes) where
  -- The verdict on a record, and the chain behind it.
  abbrev pub check_body : Bytes → Bytes → Option Bytes → Verdict × Bytes
  check_body chain ch none = (malformed, chain)
  check_body chain ch (some body) =
      if str_eq (take 64 (chain_advance compute_sha256 chain body)) (take 64 ch)
      then (ok, ch)
      else (chain_broken, ch)

  abbrev pub check_fields : Bytes → Bytes → Option (Bytes × Bytes) → Verdict × Bytes
  check_fields chain line none = (malformed, chain)
  check_fields chain line (some (sh, ch)) =
      if is_valid_hex64 sh && is_valid_hex64 ch
      then check_body chain ch (body_in line)
      else (malformed, chain)

  unfoldable pub verify_record : Bytes → Bytes → Verdict × Bytes
  unfolding fields is_valid_hex64 body_in str_eq chain_advance
  verify_record chain line = check_fields chain line (hashes (fields 8 line))

  abbrev pub next_chain : Bool → Bytes → Verdict × Bytes → Bytes
  next_chain skipped chain (verdict, chain') = if skipped then chain else chain'

  abbrev pub add_verdict : Bool → Verdict × Bytes → List Verdict × Bytes → List Verdict × Bytes
  add_verdict skipped (verdict, chain') (verdicts, last) =
      (if skipped then verdicts else verdict ∷ verdicts, last)

  -- The loop over the lines, on fuel: the verdicts on the records, and the chain at the end.
  unfoldable pub verify_lines : ℕ → Bytes → Bytes → List Verdict × Bytes
  unfolding verify_record read_line
  verify_lines zero chain s = ([], chain)
  verify_lines (suc fuel) chain [] = ([], chain)
  verify_lines (suc fuel) chain (c ∷ cs) =
      let (line, rest) = read_line 4095 (c ∷ cs) in
      let skipped = c == b'#' || c == b'\n' in
      let checked = verify_record chain line in
      add_verdict skipped checked (verify_lines fuel (next_chain skipped chain checked) rest)

  abbrev pub is_ok : Verdict → Bool
  is_ok ok = true
  is_ok _ = false

  unfoldable pub all_ok : List Verdict → Bool
  all_ok [] = true
  all_ok (v ∷ vs) = is_ok v && all_ok vs

  -- Whether the result is 0: the genesis is that of `get_or_create_genesis`.
  unfoldable pub audit_verify_log : Bytes → Bytes → Bool
  unfolding verify_lines all_ok
  audit_verify_log genesis log = all_ok (verify_lines (suc (length log)) genesis log).0
