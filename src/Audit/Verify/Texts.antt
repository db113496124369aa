-- ===== src/Audit/Verify/Texts.antt =====
-- What the records of a log hold for the chain: their bodies, and the texts that are hashed.
use las_shell.Prelude.{
  ℕ, zero, suc, Bytes, length, take, Option, none, some, List, [], ◌∷◌, ◌++◌, ◌||◌, ◌==◌,
  if◌then◌else◌,
}
use las_shell.Alias.File.{read_line}
use las_shell.Audit.Verify.{hashes, fields, body_in}

-- The hashed bodies of the records of a log, `none` for a line without one.
unfoldable pub bodies_in : ℕ → Bytes → List (Option Bytes)
unfolding read_line body_in
bodies_in zero s = []
bodies_in (suc fuel) [] = []
bodies_in (suc fuel) (c ∷ cs) =
    let (line, rest) = read_line 4095 (c ∷ cs) in
    let later = bodies_in fuel rest in
    if c == b'#' || c == b'\n' then later else body_in line ∷ later

unfoldable pub bodies : Bytes → List (Option Bytes)
unfolding bodies_in
bodies s = bodies_in (suc (length s)) s

-- The chain hash that a record stores, or else the hash in front of it.
abbrev pub stored_or : Bytes → Option (Bytes × Bytes) → Bytes
stored_or chain none = chain
stored_or chain (some (sh, ch)) = ch

-- What is hashed for a record: the hash that the record in front of it stores, and its body.
abbrev pub add_text : Bytes → Option Bytes → List Bytes → List Bytes
add_text chain none later = later
add_text chain (some body) later = (take 64 chain ++ body) ∷ later

-- The texts that are hashed for the records of a log, in their order.
unfoldable pub texts_in : ℕ → Bytes → Bytes → List Bytes
unfolding read_line body_in fields
texts_in zero chain s = []
texts_in (suc fuel) chain [] = []
texts_in (suc fuel) chain (c ∷ cs) =
    let (line, rest) = read_line 4095 (c ∷ cs) in
    let skipped = c == b'#' || c == b'\n' in
    let stored = stored_or chain (hashes (fields 8 line)) in
    let later = texts_in fuel (if skipped then chain else stored) rest in
    if skipped then later else add_text chain (body_in line) later

unfoldable pub texts : Bytes → Bytes → List Bytes
unfolding texts_in
texts genesis s = texts_in (suc (length s)) genesis s
