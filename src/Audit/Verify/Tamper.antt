-- ===== src/Audit/Verify/Tamper.antt =====
-- What two logs have in common that `audit_verify_log` accepts with the same last hash.
use las_shell.Prelude.{
  ℕ, zero, suc, ◌≡◌, ◌≢◌, ◌⊎◌, inl, inr, refl, ap, ap₂, sym, subst, ◌∙◌, Bytes, length, take,
  take_all, take-append, drop, drop-append, Bool, true, false, ◌&&◌, ◌||◌, Option, none, some, List,
  [], ◌∷◌, ◌++◌, map, ◌==◌, if◌then◌else◌, arith, Bool-cases, if_elim,
}
use las_shell.CString.Libc.{str_eq, str_eq_iff}
use las_shell.Alias.File.{read_line}
use las_shell.Audit.Record.{is_valid_hex64}
use las_shell.Audit.Log.{sha_hex, chain_advance}
use las_shell.Audit.Verify.{
  Verdict, ok, chain_broken, malformed, hashes, fields, body_in, is_ok, check_body, check_fields,
  verify_record, verify_lines, next_chain, add_verdict, all_ok, audit_verify_log,
}
use las_shell.Audit.Verify.Line.{length-hash}
use las_shell.Audit.Verify.Texts.{bodies_in, bodies, stored_or, add_text, texts_in, texts}

module _ (sha : Bytes → Bytes) (sized : (s : Bytes) → length (sha s) ≡ 32) where
  -- The chain hash of the last record.
  unfoldable pub last_chain : Bytes → Bytes → Bytes
  unfolding verify_lines
  last_chain genesis s = (verify_lines sha (suc (length s)) genesis s).1

  -- At one position the two lists have different texts with the same hash.
  pub data Collision : List Bytes → List Bytes → Type 0 where
    here :
        {x y : Bytes} {xs ys : List Bytes}
        → x ≢ y
        → sha_hex sha x ≡ sha_hex sha y
        → Collision (x ∷ xs) (y ∷ ys)
    there : {x y : Bytes} {xs ys : List Bytes} → Collision xs ys → Collision (x ∷ xs) (y ∷ ys)

  -- A chain over bodies, with the texts that are hashed.
  data Trail : Bytes → List Bytes → List Bytes → Bytes → Type 0 where
    nil : (chain : Bytes) → Trail chain [] [] chain
    cons :
        (chain body : Bytes) (bs xs : List Bytes) (last : Bytes)
        → Trail (chain_advance sha chain body) bs xs last
        → Trail chain (body ∷ bs) ((take 64 chain ++ body) ∷ xs) last

  split_input :
      (a b x y : Bytes)
      → length a ≡ 64
      → length b ≡ 64
      → take 64 a ++ x ≡ take 64 b ++ y
      → (a ≡ b) × (x ≡ y)
  split_input a b x y h k e =
      let p : take 64 a ≡ a = take_all 64 a (omega (arith, h)) in
      let q : take 64 b ≡ b = take_all 64 b (omega (arith, k)) in
      let e' : a ++ x ≡ b ++ y = ap (λ s. s ++ x) (sym p) ∙ e ∙ ap (λ s. s ++ y) q in
      let n : length a ≡ length b = omega (arith, h, k) in
      (
        sym (take-append a x) ∙ ap₂ (λ (i : ℕ) (s : Bytes). take i s) n e' ∙ take-append b y,
        sym (drop-append a x) ∙ ap₂ (λ (i : ℕ) (s : Bytes). drop i s) n e' ∙ drop-append b y,
      )

  length-chain_advance : (chain body : Bytes) → length (chain_advance sha chain body) ≡ 64
  unfolding chain_advance
  length-chain_advance chain body = length-hash sha sized (take 64 chain ++ body)

  same_input :
      (a b x y : Bytes) (xs ys : List Bytes)
      → length a ≡ 64
      → length b ≡ 64
      → chain_advance sha a x ≡ chain_advance sha b y
      → ((a ≡ b) × (x ≡ y)) ⊎ Collision ((take 64 a ++ x) ∷ xs) ((take 64 b ++ y) ∷ ys)
  unfolding chain_advance
  same_input a b x y xs ys h k e =
      let u = take 64 a ++ x in
      let w = take 64 b ++ y in
      elim (Bool-cases (str_eq u w)) [
        | inl same ↦ inl (split_input a b x y h k ((str_eq_iff u w).0 same))
        | inr other ↦ inr (here (λ i. ground (arith, other, (str_eq_iff u w).1 i)) e)
      ]

  Trail-same :
      (a b : Bytes) (bs cs xs ys : List Bytes) (last : Bytes)
      → length a ≡ 64
      → length b ≡ 64
      → length bs ≡ length cs
      → Trail a bs xs last
      → Trail b cs ys last
      → ((a ≡ b) × (bs ≡ cs)) ⊎ Collision xs ys
  Trail-same _ _ _ _ _ _ _ h k n (nil _) (nil _) = inl (refl, refl)
  Trail-same _ _ _ _ _ _ _ h k n (nil _) (cons _ _ _ _ _ t) = absurd (omega (arith, n))
  Trail-same _ _ _ _ _ _ _ h k n (cons _ _ _ _ _ t) (nil _) = absurd (omega (arith, n))
  Trail-same _ _ _ _ _ _ last h k n (cons a x bs xs _ t) (cons b y cs ys _ u) =
      elim (Trail-same (chain_advance sha a x) (chain_advance sha b y) bs cs xs ys last
        (length-chain_advance a x) (length-chain_advance b y) (omega (arith, n)) t u) [
          | inr found ↦ inr (there found)
          | inl (e, es) ↦ elim (same_input a b x y xs ys h k e) [
            | inr found ↦ inr found
            | inl (f, g) ↦ inl (f, ap₂ (λ (z : Bytes) (zs : List Bytes). z ∷ zs) g es)
          ]
        ]

  -- A record that is accepted has a body, and its stored hash is the hash of the chain and the body.
  Chained : Bytes → Bytes → Verdict × Bytes → Type 0
  Chained chain line r =
      (body : Bytes) × (body_in line ≡ some body)
      × (r.1 ≡ chain_advance sha chain body)
      × (r.1 ≡ stored_or chain (hashes (fields 8 line)))

  check_body-Chained :
      (chain line ch : Bytes) (o : Option Bytes)
      → length ch ≡ 64
      → body_in line ≡ o
      → ch ≡ stored_or chain (hashes (fields 8 line))
      → is_ok sha (check_body sha chain ch o).0 ≡ true
      → Chained chain line (check_body sha chain ch o)
  unfolding Chained
  check_body-Chained chain line ch none l e st = λ h. ground (arith, h)
  check_body-Chained chain line ch (some body) l e st =
      let hash = chain_advance sha chain body in
      if_elim (λ r. is_ok sha r.0 ≡ true → Chained chain line r)
        (str_eq (take 64 hash) (take 64 ch)) (ok, ch) (chain_broken, ch)
        (λ same. λ h. (
          body,
          e,
          sym (
              sym (take_all 64 hash (omega (arith, length-chain_advance chain body)))
              ∙ (str_eq_iff (take 64 hash) (take 64 ch)).0 same
              ∙ take_all 64 ch (omega (arith, l))),
          st,
        ))
        (λ other. λ h. ground (arith, h))

  length-valid : (s : Bytes) → is_valid_hex64 s ≡ true → length s ≡ 64
  unfolding is_valid_hex64
  length-valid s h = ground (arith, h)

  check_fields-Chained :
      (chain line : Bytes) (o : Option (Bytes × Bytes))
      → hashes (fields 8 line) ≡ o
      → is_ok sha (check_fields sha chain line o).0 ≡ true
      → Chained chain line (check_fields sha chain line o)
  check_fields-Chained chain line none from = λ h. ground (arith, h)
  check_fields-Chained chain line (some (sh, ch)) from =
      if_elim (λ r. is_ok sha r.0 ≡ true → Chained chain line r)
        (is_valid_hex64 sh && is_valid_hex64 ch) (check_body sha chain ch (body_in line))
        (malformed, chain)
        (λ valid.
          check_body-Chained chain line ch (body_in line) (length-valid ch (ground (arith, valid)))
            refl (sym (ap (stored_or chain) from)))
        (λ other. λ h. ground (arith, h))

  verify_record-Chained :
      (chain line : Bytes)
      → is_ok sha (verify_record sha chain line).0 ≡ true
      → Chained chain line (verify_record sha chain line)
  unfolding verify_record
  verify_record-Chained chain line = check_fields-Chained chain line (hashes (fields 8 line)) refl

  -- The rest of a log as a trail.
  Trailed : List (Option Bytes) → List Bytes → Bytes → List Verdict × Bytes → Type 0
  Trailed os xs chain r = (bs : List Bytes) × (os ≡ map some bs) × Trail chain bs xs r.1

  round_lem :
      (skipped : Bool) (f : ℕ) (chain line rest : Bytes)
      → ((chain : Bytes)
          → all_ok sha (verify_lines sha f chain rest).0 ≡ true
          → Trailed
              (bodies_in f rest)
              (texts_in f chain rest)
              chain
              (verify_lines sha f chain rest))
      → all_ok sha
          (add_verdict sha skipped (verify_record sha chain line) (
            verify_lines sha f
              (next_chain sha skipped chain (verify_record sha chain line))
              rest)).0
        ≡ true
      → (let later =
            texts_in f (if skipped then chain else stored_or chain (hashes (fields 8 line))) rest in
          Trailed
            (if skipped then bodies_in f rest else body_in line ∷ bodies_in f rest)
            (if skipped then later else add_text chain (body_in line) later)
            chain
            (add_verdict sha skipped (verify_record sha chain line) (
              verify_lines sha f
                (next_chain sha skipped chain (verify_record sha chain line))
                rest)))
  unfolding Trailed Chained all_ok
  round_lem true f chain line rest ih h = ih chain h
  round_lem false f chain line rest ih h =
      let (body, found, hash, stored) = verify_record-Chained chain line (ground (arith, h)) in
      let (bs, same, trail) = ih (verify_record sha chain line).1 (ground (arith, h)) in
      let last = (verify_lines sha f (verify_record sha chain line).1 rest).1 in
      let onward : Trail (chain_advance sha chain body) bs
          (texts_in f (stored_or chain (hashes (fields 8 line))) rest) last =
        subst (λ c. Trail c bs (texts_in f (stored_or chain (hashes (fields 8 line))) rest) last)
          hash
          (subst (λ c. Trail (verify_record sha chain line).1 bs (texts_in f c rest) last) stored
            trail) in
      (
        body ∷ bs,
        ap₂ (λ (o : Option Bytes) (os : List (Option Bytes)). o ∷ os) found same,
        rw found (cons chain body bs _ last onward),
      )

  verify_lines-Trailed :
      (f : ℕ) (chain s : Bytes)
      → all_ok sha (verify_lines sha f chain s).0 ≡ true
      → Trailed (bodies_in f s) (texts_in f chain s) chain (verify_lines sha f chain s)
  unfolding verify_lines bodies_in texts_in Trailed
  verify_lines-Trailed zero chain s h = ([], refl, nil chain)
  verify_lines-Trailed (suc f) chain [] h = ([], refl, nil chain)
  verify_lines-Trailed (suc f) chain (c ∷ cs) h =
      let (line, rest) = read_line 4095 (c ∷ cs) in
      round_lem (c == b'#' || c == b'\n') f chain line rest (λ d k. verify_lines-Trailed f d rest k)
        h

  length-map-some : (bs : List Bytes) → length (map {B = Option Bytes} some bs) ≡ length bs
  length-map-some [] = refl
  length-map-some (b ∷ bs) = ap suc (length-map-some bs)

  -- Two logs that verify from the same genesis, with as many records as each other and with the same
  -- last chain hash, have the same bodies in the same order: times, users, processes, statuses, hashes
  -- of outputs and commands. Otherwise there is a record, at the same position in both, for which the
  -- text that is hashed (the chain hash stored in front of it, and its body) is not the same in the two
  -- logs but has the same hash.
  pub audit_verify_log-bodies :
      (genesis s t : Bytes)
      → length genesis ≡ 64
      → audit_verify_log sha genesis s ≡ true
      → audit_verify_log sha genesis t ≡ true
      → length (bodies s) ≡ length (bodies t)
      → last_chain genesis s ≡ last_chain genesis t
      → (bodies s ≡ bodies t) ⊎ Collision (texts genesis s) (texts genesis t)
  unfolding audit_verify_log bodies last_chain texts Trailed
  audit_verify_log-bodies genesis s t g h k n e =
      let (bs, p, u) = verify_lines-Trailed (suc (length s)) genesis s h in
      let (cs, q, w) = verify_lines-Trailed (suc (length t)) genesis t k in
      let count : length bs ≡ length cs =
        sym (length-map-some bs) ∙ sym (ap length p) ∙ n ∙ ap length q ∙ length-map-some cs in
      elim (Trail-same genesis genesis bs cs _ _ _ g g count u
        (subst (Trail genesis cs (texts genesis t)) (sym e) w)) [
          | inl (same, bodies_same) ↦ inl (p ∙ ap (map some) bodies_same ∙ sym q)
          | inr found ↦ inr found
        ]
