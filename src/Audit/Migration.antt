-- ===== src/Audit/Migration.antt =====
-- `ensure_schema`: a log from before the hash chain gets one.
use mini_vault.Base.{
  ℕ, ◌≤◌, ◌<◌, ◌≡◌, refl, Bool, false, ◌&&◌, some, List, [], ◌∷◌, ◌++◌, map, append_assoc, Text,
  arith, ◌==◌, All, update-append, update-none,
}
use mini_vault.Platform.{Platform}
use mini_vault.Db.{AuditLog}
use mini_vault.Audit.{
  genesis, row_str, valid, chain_hash, audit_verify, rehash, backfill, ensure_schema,
}
use mini_vault.Audit.Chain.{Ascending, Chained, sort_by-Ascending, audit_verify_iff}

Ascending-above :
    (k n : ℕ) (ls : List AuditLog) → Ascending k ls → n ≤ k → All (λ l. (l.id == n) ≡ false) ls
Ascending-above k n [] h le = tt
Ascending-above k n (l ∷ ls) h le = (ground arith, Ascending-above l.id n ls h.1 (omega arith))

Ascending-lt :
    (k : ℕ) (xs : List AuditLog) (r : AuditLog) (ys : List AuditLog)
    → Ascending k (xs ++ r ∷ ys)
    → k < r.id
Ascending-lt k [] r ys h = h.0
Ascending-lt k (x ∷ xs) r ys h = omega (arith, h.0, Ascending-lt x.id xs r ys h.1)

Ascending-below :
    (k : ℕ) (xs : List AuditLog) (r : AuditLog) (ys : List AuditLog)
    → Ascending k (xs ++ r ∷ ys)
    → All (λ l. (l.id == r.id) ≡ false) xs
Ascending-below k [] r ys h = tt
Ascending-below k (x ∷ xs) r ys h =
    (ground (arith, Ascending-lt x.id xs r ys h.1), Ascending-below x.id xs r ys h.1)

Ascending-behind :
    (k : ℕ) (xs : List AuditLog) (r : AuditLog) (ys : List AuditLog)
    → Ascending k (xs ++ r ∷ ys)
    → Ascending r.id ys
Ascending-behind k [] r ys h = h.1
Ascending-behind k (x ∷ xs) r ys h = Ascending-behind x.id xs r ys h.1

module _ (p : Platform) where
  abbrev hashed : Text → AuditLog → AuditLog
  hashed prev l = record l { previous_hash_b64 = prev; hash_b64 = chain_hash p (row_str l prev) }

  -- The log that the loop is to leave behind.
  abbrev rechained : Text → List AuditLog → List AuditLog
  rechained prev [] = []
  rechained prev (l ∷ ls) = hashed prev l ∷ rechained (chain_hash p (row_str l prev)) ls

  rehash-row :
      (k : ℕ) (prev : Text) (xs : List AuditLog) (r : AuditLog) (ys : List AuditLog)
      → Ascending k (xs ++ r ∷ ys)
      → rehash p r prev (xs ++ r ∷ ys) ≡ xs ++ hashed prev r ∷ ys
  rehash-row k prev xs r ys up =
      let above = Ascending-above r.id r.id ys (Ascending-behind k xs r ys up) (omega arith) in
      let is_row : AuditLog → Bool = λ l. l.id == r.id in
      let set_hash : AuditLog → AuditLog =
        λ l. record l { previous_hash_b64 = prev; hash_b64 = chain_hash p (row_str r prev) } in
      rw
        (
          update-append is_row set_hash xs (r ∷ ys),
          update-none is_row set_hash xs (Ascending-below k xs r ys up),
          update-none is_row set_hash ys above,
        )
        (ground arith)

  Ascending-hashed :
      (k : ℕ) (prev : Text) (xs : List AuditLog) (r : AuditLog) (ys : List AuditLog)
      → Ascending k (xs ++ r ∷ ys)
      → Ascending k (xs ++ hashed prev r ∷ ys)
  Ascending-hashed k prev [] r ys up = up
  Ascending-hashed k prev (x ∷ xs) r ys up = (up.0, Ascending-hashed x.id prev xs r ys up.1)

  backfill-rechained :
      (k : ℕ) (prev : Text) (xs ys : List AuditLog)
      → Ascending k (xs ++ ys)
      → backfill p prev ys (xs ++ ys) ≡ xs ++ rechained prev ys
  unfolding backfill
  backfill-rechained k prev xs [] up = refl
  backfill-rechained k prev xs (r ∷ ys) up =
      let up' = Ascending-hashed k prev xs r ys up in
      let next : Text = chain_hash p (row_str r prev) in
      let rest = backfill-rechained k next (xs ++ hashed prev r ∷ []) ys (rw append_assoc up') in
      rw (rehash-row k prev xs r ys up) (simp append_assoc at rest)

  rechained-Chained : (prev : Text) (ls : List AuditLog) → Chained p prev (rechained prev ls)
  rechained-Chained prev [] = tt
  rechained-Chained prev (l ∷ ls) =
      (refl, refl, rechained-Chained (chain_hash p (row_str l prev)) ls)

  rechained-Ascending :
      (k : ℕ) (prev : Text) (ls : List AuditLog) → Ascending k ls → Ascending k (rechained prev ls)
  rechained-Ascending k prev [] h = tt
  rechained-Ascending k prev (l ∷ ls) h =
      (h.0, rechained-Ascending l.id (chain_hash p (row_str l prev)) ls h.1)

  -- A row with its two hashes blanked.
  abbrev pub unhashed : AuditLog → AuditLog
  unhashed l = record l { previous_hash_b64 = []; hash_b64 = [] }

  rechained-unhashed :
      (prev : Text) (ls : List AuditLog) → map unhashed (rechained prev ls) ≡ map unhashed ls
  rechained-unhashed prev [] = refl
  rechained-unhashed prev (l ∷ ls) = rw (rechained-unhashed (chain_hash p (row_str l prev)) ls)

  ensure_schema-rechained :
      (has_previous has_hash : Bool) (logs : List AuditLog)
      → Ascending 0 logs
      → (has_previous && has_hash) ≡ false
      → ensure_schema p (some (has_previous, has_hash)) logs ≡ rechained genesis logs
  unfolding ensure_schema
  ensure_schema-rechained has_previous has_hash logs up missing =
      rw (missing, sort_by-Ascending 0 logs up) (backfill-rechained 0 genesis [] logs up)

  -- On a table in the order of its ids that lacks one of the hash columns or both, the migration
  -- leaves a log that `/audit/verify` accepts, and changes nothing in any row but the two hashes.
  pub ensure_schema_verifies :
      (has_previous has_hash : Bool) (logs : List AuditLog)
      → Ascending 0 logs
      → (has_previous && has_hash) ≡ false
      → let migrated = ensure_schema p (some (has_previous, has_hash)) logs in
        (audit_verify p migrated ≡ valid) × (map unhashed migrated ≡ map unhashed logs)
  ensure_schema_verifies has_previous has_hash logs up missing =
      rw (ensure_schema-rechained has_previous has_hash logs up missing) (
        (audit_verify_iff p _ (rechained-Ascending 0 genesis logs up)).1
            (rechained-Chained genesis logs),
        rechained-unhashed genesis logs,
      )
