-- ===== src/Audit/Edits.antt =====
-- What `/audit/verify` answers on a log in which the columns of one row have been rewritten.
use mini_vault.Base.{
  tests, ℕ, ◌≡◌, ◌≢◌, refl, sym, ap, ◌∙◌, List, [], ◌∷◌, ◌++◌, Text, arith, same, same_iff, ◌⊎◌,
  inl, inr, Bool-cases,
}
use mini_vault.Platform.{Platform, IsSound}
use mini_vault.Db.{AuditLog}
use mini_vault.Audit.{
  genesis, row_str, valid, previous_hash_mismatch, hash_mismatch, chain_hash, verify_from,
  audit_verify,
}
use mini_vault.Audit.Chain.{Ascending, final, Chained, sort_by-Ascending, audit_verify_iff}
use mini_vault.Audit.Tamper.{
  payload, NoBar, row_str-injective, chain_hash-NoBar, chain_hash-injective, Collision,
}

-- The row with the hash that belongs to its columns.
abbrev pub rehashed : Platform → AuditLog → AuditLog
rehashed p l = record l { hash_b64 = chain_hash p (row_str l l.previous_hash_b64) }

Ascending-edit :
    (k : ℕ) (xs ls : List AuditLog) (y y' : AuditLog)
    → y'.id ≡ y.id
    → Ascending k (xs ++ y ∷ ls)
    → Ascending k (xs ++ y' ∷ ls)
Ascending-edit k [] ls y y' e h = rw e h
Ascending-edit k (x ∷ xs) ls y y' e h = (h.0, Ascending-edit x.id xs ls y y' e h.1)

module _ (p : Platform) where
  Chained-split :
      (prev : Text) (xs ls : List AuditLog)
      → Chained p prev (xs ++ ls)
      → Chained p prev xs × Chained p (final prev xs) ls
  Chained-split prev [] ls h = (tt, h)
  Chained-split prev (x ∷ xs) ls (e, f, h) =
      let (front, back) = Chained-split x.hash_b64 xs ls h in ((e, f, front), back)

  verify_from-append :
      (prev : Text) (xs ls : List AuditLog)
      → Chained p prev xs
      → verify_from p prev (xs ++ ls) ≡ verify_from p (final prev xs) ls
  unfolding verify_from
  verify_from-append prev [] ls h = refl
  verify_from-append prev (x ∷ xs) ls h = grind (tests, verify_from-append x.hash_b64 xs ls)

  -- The scan of an edited log reaches the edited row.
  audit_verify-edit :
      (xs ls : List AuditLog) (y y' : AuditLog)
      → y'.id ≡ y.id
      → Ascending 0 (xs ++ y ∷ ls)
      → Chained p genesis xs
      → audit_verify p (xs ++ y' ∷ ls) ≡ verify_from p (final genesis xs) (y' ∷ ls)
  unfolding audit_verify
  audit_verify-edit xs ls y y' ids up chain =
      rw (sort_by-Ascending 0 (xs ++ y' ∷ ls) (Ascending-edit 0 xs ls y y' ids up))
        (verify_from-append genesis xs (y' ∷ ls) chain)

  verify_from-edit :
      (prev : Text) (y : AuditLog) (ls : List AuditLog)
      → y.previous_hash_b64 ≡ prev
      → y.hash_b64 ≢ chain_hash p (row_str y prev)
      → verify_from p prev (y ∷ ls) ≡ hash_mismatch y.id
  unfolding verify_from
  verify_from-edit prev y ls e h = grind tests

  verify_from-rehashed :
      (prev : Text) (y z : AuditLog) (ls : List AuditLog)
      → y.previous_hash_b64 ≡ prev
      → z.previous_hash_b64 ≢ chain_hash p (row_str y prev)
      → verify_from p prev (rehashed p y ∷ z ∷ ls) ≡ previous_hash_mismatch z.id
  unfolding verify_from
  verify_from-rehashed prev y z ls e h = grind tests

  module _ (sound : IsSound p) where
    final-NoBar :
        (prev : Text) (xs : List AuditLog) → NoBar prev → Chained p prev xs → NoBar (final prev xs)
    final-NoBar prev [] plain h = plain
    final-NoBar prev (x ∷ xs) plain (e, f, h) =
        final-NoBar x.hash_b64 xs (rw f (chain_hash-NoBar p sound _)) h

    -- Other columns have another hash, or SHA-256 has a collision.
    chain_hash-payload :
        (prev : Text) (x y : AuditLog)
        → NoBar prev
        → payload x ≢ payload y
        → Collision p ⊎ (chain_hash p (row_str x prev) ≢ chain_hash p (row_str y prev))
    chain_hash-payload prev x y plain apart =
        elim (Bool-cases (same (chain_hash p (row_str x prev)) (chain_hash p (row_str y prev)))) [
          | inr other ↦ inr (λ e. cc ((same_iff _ _).1 e, other))
          | inl equal ↦ elim (chain_hash-injective p sound _ _ ((same_iff _ _).0 equal)) [
            | inl c ↦ inl c
            | inr e ↦ absurd (apart (row_str-injective x y prev prev plain plain e).2)
          ]
        ]

    -- On an accepted log, in the order of its ids, rewrite a row that is not the last, so that it
    -- keeps its id and both hashes and has another joined text of e-mail, action, identifier and
    -- result: SHA-256 has a collision, or `/audit/verify` answers a mismatch of the hash at this
    -- row, and, where the hash of the row is computed anew as well, a mismatch of the previous hash
    -- at the row behind it.
    pub edit_reported :
        (xs : List AuditLog) (y z : AuditLog) (zs : List AuditLog) (y' : AuditLog)
        → Ascending 0 (xs ++ y ∷ z ∷ zs)
        → audit_verify p (xs ++ y ∷ z ∷ zs) ≡ valid
        → y'.id ≡ y.id
        → y'.previous_hash_b64 ≡ y.previous_hash_b64
        → y'.hash_b64 ≡ y.hash_b64
        → payload y' ≢ payload y
        → Collision p
          ⊎ ((audit_verify p (xs ++ y' ∷ z ∷ zs) ≡ hash_mismatch y.id)
              × (audit_verify p (xs ++ rehashed p y' ∷ z ∷ zs) ≡ previous_hash_mismatch z.id))
    edit_reported xs y z zs y' up accepted ids prevs hashes apart =
        let chain = (audit_verify_iff p (xs ++ y ∷ z ∷ zs) up).0 accepted in
        let (front, (py, hy, (pz, _, _))) = Chained-split genesis xs (y ∷ z ∷ zs) chain in
        let prev = final genesis xs in
        elim (chain_hash-payload prev y' y (final-NoBar genesis xs (ground arith) front) apart) [
          | inl c ↦ inl c
          | inr other ↦ inr (
            audit_verify-edit xs (z ∷ zs) y y' ids up front
                ∙ verify_from-edit prev y' (z ∷ zs) (prevs ∙ py) (λ e. other (sym e ∙ hashes ∙ hy))
                ∙ ap hash_mismatch ids,
            audit_verify-edit xs (z ∷ zs) y (rehashed p y') ids up front
                ∙ verify_from-rehashed prev y' z zs (prevs ∙ py) (λ e. other (sym e ∙ pz ∙ hy)),
          )
        ]
