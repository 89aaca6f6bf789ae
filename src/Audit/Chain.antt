-- ===== src/Audit/Chain.antt =====
-- The hash chain of the audit log: `audit` extends it, `audit_verify` accepts exactly the chains.
use mini_vault.Base.{
  tests, ℕ, ◌≤◌, ◌<◌, ◌≡◌, refl, sym, ap, ◌↔◌, Bool, Option, some, List, [], ◌∷◌, ◌++◌, Text, arith,
  leb, greatest, top_key, sort_by,
}
use mini_vault.Errors.{ok}
use mini_vault.Platform.{Platform}
use mini_vault.Db.{Time, World, AuditLog}
use mini_vault.Audit.{
  genesis, data_str, row_str, last_hash, valid, chain_hash, new_log, audit, verify_from,
  audit_verify,
}

-- The table is in the order of the ids, each above the one before.
abbrev pub Ascending : ℕ → List AuditLog → Type 0
Ascending k [] = Unit
Ascending k (l ∷ ls) = (k < l.id) × Ascending l.id ls

-- The hash of the last row, `prev` for none.
abbrev pub final : Text → List AuditLog → Text
final prev [] = prev
final prev (l ∷ ls) = final l.hash_b64 ls

abbrev pub by_id : AuditLog → AuditLog → Bool
by_id a b = leb a.id b.id

pub sort_by-Ascending :
    (k : ℕ) (logs : List AuditLog) → Ascending k logs → sort_by by_id logs ≡ logs
sort_by-Ascending k [] h = refl
sort_by-Ascending k (l ∷ []) h = refl
sort_by-Ascending k (l ∷ m ∷ ls) h = rw (sort_by-Ascending l.id (m ∷ ls) h.1) (ground arith)

greatest-Ascending :
    (k : ℕ) (l : AuditLog) (ls : List AuditLog)
    → Ascending k (l ∷ ls)
    → (m : AuditLog) × (greatest (λ x. x.id) (l ∷ ls) ≡ some m)
      × (l.id ≤ m.id)
      × (final l.hash_b64 ls ≡ m.hash_b64)
greatest-Ascending k l [] h = (l, refl, omega arith, refl)
greatest-Ascending k l (n ∷ ls) h =
    let (m, e, le, same_hash) = greatest-Ascending l.id n ls h.1 in
    (m, ground arith, omega arith, same_hash)

last_hash-Ascending :
    (k : ℕ) (logs : List AuditLog) → Ascending k logs → last_hash logs ≡ final genesis logs
last_hash-Ascending k [] h = refl
last_hash-Ascending k (l ∷ ls) h =
    let (m, e, le, same_hash) = greatest-Ascending k l ls h in rw (e, last_hash) (sym same_hash)

Ascending-append :
    (k : ℕ) (logs : List AuditLog) (l : AuditLog)
    → Ascending k logs
    → k < l.id
    → top_key (λ x. x.id) logs < l.id
    → Ascending k (logs ++ l ∷ [])
Ascending-append k [] l h below above = (below, tt)
Ascending-append k (m ∷ ms) l h below above =
    (h.0, Ascending-append m.id ms l h.1 (omega arith) (omega arith))

module _ (p : Platform) where
  -- Every row has the hash of the row before it, and the hash of its own columns.
  abbrev pub Chained : Text → List AuditLog → Type 0
  Chained prev [] = Unit
  Chained prev (l ∷ ls) =
      (l.previous_hash_b64 ≡ prev)
      × (l.hash_b64 ≡ chain_hash p (row_str l prev))
      × Chained l.hash_b64 ls

  abbrev pub IsIntact : List AuditLog → Type 0
  IsIntact logs = Ascending 0 logs × Chained genesis logs

  Chained-append :
      (prev : Text) (logs : List AuditLog) (l : AuditLog)
      → Chained prev logs
      → l.previous_hash_b64 ≡ final prev logs
      → l.hash_b64 ≡ chain_hash p (row_str l (final prev logs))
      → Chained prev (logs ++ l ∷ [])
  Chained-append prev [] l h e f = (e, f, tt)
  Chained-append prev (m ∷ ms) l h e f = (h.0, h.1, Chained-append m.hash_b64 ms l h.2 e f)

  new_log-IsIntact :
      (logs : List AuditLog) (email action kind identifier result : Text) (ip : Option Text)
      (now : Time)
      → IsIntact logs
      → IsIntact (logs ++ new_log p logs email action kind identifier result ip now ∷ [])
  unfolding new_log
  new_log-IsIntact logs email action kind identifier result ip now (up, chain) =
      let l = new_log p logs email action kind identifier result ip now in
      let e = last_hash-Ascending 0 logs up in
      (
        Ascending-append 0 logs l up (omega arith) (omega arith),
        Chained-append genesis logs l chain e
            (ap (λ prev. chain_hash p (data_str l.id prev email action identifier result)) e),
      )

  -- `audit` on an intact log commits the old rows with one more, which records the denied or
  -- allowed action, and the log is intact again.
  pub audit-IsIntact :
      (email action kind identifier result : Text) (ip : Option Text) (now : Time) (w : World)
      → IsIntact w.work.audit_logs
      → let (r, w') = audit p email action kind identifier result ip now w in
        (r ≡ ok tt)
        × (w'.stored ≡ record w.work {
          audit_logs =
              w.work.audit_logs
              ++ new_log p w.work.audit_logs email action kind identifier result ip now ∷ [];
        })
        × IsIntact w'.stored.audit_logs
  unfolding audit
  audit-IsIntact email action kind identifier result ip now w h =
      (refl, refl, new_log-IsIntact w.work.audit_logs email action kind identifier result ip now h)

  verify_from_sound :
      (prev : Text) (logs : List AuditLog) → verify_from p prev logs ≡ valid → Chained prev logs
  unfolding verify_from
  verify_from_sound prev [] h = tt
  verify_from_sound prev (l ∷ ls) h = grind (tests, verify_from_sound l.hash_b64 ls)

  verify_from_complete :
      (prev : Text) (logs : List AuditLog) → Chained prev logs → verify_from p prev logs ≡ valid
  unfolding verify_from
  verify_from_complete prev [] h = refl
  verify_from_complete prev (l ∷ ls) h = grind (tests, verify_from_complete l.hash_b64 ls)

  -- On a table in the order of its ids, `/audit/verify` answers "valid" exactly when every row
  -- carries the hash of the row before it and the hash of its own columns.
  pub audit_verify_iff :
      (logs : List AuditLog)
      → Ascending 0 logs
      → (audit_verify p logs ≡ valid) ↔ Chained genesis logs
  unfolding audit_verify
  audit_verify_iff logs up =
      rw (sort_by-Ascending 0 logs up)
        (verify_from_sound genesis logs, verify_from_complete genesis logs)
