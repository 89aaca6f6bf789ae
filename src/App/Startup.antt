-- ===== src/App/Startup.antt =====
-- lifespan: what a start of the process leaves, and what a restart keeps.
use mini_vault.Base.{
  ◌≡◌, refl, subst, Bool, true, ◌&&◌, Option, some, [], ◌∷◌, Text, inl, inr, Bool-cases,
}
use mini_vault.Errors.{ok, app_error, vault_locked}
use mini_vault.Platform.{Platform}
use mini_vault.Db.{World}
use mini_vault.Vault.{unlocked, unlock, require_dek}
use mini_vault.Vault.Lifecycle.{Unlocks, unlock-Unlocks, unlock_opens}
use mini_vault.Audit.{valid, audit_verify, ensure_schema}
use mini_vault.Audit.Chain.{IsIntact, Ascending, audit_verify_iff}
use mini_vault.Audit.Migration.{ensure_schema_verifies}
use mini_vault.App.{start_up, shut_down}

ensure_schema_complete :
    (p : Platform) (has_previous has_hash : Bool) (w : World)
    → (has_previous && has_hash) ≡ true
    → ensure_schema p (some (has_previous, has_hash)) w.stored.audit_logs ≡ w.stored.audit_logs
unfolding ensure_schema
ensure_schema_complete p has_previous has_hash w both = rw both refl

schema-valid :
    (p : Platform) (has_previous has_hash : Bool) (w : World)
    → Ascending 0 w.stored.audit_logs
    → ((has_previous && has_hash) ≡ true → IsIntact p w.stored.audit_logs)
    → audit_verify p (ensure_schema p (some (has_previous, has_hash)) w.stored.audit_logs) ≡ valid
schema-valid p has_previous has_hash w up intact = elim (Bool-cases (has_previous && has_hash)) [
  | inl both ↦
      rw (ensure_schema_complete p has_previous has_hash w both)
        ((audit_verify_iff p w.stored.audit_logs up).1 (intact both).1)
  | inr missing ↦ (ensure_schema_verifies p has_previous has_hash w.stored.audit_logs up missing).0
]

-- A start of the process, over a committed audit log in the order of its ids that is intact where
-- it has both hash columns: the vault is locked, `/audit/verify` accepts the log, what the session
-- sees is what is committed, and no other table has changed.
pub start_up_ready :
    (p : Platform) (has_previous has_hash : Bool) (w : World)
    → Ascending 0 w.stored.audit_logs
    → ((has_previous && has_hash) ≡ true → IsIntact p w.stored.audit_logs)
    → let u = start_up p (some (has_previous, has_hash)) w in
      (require_dek u ≡ app_error vault_locked "Vault is locked" 423)
      × (audit_verify p u.stored.audit_logs ≡ valid)
      × (u.work ≡ u.stored)
      × (record u.stored { audit_logs = [] } ≡ record w.stored { audit_logs = [] })
unfolding start_up require_dek
start_up_ready p has_previous has_hash w up intact =
    (refl, schema-valid p has_previous has_hash w up intact, refl, refl)

-- With nothing pending, a passphrase that unlocks the vault unlocks it again after the process has
-- been stopped and started, with the same key, and until then the vault is locked.
pub unlock-start_up :
    (p : Platform) (pw : Text) (columns : Option (Bool × Bool)) (w : World)
    → w.stored ≡ w.work
    → (unlock p pw w).0 ≡ ok unlocked
    → let u = (unlock p pw w).1 in
      let restarted = start_up p columns (shut_down p u) in
      (require_dek restarted ≡ app_error vault_locked "Vault is locked" 423)
      × ((unlock p pw restarted).0 ≡ ok unlocked)
      × (require_dek (unlock p pw restarted).1 ≡ require_dek u)
unfolding start_up shut_down require_dek
unlock-start_up p pw columns w committed opened =
    let (c, cs, d, config, unwraps, e) =
      subst (λ r. Unlocks p pw w r (unlock p pw w).1) opened (unlock-Unlocks p pw w) in
    let u = record w { dek = some d } in
    let kept : w.stored.vault_config ≡ c ∷ cs = rw committed config in
    let again = unlock_opens p pw (start_up p columns (shut_down p u)) c cs d kept unwraps in
    rw (e, again) (refl, refl, refl)
