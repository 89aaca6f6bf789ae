-- ===== src/Audit/Tests.antt =====
-- The theorems on the audit log at concrete inputs.
use mini_vault.Base.{
  ◌≢◌, ◌≡◌, refl, ◌↔◌, ◌⊎◌, false, none, some, List, [], ◌∷◌, ◌++◌, map, text, arith,
}
use mini_vault.Errors.{ok}
use mini_vault.Platform.Sample.{sample, sample-IsSound}
use mini_vault.Db.{AuditLog}
use mini_vault.Audit.{
  previous_hash_mismatch, hash_mismatch, genesis, valid, audit, audit_verify, new_log,
  ensure_schema,
}
use mini_vault.Audit.Chain.{IsIntact, Chained, Ascending, audit-IsIntact, audit_verify_iff}
use mini_vault.Audit.Tamper.{
  payload, Collision, SameRows, tamper_evident, unhashed_edit, verify_blind,
}
use mini_vault.Audit.Edits.{rehashed, edit_reported}
use mini_vault.Audit.Migration.{unhashed, ensure_schema_verifies}
use mini_vault.Samples.{empty_world, alice, log_row}

audit-IsIntact_example :
    let (r, w') =
      audit sample alice
        (text "READ")
        (text "KV_SECRET")
        (text "p")
        (text "DENIED")
        none
        7
        empty_world in
    (r ≡ ok tt)
    × (w'.stored ≡ record (empty_world).work {
      audit_logs =
          []
          ++ new_log sample [] alice
              (text "READ")
              (text "KV_SECRET")
              (text "p")
              (text "DENIED")
              none
              7
            ∷ [];
    })
    × IsIntact sample w'.stored.audit_logs
audit-IsIntact_example =
    audit-IsIntact sample alice (text "READ") (text "KV_SECRET") (text "p") (text "DENIED") none 7
      empty_world (tt, tt)

abbrev forged : List AuditLog
forged = log_row 1 (text "GENESIS") (text "x") ∷ log_row 2 (text "x") (text "y") ∷ []

audit_verify_iff_example : (audit_verify sample forged ≡ valid) ↔ Chained sample genesis forged
audit_verify_iff_example = audit_verify_iff sample forged (omega arith)

-- A log of one denied access, as `audit` leaves it.
abbrev denied : List AuditLog
denied =
    new_log sample [] alice (text "READ") (text "KV_SECRET") (text "p") (text "DENIED") none 7 ∷ []

denied-Ascending : Ascending 0 denied
unfolding new_log
denied-Ascending = omega arith

denied-valid : audit_verify sample denied ≡ valid
unfolding audit
denied-valid = (audit_verify_iff sample denied denied-Ascending).1 (
    (audit-IsIntact sample alice (text "READ") (text "KV_SECRET") (text "p") (text "DENIED") none 7
      empty_world (tt, tt)).2.1)

tamper_evident_example : Collision sample ⊎ SameRows denied denied
tamper_evident_example =
    tamper_evident sample sample-IsSound denied denied denied-Ascending denied-Ascending
      denied-valid denied-valid refl refl

verify_blind_example :
    audit_verify sample (map (unhashed_edit (λ l. []) (λ l. none) (λ l. 0)) forged)
    ≡ audit_verify sample forged
verify_blind_example = verify_blind (λ l. []) (λ l. none) (λ l. 0) sample forged

-- The row of a denied access, the row of one more behind it, and the first with another result.
abbrev first : AuditLog
first = new_log sample [] alice (text "READ") (text "KV_SECRET") (text "p") (text "DENIED") none 7

abbrev second : AuditLog
second =
    new_log sample denied alice (text "READ") (text "KV_SECRET") (text "q") (text "DENIED") none 8

abbrev allowed : AuditLog
allowed = record first { result = text "ALLOWED" }

second-Ascending : Ascending 0 (first ∷ second ∷ [])
unfolding new_log
second-Ascending = omega arith

second-valid : audit_verify sample (first ∷ second ∷ []) ≡ valid
unfolding new_log
second-valid =
    (audit_verify_iff sample (first ∷ second ∷ []) second-Ascending).1
      (refl, refl, (refl, refl, tt))

allowed-apart : payload allowed ≢ payload first
unfolding new_log
allowed-apart e = ground arith

edit_reported_example :
    Collision sample
    ⊎ ((audit_verify sample ([] ++ allowed ∷ second ∷ []) ≡ hash_mismatch first.id)
        × (audit_verify sample ([] ++ rehashed sample allowed ∷ second ∷ [])
            ≡ previous_hash_mismatch second.id))
edit_reported_example =
    edit_reported sample sample-IsSound [] first second [] allowed second-Ascending second-valid
      refl refl refl allowed-apart

ensure_schema_verifies_example :
    let migrated = ensure_schema sample (some (false, false)) forged in
    (audit_verify sample migrated ≡ valid)
    × (map (unhashed sample) migrated ≡ map (unhashed sample) forged)
ensure_schema_verifies_example = ensure_schema_verifies sample false false forged (omega arith) refl
