-- ===== src/Audit.antt =====
-- app/audit/service.py, and `audit_verify` of app/router.py: the hash chain of the audit log.
pub mod Chain
pub mod Tamper
pub mod Edits
pub mod Migration
mod Tests
use mini_vault.Base.{
  ℕ, ◌+◌, Bool, true, false, not, ◌&&◌, Option, none, some, List, [], ◌∷◌, ◌++◌, Text, ⊤, ◌==◌, leb,
  text, same, greatest, sort_by, update, show, joined, if◌then◌else◌,
}
use mini_vault.Platform.{Platform}
use mini_vault.Db.{Time, World, AuditLog, Action, ◌>>=◌, ◌>>◌, change, commit, next_id}

abbrev pub genesis : Text
genesis = text "GENESIS"

-- `f"{id}|{prev_hash}|{email}|{action}|{identifier}|{result}"`
unfoldable pub data_str : ℕ → Text → Text → Text → Text → Text → Text
data_str id prev email action identifier result =
    joined b'|' (show id ∷ prev ∷ email ∷ action ∷ identifier ∷ result ∷ [])

-- `data_str` of a row.
abbrev pub row_str : AuditLog → Text → Text
row_str l prev = data_str l.id prev l.requester_email l.action l.resource_identifier l.result

-- The row with the greatest id gives the previous hash.
abbrev pub last_hash : List AuditLog → Text
last_hash logs = elim (greatest (λ l. l.id) logs) [ none ↦ genesis | some l ↦ l.hash_b64 ]

-- The answer of `/audit/verify`.
pub data Verdict : Type 0 where
  valid : Verdict
  previous_hash_mismatch : ℕ → Verdict
  hash_mismatch : ℕ → Verdict

module _ (p : Platform) where
  -- base64.b64encode(hashlib.sha256(data_str.encode()).digest()).decode()
  unfoldable pub chain_hash : Text → Text
  chain_hash s = p.b64encode (p.sha256 (p.encode s))

  unfoldable pub new_log :
      List AuditLog → Text → Text → Text → Text → Text → Option Text → Time → AuditLog
  new_log logs email action resource_type identifier result client_ip now =
      let id : ℕ = next_id (λ (l : AuditLog). l.id) logs in
      let prev = last_hash logs in
      record {
        id = id;
        requester_email = email;
        action = action;
        resource_type = resource_type;
        resource_identifier = identifier;
        result = result;
        client_ip = client_ip;
        previous_hash_b64 = prev;
        hash_b64 = chain_hash (data_str id prev email action identifier result);
        created_at = now;
      }

  -- `audit`: the flush gives the id, the hash is set before the commit
  unfoldable pub audit : Text → Text → Text → Text → Text → Option Text → Time → Action ⊤
  unfolding new_log
  audit email action resource_type identifier result client_ip now = do
    change (λ db. record db {
      audit_logs =
          db.audit_logs
          ++ new_log db.audit_logs email action resource_type identifier result client_ip now ∷ [];
    })
    commit

  -- the loop of `audit_verify`
  unfoldable pub verify_from : Text → List AuditLog → Verdict
  verify_from prev [] = valid
  verify_from prev (log ∷ logs) =
      let rest = verify_from log.hash_b64 logs in
      if not (same log.previous_hash_b64 prev)
      then previous_hash_mismatch log.id
      else if not (same log.hash_b64 (chain_hash (row_str log prev)))
      then hash_mismatch log.id
      else rest

  -- `audit_verify`, over the rows in the order of their ids
  unfoldable pub audit_verify : List AuditLog → Verdict
  unfolding verify_from
  audit_verify logs = verify_from genesis (sort_by (λ a b. leb a.id b.id) logs)

  -- one round of the loop of `ensure_schema`: UPDATE ... WHERE id = :id
  abbrev pub rehash : AuditLog → Text → List AuditLog → List AuditLog
  rehash row prev =
      update (λ l. l.id == row.id)
        (λ l. record l { previous_hash_b64 = prev; hash_b64 = chain_hash (row_str row prev) })

  unfoldable pub backfill : Text → List AuditLog → List AuditLog → List AuditLog
  backfill prev [] table = table
  backfill prev (row ∷ rows) table =
      backfill (chain_hash (row_str row prev)) rows (rehash row prev table)

  -- `ensure_schema`: `columns` says whether the table is there, and with which of the two columns
  unfoldable pub ensure_schema : Option (Bool × Bool) → List AuditLog → List AuditLog
  unfolding backfill
  ensure_schema none logs = logs
  ensure_schema (some (has_previous, has_hash)) logs =
      if has_previous && has_hash
      then logs
      else backfill genesis (sort_by (λ a b. leb a.id b.id) logs) logs
