-- ===== src/Scripts/Setting.antt =====
-- What a run of the script relies on, and the state in which its requests find the vault.
use mini_vault.Base.{
  ℕ, ◌+◌, ◌*◌, ◌<◌, ◌≤◌, ◌≡◌, false, none, some, List, [], ◌∷◌, Text, Bytes, text, length, same,
}
use mini_vault.Platform.{Platform}
use mini_vault.PyInt.{strip}
use mini_vault.Db.{World, Db, VaultConfig, User, Session, TransitKey, TransitKeyVersion, AuditLog}
use mini_vault.Schemas.{EmailStr}
use mini_vault.Audit.Chain.{IsIntact}
use mini_vault.Auth.{Principal, second, token_digest}
use mini_vault.Kv.{JsonCodec, max_secret}
use mini_vault.Kv.Valid.{IsKvValid}
use mini_vault.App.{default_settings, too_large}
use mini_vault.Scripts.{
  Fields, Run, new_database, alice, alice_pw, bob, bob_pw, db_secret, api_secret,
}

-- The random bytes have the length that is asked for and give two tokens of different digests; the
-- requests are within the size limit and arrive before a session runs out; the two addresses are in
-- their normal form and pass pydantic's check; `lower` makes the scheme "bearer"; and json.dumps
-- gives at most 1 MiB for each secret.
pub record IsRun (p : Platform) (m : EmailStr) (j : JsonCodec Fields) (run : Run) : Type 0 where
  pub drawn : (n k : ℕ) → length (run.random n k) ≡ k
  pub distinct :
      same
        (token_digest p (p.token_urlsafe (run.random 4 32)))
        (token_digest p (p.token_urlsafe (run.random 5 32)))
      ≡ false
  pub admitted : (n : ℕ) → too_large p default_settings (run.content_length n) ≡ false
  pub in_time : (n k : ℕ) → run.arrived n < run.written k + 1800 * second
  pub scheme : p.lower (text "Bearer") ≡ text "bearer"
  pub alice_normal : p.lower (strip p alice) ≡ alice
  pub bob_normal : p.lower (strip p bob) ≡ bob
  pub alice_parsed : m.parse alice ≡ some alice
  pub bob_parsed : m.parse bob ≡ some bob
  pub db_dumped : (raw : Bytes) × (j.dumps db_secret ≡ some raw) × (length raw ≤ max_secret)
  pub api_dumped : (raw : Bytes) × (j.dumps api_secret ≡ some raw) × (length raw ≤ max_secret)

module _ (p : Platform) (run : Run) where
  abbrev pub alice_token : Text
  alice_token = p.token_urlsafe (run.random 4 32)

  abbrev pub bob_token : Text
  bob_token = p.token_urlsafe (run.random 5 32)

  abbrev pub alice_user : User
  alice_user = record {
    id = 1;
    email = alice;
    password_hash = p.hash_password (run.random 2 16) alice_pw;
    failed_login_attempts = 0;
    locked_until = none;
  }

  abbrev pub bob_user : User
  bob_user = record {
    id = 2;
    email = bob;
    password_hash = p.hash_password (run.random 3 16) bob_pw;
    failed_login_attempts = 0;
    locked_until = none;
  }

  abbrev pub alice_session : Session
  alice_session = record {
    id = 1;
    user_id = 1;
    token_hash = token_digest p alice_token;
    expires_at = run.written 4 + 1800 * second;
    revoked_at = none;
  }

  abbrev pub bob_session : Session
  bob_session = record {
    id = 2;
    user_id = 2;
    token_hash = token_digest p bob_token;
    expires_at = run.written 5 + 1800 * second;
    revoked_at = none;
  }

  abbrev pub alice_principal : Principal
  alice_principal = record { user = alice_user; session = alice_session }

  abbrev pub bob_principal : Principal
  bob_principal = record { user = bob_user; session = bob_session }

  -- The tables once both are logged in.
  abbrev pub entered_db : VaultConfig → Db
  entered_db config = record new_database {
    vault_config = config ∷ [];
    users = alice_user ∷ bob_user ∷ [];
    sessions = alice_session ∷ bob_session ∷ [];
  }

  -- The vault is open, both are logged in, the secrets are valid, the log is intact, and these are
  -- the named keys, their versions, and the rows of the log.
  pub record IsAt (keys : List TransitKey) (versions : List TransitKeyVersion) (log : List AuditLog)
      (w : World) : Type 0 where
    pub is_open : w.dek ≡ some (run.random 0 32)
    pub users : w.stored.users ≡ alice_user ∷ bob_user ∷ []
    pub sessions : w.stored.sessions ≡ alice_session ∷ bob_session ∷ []
    pub valid : IsKvValid w.stored
    pub keys_at : w.stored.transit_keys ≡ keys
    pub versions_at : w.stored.transit_versions ≡ versions
    pub log_at : w.stored.audit_logs ≡ log
    pub intact : IsIntact p w.stored.audit_logs
