-- ===== src/Samples.antt =====
-- Concrete worlds for the tests of the components.
use mini_vault.Base.{ℕ, none, some, [], ◌∷◌, Text, Bytes, text}
use mini_vault.Db.{World, Db, User, Session, TransitKey, TransitKeyVersion, AuditLog}
use mini_vault.Platform.Sample.{seal, spell}
use mini_vault.Kv.{JsonCodec}
use mini_vault.Auth.{Principal}
use mini_vault.Router.{Request}

abbrev pub empty_db : Db
empty_db = record {
  vault_config = [];
  users = [];
  sessions = [];
  kv_secrets = [];
  kv_versions = [];
  transit_keys = [];
  transit_versions = [];
  audit_logs = [];
}

abbrev pub empty_world : World
empty_world = record { stored = empty_db; work = empty_db; dek = none }

abbrev pub master : Text
master = text "Strong-Master-Passphrase-2026!"

abbrev pub salt : Bytes
salt = text "saltsaltsaltsalt"

abbrev pub nonce : Bytes
nonce = text "nonce-nonce-"

abbrev pub key_bytes : Bytes
key_bytes = text "0123456789abcdef0123456789abcdef"

-- An open vault with no rows.
abbrev pub open_world : World
open_world = record { stored = empty_db; work = empty_db; dek = some key_bytes }

abbrev pub alice : Text
alice = text "a@x.io"

abbrev pub path : Text
path = text "secret/a@x.io/db"

-- A value is its own JSON here.
abbrev pub codec : JsonCodec Bytes
codec = record { dumps = λ v. some v; loads = λ b. some b }

abbrev pub alice_user : User
alice_user = record {
  id = 1;
  email = alice;
  password_hash = text "StrongPassword@123";
  failed_login_attempts = 0;
  locked_until = none;
}

-- Alice, with no session yet.
abbrev pub auth_world : World
auth_world =
    let db : Db = record empty_db { users = alice_user ∷ [] } in
    record { stored = db; work = db; dek = none }

-- An encryption key of Alice's with one version.
abbrev pub aes_key : TransitKey
aes_key = record {
  id = 1;
  key_name = text "pay";
  owner_email = alice;
  key_usage = text "ENCRYPT_DECRYPT";
  algorithm = text "AES-256-GCM";
  encrypted_key_material_b64 = spell (seal key_bytes key_bytes);
  key_nonce_b64 = spell nonce;
  public_key_b64 = none;
  revoked_at = none;
  created_at = 0;
}

abbrev pub aes_version : TransitKeyVersion
aes_version = record {
  id = 1;
  transit_key_id = 1;
  version = 1;
  encrypted_key_material_b64 = spell (seal key_bytes key_bytes);
  key_nonce_b64 = spell nonce;
}

abbrev pub transit_world : World
transit_world =
    let db : Db = record empty_db {
      transit_keys = aes_key ∷ [];
      transit_versions = aes_version ∷ [];
    } in
    record { stored = db; work = db; dek = some key_bytes }

abbrev pub log_row : ℕ → Text → Text → AuditLog
log_row id prev hash = record {
  id = id;
  requester_email = alice;
  action = text "READ";
  resource_type = text "KV_SECRET";
  resource_identifier = text "p";
  result = text "DENIED";
  client_ip = none;
  previous_hash_b64 = prev;
  hash_b64 = hash;
  created_at = 0;
}

-- A signing key of Alice's, and the vault that holds it.
abbrev pub signing_key : TransitKey
signing_key = record aes_key {
  key_usage = text "SIGN_VERIFY";
  algorithm = text "ED25519";
  public_key_b64 = some (spell key_bytes);
}

abbrev pub signing_world : World
signing_world =
    let db : Db = record empty_db { transit_keys = signing_key ∷ [] } in
    record { stored = db; work = db; dek = some key_bytes }

-- A session of Alice's, and a vault in which she is logged in.
abbrev pub alice_session : Session
alice_session = record {
  id = 4;
  user_id = 1;
  token_hash = text "token";
  expires_at = 900;
  revoked_at = none;
}

abbrev pub alice_principal : Principal
alice_principal = record { user = alice_user; session = alice_session }

abbrev pub signed_world : World
signed_world =
    let db : Db = record empty_db { users = alice_user ∷ []; sessions = alice_session ∷ [] } in
    record { stored = db; work = db; dek = some key_bytes }

abbrev pub signed_request : Request
signed_request = record {
  client_ip = some (text "10.0.0.7");
  credentials = some (text "Bearer", text "token");
  arrived = 8;
  audited = 9;
}
