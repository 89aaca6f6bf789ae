-- ===== src/Db.antt =====
-- app/models.py and app/database.py: the tables, the session's transaction, and the objects that
-- a request works on. A table is the list of its rows in the order of insertion.
use mini_vault.Base.{
  ℕ, ◌+◌, Bool, Option, none, some, List, [], ◌∷◌, ◌++◌, Text, Bytes, ⊤, any, top_key,
  if◌then◌else◌,
}
use mini_vault.Errors.{Result, ok, raise, Exc}

-- A time is the number of microseconds since an epoch.
abbrev pub Time : Type 0
Time = ℕ

pub record VaultConfig : Type 0 where
  pub id : ℕ
  pub kdf_algorithm : Text
  pub kdf_salt_b64 : Text
  pub kdf_parameters_json : Text
  pub encrypted_dek_b64 : Text
  pub dek_nonce_b64 : Text

pub record User : Type 0 where
  pub id : ℕ
  pub email : Text
  pub password_hash : Text
  pub failed_login_attempts : ℕ
  pub locked_until : Option Time

pub record Session : Type 0 where
  pub id : ℕ
  pub user_id : ℕ
  pub token_hash : Text
  pub expires_at : Time
  pub revoked_at : Option Time

pub record KvSecret : Type 0 where
  pub id : ℕ
  pub path : Text
  pub owner_email : Text
  pub nonce_b64 : Text
  pub ciphertext_b64 : Text
  pub created_at : Time
  pub updated_at : Time

pub record KvSecretVersion : Type 0 where
  pub id : ℕ
  pub kv_secret_id : ℕ
  pub version : ℕ
  pub nonce_b64 : Text
  pub ciphertext_b64 : Text
  pub created_at : Time

pub record TransitKey : Type 0 where
  pub id : ℕ
  pub key_name : Text
  pub owner_email : Text
  pub key_usage : Text
  pub algorithm : Text
  pub encrypted_key_material_b64 : Text
  pub key_nonce_b64 : Text
  pub public_key_b64 : Option Text
  pub revoked_at : Option Time
  pub created_at : Time

pub record TransitKeyVersion : Type 0 where
  pub id : ℕ
  pub transit_key_id : ℕ
  pub version : ℕ
  pub encrypted_key_material_b64 : Text
  pub key_nonce_b64 : Text

pub record AuditLog : Type 0 where
  pub id : ℕ
  pub requester_email : Text
  pub action : Text
  pub resource_type : Text
  pub resource_identifier : Text
  pub result : Text
  pub client_ip : Option Text
  pub previous_hash_b64 : Text
  pub hash_b64 : Text
  pub created_at : Time

pub record Db : Type 0 where
  pub vault_config : List VaultConfig
  pub users : List User
  pub sessions : List Session
  pub kv_secrets : List KvSecret
  pub kv_versions : List KvSecretVersion
  pub transit_keys : List TransitKey
  pub transit_versions : List TransitKeyVersion
  pub audit_logs : List AuditLog

-- `stored` is what is committed, `work` what the request's session sees (its queries flush the
-- pending changes first), `dek` the `_dek` of the process's `VaultState`.
pub record World : Type 0 where
  pub stored : Db
  pub work : Db
  pub dek : Option Bytes

abbrev pub Action : Type 0 → Type 0
Action A = World → Result A × World

module _ {A : Type 0} where
  abbrev pub pure : A → Action A
  pure a w = (ok a, w)

  abbrev pub lift : Result A → Action A
  lift r w = (r, w)

  -- a query
  abbrev pub gets : (World → A) → Action A
  gets f w = (ok (f w), w)

  -- code that only reads and may raise
  abbrev pub reads : (World → Result A) → Action A
  reads f w = (f w, w)

infixl 5 ◌>>=◌ ◌>>◌
abbrev pub ◌>>=◌ : {A B : Type 0} → Action A → (A → Action B) → Action B
◌>>=◌ m f w = let (r, w') = m w in elim r [ ok a ↦ f a w' | raise e ↦ (raise e, w') ]

abbrev pub ◌>>◌ : {A B : Type 0} → Action A → Action B → Action B
m >> k = m >>= λ _. k

-- `try: ... except ...`: the handler goes on from the state that was reached.
abbrev pub try_except : {A : Type 0} → Action A → (Exc → Action A) → Action A
try_except m h w = let (r, w') = m w in elim r [ ok a ↦ (ok a, w') | raise e ↦ h e w' ]

-- Pending changes of the session: `db.add`, an assignment to a column, `db.delete`.
abbrev pub change : (Db → Db) → Action ⊤
change f w = (ok tt, record w { work = f w.work })

abbrev pub commit : Action ⊤
commit w = (ok tt, record w { stored = w.work })

abbrev pub set_dek : Option Bytes → Action ⊤
set_dek d w = (ok tt, record w { dek = d })

-- `get_db`: a request has a session of its own, and closing it drops what was not committed.
unfoldable pub with_session : {A : Type 0} → Action A → Action A
with_session m w =
    let (r, w') = m (record w { work = w.stored }) in (r, record w' { work = w'.stored })

-- The primary key of a new row: one more than the greatest in use, as SQLite gives it.
abbrev pub next_id {ℓ} : {A : Type ℓ} → (A → ℕ) → List A → ℕ
next_id key rows = top_key key rows + 1

-- Adding a row to a table under a UNIQUE constraint; a row that clashes is an IntegrityError.
abbrev pub add_row {ℓ} : {A : Type ℓ} → (A → Bool) → A → List A → Option (List A)
add_row clash row rows = if any clash rows then none else some (rows ++ row ∷ [])
