-- ===== src/Router.antt =====
-- The handlers of app/router.py, from the request and its body to a result. FastAPI authenticates
-- before it checks the body, so that a refused body of an authenticated handler comes second.
pub mod Denied
pub mod Probe
pub mod Locked
mod Tests
use mini_vault.Base.{
  ℕ, ◌+◌, Bool, true, false, Option, none, some, List, [], ◌∷◌, Text, Bytes, ⊤, text, split, leb,
  ◌==◌, if◌then◌else◌,
}
use mini_vault.Errors.{Result, raise, Exc, app, ErrorCode, permission_denied}
use mini_vault.Platform.{Platform}
use mini_vault.Db.{
  Time, World, Action, pure, lift, gets, reads, ◌>>=◌, ◌>>◌, try_except, with_session,
}
use mini_vault.Audit.{Verdict, audit, audit_verify}
use mini_vault.Vault
use mini_vault.Vault.{Status, LockStatus, locked}
use mini_vault.Schemas.{
  EmailStr, InitRequest, UnlockRequest, RegisterRequest, LoginRequest, CreateKeyRequest,
  CreateSigningKeyRequest, SignRequest, VerifyRequest, init_request, unlock_request,
  register_request, login_request, create_key_request, create_signing_key_request, sign_request,
  verify_request, version_query,
}
use mini_vault.Auth.{Principal, LoginAnswer, current_principal, register, login, logout}
use mini_vault.Kv
use mini_vault.Kv.{JsonCodec, WriteAnswer, ReadAnswer, VersionEntry, SecretEntry}
use mini_vault.Transit
use mini_vault.Transit.{Metadata, Signature, Verification}

-- `exc.code == "PERMISSION_DENIED"`
abbrev pub is_denied : ErrorCode → Bool
is_denied permission_denied = true
is_denied _ = false

-- What a request brings besides its body: the client's address, the header's scheme and token,
-- and the times of the authentication and of an audit row.
pub record Request : Type 0 where
  pub client_ip : Option Text
  pub credentials : Option (Text × Text)
  pub arrived : Time
  pub audited : Time

-- `s.count(c)`
abbrev pub count : ℕ → Text → ℕ
count c [] = 0
count c (x ∷ s) = if x == c then count c s + 1 else count c s

-- `parts[2]`; there are four parts where it is used
abbrev pub third : List Text → Text
third (a ∷ b ∷ c ∷ rest) = c
third _ = []

-- The name that a denied decryption is recorded under.
unfoldable pub ciphertext_name : Text → Text
ciphertext_name envelope =
    if leb 3 (count b':' envelope) then third (split b':' 3 envelope) else text "malformed"

module _ (p : Platform) where
  -- denied_audit
  unfoldable pub denied_audit : Request → Principal → Text → Text → Text → Exc → Action ⊤
  denied_audit req who action kind identifier (app e) =
      if is_denied e.code
      then audit p who.user.email action kind identifier (text "DENIED") req.client_ip req.audited
      else pure tt
  denied_audit req who action kind identifier _ = pure tt

  -- `try: return ... except AppError as exc: denied_audit(...); raise`
  unfoldable pub audited_call :
      {A : Type 0} → Request → Principal → Text → Text → Text → Action A → Action A
  audited_call req who action kind identifier m =
      try_except m λ e. denied_audit req who action kind identifier e >> lift (raise e)

  -- transit_call
  unfoldable pub transit_call :
      {A : Type 0} → Request → Principal → Text → Text → Action A → Action A
  transit_call req who action identifier =
      audited_call req who action (text "TRANSIT_KEY") identifier

  -- Depends(current_principal) and Depends(get_db): one session for a request
  unfoldable pub authenticated : {A : Type 0} → Request → (Principal → Action A) → Action A
  authenticated req handler =
      with_session (do who ← reads (current_principal p req.arrived req.credentials); handler who)

  module _ {J : Type 0} (j : JsonCodec J) where
    unfoldable pub kv_write : Request → Bytes → Time → Text → J → Action WriteAnswer
    kv_write req nonce now path value = authenticated req λ who.
        audited_call req who (text "WRITE") (text "KV_SECRET") path
          (Kv.write p j nonce now path who.user.email value)

    unfoldable pub kv_read : Request → Text → Option ℕ → Action (ReadAnswer J)
    kv_read req path version = authenticated req λ who. lift (version_query version) >>= λ v.
        audited_call req who (text "READ") (text "KV_SECRET") path
          (reads (Kv.read p j path who.user.email v))

  unfoldable pub kv_versions : Request → Text → Action (List VersionEntry)
  kv_versions req path = authenticated req λ who.
      audited_call req who (text "LIST_VERSIONS") (text "KV_SECRET") path
        (reads (Kv.versions p path who.user.email))

  unfoldable pub kv_delete : Request → Text → Action ⊤
  kv_delete req path = authenticated req λ who.
      audited_call req who (text "DELETE") (text "KV_SECRET") path (Kv.delete path who.user.email)

  unfoldable pub key_get : Request → Text → Action Metadata
  key_get req name =
      authenticated req
        λ who. transit_call req who (text "GET") name (reads (Transit.get p who.user.email name))

  unfoldable pub key_rotate : Request → Bytes → Bytes → Text → Action Metadata
  key_rotate req material nonce name = authenticated req λ who.
      transit_call req who (text "ROTATE") name
        (Transit.rotate p material nonce who.user.email name)

  unfoldable pub key_revoke : Request → Time → Text → Action ⊤
  key_revoke req now name =
      authenticated req
        λ who. transit_call req who (text "REVOKE") name (Transit.revoke p now who.user.email name)

  unfoldable pub transit_encrypt : Request → Bytes → Text → Text → Action Text
  transit_encrypt req nonce name plaintext_b64 = authenticated req λ who.
      transit_call req who (text "ENCRYPT") name
        (reads (Transit.encrypt p nonce who.user.email name plaintext_b64))

  unfoldable pub transit_decrypt : Request → Text → Action Text
  transit_decrypt req envelope = authenticated req λ who.
      transit_call req who (text "DECRYPT") (ciphertext_name envelope)
        (reads (Transit.decrypt p who.user.email envelope))

  unfoldable pub transit_sign : Request → SignRequest → Action Signature
  unfolding sign_request
  transit_sign req body = authenticated req λ who. lift (sign_request body) >>= λ b.
      transit_call req who (text "SIGN") b.key_name
        (reads (Transit.sign p who.user.email b.key_name b.message_b64 b.message_type))

  unfoldable pub transit_verify : Request → VerifyRequest → Action Verification
  unfolding verify_request
  transit_verify req body = authenticated req λ who. lift (verify_request body) >>= λ b.
      transit_call req who (text "VERIFY") b.signed.key_name (
        reads (
          Transit.verify p who.user.email b.signed.key_name b.signed.message_b64
            b.signed.message_type b.signature_b64 b.signing_algorithm))

  -- the handlers that only pass their arguments on
  unfoldable pub kv_list : Request → Action (List SecretEntry)
  kv_list req = authenticated req λ who. reads (Kv.list p who.user.email)

  unfoldable pub key_create : Request → Bytes → Bytes → Time → CreateKeyRequest → Action Metadata
  unfolding create_key_request
  key_create req material nonce now body = authenticated req λ who.
      lift (create_key_request body) >>= λ b.
      Transit.create_aes p material nonce now who.user.email b.key_name

  unfoldable pub signing_key_create :
      Request → Bytes → Bytes → Time → CreateSigningKeyRequest → Action Metadata
  unfolding create_signing_key_request
  signing_key_create req seed nonce now body = authenticated req λ who.
      lift (create_signing_key_request body) >>= λ b.
      Transit.create_signing p seed nonce now who.user.email b.key_name

  unfoldable pub key_list : Request → Action (List Metadata)
  key_list req = authenticated req λ who. reads (Transit.list p who.user.email)

  unfoldable pub audit_report : Request → Action Verdict
  audit_report req = authenticated req λ who. gets (λ w. audit_verify p w.work.audit_logs)

  unfoldable pub me : Request → Action Text
  me req = authenticated req λ who. pure who.user.email

  unfoldable pub end_session : Request → Time → Action ⊤
  end_session req now = authenticated req λ who. logout now who.session

  unfoldable pub vault_init : Bytes → Bytes → Bytes → InitRequest → Action Status
  unfolding init_request
  vault_init salt dek nonce body = lift (init_request body) >>= λ b.
      with_session (Vault.init p salt dek nonce b.master_passphrase b.confirm_master_passphrase)

  unfoldable pub vault_unlock : UnlockRequest → Action LockStatus
  unfolding unlock_request
  vault_unlock body =
      lift (unlock_request body) >>= λ b. with_session (Vault.unlock p b.master_passphrase)

  unfoldable pub vault_lock : Action LockStatus
  vault_lock = Vault.lock >> pure locked

  unfoldable pub vault_status : Action Status
  vault_status = with_session (gets Vault.status)

  module _ (m : EmailStr) where
    -- `salt` is what the hasher drew
    unfoldable pub user_register : Bytes → RegisterRequest → Action Text
    unfolding register_request
    user_register salt body = lift (register_request p m body) >>= λ b.
        with_session (register p salt b.email b.passphrase b.confirm_passphrase)

    -- `ttl` is session_ttl_seconds, `entropy` what secrets.token_urlsafe drew
    unfoldable pub user_login : ℕ → Bytes → Time → LoginRequest → Action LoginAnswer
    unfolding login_request
    user_login ttl entropy now body = lift (login_request p m body) >>= λ b.
        with_session (login p ttl entropy now b.email b.passphrase)
