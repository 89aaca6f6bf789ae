-- ===== src/Router/Locked.antt =====
-- What the handlers answer while the vault is locked.
use mini_vault.Base.{ℕ, ◌≡◌, refl, ◌∙◌, ap, Option, none, some, Text, Bytes, arith}
use mini_vault.Errors.{ok, raise, AppError, app, vault_locked}
use mini_vault.Platform.{Platform}
use mini_vault.Utils.{validate_path}
use mini_vault.Db.{Time, World, Action, reads, try_except, lift, ◌>>◌}
use mini_vault.Vault.{require_dek}
use mini_vault.Auth.{Principal, current_principal}
use mini_vault.Kv
use mini_vault.Kv.{JsonCodec}
use mini_vault.Transit
use mini_vault.Transit.{find_key, encrypt_decrypt}
use mini_vault.Schemas.{SignRequest, VerifyRequest, version_query, sign_request, verify_request}
use mini_vault.Router.{
  transit_sign, transit_verify, key_list, Request, denied_audit, audited_call, transit_call,
  authenticated, kv_write, kv_read, kv_versions, kv_delete, kv_list, key_get, key_rotate,
  key_revoke, transit_encrypt,
}
use mini_vault.Router.Denied.{opened, closed, authenticated-closed, authenticated-admitted}

-- `AppError("VAULT_LOCKED", "Vault is locked", 423)`
abbrev pub shut : AppError
shut = record { code = vault_locked; message = "Vault is locked"; status_code = 423 }

module _ (p : Platform) (req : Request) (who : Principal) where
  audited_call-shut :
      {A : Type 0} (action kind identifier : Text) (m : Action A) (w : World)
      → m w ≡ (raise (app shut), w)
      → audited_call p req who action kind identifier m w ≡ (raise (app shut), w)
  unfolding audited_call denied_audit
  audited_call-shut action kind identifier m w refused =
      ap
        (λ r.
          try_except (λ _. r)
            (λ e. denied_audit p req who action kind identifier e >> lift (raise e)) w)
        refused

  authenticated-shut :
      {A : Type 0} (action kind identifier : Text) (m : Principal → Action A) (w : World)
      → current_principal p req.arrived req.credentials (opened p req who w) ≡ ok who
      → m who (opened p req who w) ≡ (raise (app shut), opened p req who w)
      → authenticated p req (λ x. audited_call p req x action kind identifier (m x)) w
        ≡ (raise (app shut), opened p req who w)
  authenticated-shut action kind identifier m w signed refused =
      authenticated-closed p req who (λ x. audited_call p req x action kind identifier (m x)) w
        signed
      ∙ ap (closed p req who)
          (audited_call-shut action kind identifier (m who) (opened p req who w) refused)

module _ (p : Platform) {J : Type 0} (j : JsonCodec J) (path email : Text) (w : World)
    (locked : require_dek w ≡ raise (app shut)) where
  module _ (allowed : validate_path path email ≡ ok tt) where
    write-shut :
        (nonce : Bytes) (now : Time) (value : J)
        → Kv.write p j nonce now path email value w ≡ (raise (app shut), w)
    unfolding Kv.write
    write-shut nonce now value = ground arith

    read-shut : (version : Option ℕ) → Kv.read p j path email version w ≡ raise (app shut)
    unfolding Kv.read
    read-shut version = ground arith

    versions-shut : Kv.versions p path email w ≡ raise (app shut)
    unfolding Kv.versions
    versions-shut = ground arith

    delete-shut : Kv.delete path email w ≡ (raise (app shut), w)
    unfolding Kv.delete
    delete-shut = ground arith

  list-shut : Kv.list p email w ≡ raise (app shut)
  unfolding Kv.list
  list-shut = ground arith

module _ (p : Platform) (email name : Text) (w : World)
    (locked : require_dek w ≡ raise (app shut)) where
  find_key-shut : (usage : Option Text) → find_key email name usage w ≡ raise (app shut)
  unfolding find_key
  find_key-shut usage = ground arith

  get-shut : Transit.get p email name w ≡ raise (app shut)
  unfolding Transit.get
  get-shut = rw (find_key-shut none) refl

  rotate-shut :
      (material nonce : Bytes)
      → Transit.rotate p material nonce email name w ≡ (raise (app shut), w)
  unfolding Transit.rotate
  rotate-shut material nonce = let refused = find_key-shut (some encrypt_decrypt) in ground arith

  revoke-shut : (now : Time) → Transit.revoke p now email name w ≡ (raise (app shut), w)
  unfolding Transit.revoke
  revoke-shut now = let refused = find_key-shut none in ground arith

  encrypt-shut :
      (nonce : Bytes) (plaintext_b64 : Text)
      → Transit.encrypt p nonce email name plaintext_b64 w ≡ raise (app shut)
  unfolding Transit.encrypt
  encrypt-shut nonce plaintext_b64 = rw (find_key-shut (some encrypt_decrypt)) refl

  sign-shut :
      (message_b64 message_type : Text)
      → Transit.sign p email name message_b64 message_type w ≡ raise (app shut)
  unfolding Transit.sign
  sign-shut message_b64 message_type = rw (find_key-shut _) refl

  verify-shut :
      (message_b64 message_type signature_b64 : Text) (algorithm : Option Text)
      → Transit.verify p email name message_b64 message_type signature_b64 algorithm w
        ≡ raise (app shut)
  unfolding Transit.verify
  verify-shut message_b64 message_type signature_b64 algorithm = rw (find_key-shut _) refl

key_list-shut :
    (p : Platform) (email : Text) (w : World)
    → require_dek w ≡ raise (app shut)
    → Transit.list p email w ≡ raise (app shut)
unfolding Transit.list
key_list-shut p email w locked = ground arith

module _ (p : Platform) (req : Request) (who : Principal) (w : World)
    (locked : require_dek w ≡ raise (app shut))
    (signed : current_principal p req.arrived req.credentials (opened p req who w) ≡ ok who) where
  transit_sign-shut :
      (b : SignRequest)
      → sign_request b ≡ ok b
      → transit_sign p req b w ≡ (raise (app shut), opened p req who w)
  unfolding transit_sign transit_call require_dek
  transit_sign-shut b admitted =
      let o = opened p req who w in
      authenticated-admitted p req (sign_request b) b _ w admitted
      ∙ authenticated-shut p req who _ _ _
          (λ x. reads (Transit.sign p x.user.email b.key_name b.message_b64 b.message_type)) w
          signed
          (ap (λ r. (r, o))
            (sign-shut p who.user.email b.key_name o locked b.message_b64 b.message_type))

  transit_verify-shut :
      (b : VerifyRequest)
      → verify_request b ≡ ok b
      → transit_verify p req b w ≡ (raise (app shut), opened p req who w)
  unfolding transit_verify transit_call require_dek
  transit_verify-shut b admitted =
      let o = opened p req who w in
      authenticated-admitted p req (verify_request b) b _ w admitted
      ∙ authenticated-shut p req who _ _ _
          (λ x. reads (
            Transit.verify p x.user.email b.signed.key_name b.signed.message_b64
              b.signed.message_type b.signature_b64 b.signing_algorithm))
          w signed
          (ap (λ r. (r, o))
            (verify-shut p who.user.email b.signed.key_name o locked b.signed.message_b64
              b.signed.message_type b.signature_b64 b.signing_algorithm))

-- While the vault is locked, an authenticated caller's requests to write, read (the last version or
-- one from 1 on), list the versions of, delete and list secrets, with a path of the caller's own
-- namespace, to get, rotate, revoke, list and encrypt with named keys, and to sign and verify, with
-- bodies that the schemas admit, are all refused with VAULT_LOCKED, and nothing is committed, not
-- even a row of the audit log.
pub locked_refuses :
    (p : Platform) {J : Type 0} (j : JsonCodec J) (req : Request) (who : Principal)
    (path name input : Text) (material nonce : Bytes) (now : Time) (value : J) (version : Option ℕ)
    (to_sign : SignRequest) (to_verify : VerifyRequest) (w : World)
    → require_dek w ≡ raise (app shut)
    → current_principal p req.arrived req.credentials (opened p req who w) ≡ ok who
    → validate_path path who.user.email ≡ ok tt
    → version_query version ≡ ok version
    → sign_request to_sign ≡ ok to_sign
    → verify_request to_verify ≡ ok to_verify
    → let o = opened p req who w in
      (kv_write p j req nonce now path value w ≡ (raise (app shut), o))
      × (kv_read p j req path version w ≡ (raise (app shut), o))
      × (kv_versions p req path w ≡ (raise (app shut), o))
      × (kv_delete p req path w ≡ (raise (app shut), o))
      × (kv_list p req w ≡ (raise (app shut), o))
      × (key_get p req name w ≡ (raise (app shut), o))
      × (key_rotate p req material nonce name w ≡ (raise (app shut), o))
      × (key_revoke p req now name w ≡ (raise (app shut), o))
      × (transit_encrypt p req nonce name input w ≡ (raise (app shut), o))
      × (key_list p req w ≡ (raise (app shut), o))
      × (transit_sign p req to_sign w ≡ (raise (app shut), o))
      × (transit_verify p req to_verify w ≡ (raise (app shut), o))
unfolding kv_write kv_read kv_versions kv_delete kv_list key_get key_rotate key_revoke
    transit_encrypt transit_call key_list require_dek
locked_refuses p j req who path name input material nonce now value version to_sign to_verify w
      locked signed allowed asked sign_ok verify_ok =
    let o = opened p req who w in
    let email = who.user.email in
    (
      authenticated-shut p req who _ _ _ (λ x. Kv.write p j nonce now path x.user.email value) w
          signed (write-shut p j path email o locked allowed nonce now value),
      authenticated-admitted p req (version_query version) version _ w asked
          ∙ authenticated-shut p req who _ _ _ (λ x. reads (Kv.read p j path x.user.email version))
              w signed (ap (λ r. (r, o)) (read-shut p j path email o locked allowed version)),
      authenticated-shut p req who _ _ _ (λ x. reads (Kv.versions p path x.user.email)) w signed
          (ap (λ r. (r, o)) (versions-shut p j path email o locked allowed)),
      authenticated-shut p req who _ _ _ (λ x. Kv.delete path x.user.email) w signed
          (delete-shut p j path email o locked allowed),
      authenticated-closed p req who (λ x. reads (Kv.list p x.user.email)) w signed
          ∙ ap (λ r. closed p req who (r, o)) (list-shut p j path email o locked),
      authenticated-shut p req who _ _ _ (λ x. reads (Transit.get p x.user.email name)) w signed
          (ap (λ r. (r, o)) (get-shut p email name o locked)),
      authenticated-shut p req who _ _ _ (λ x. Transit.rotate p material nonce x.user.email name) w
          signed (rotate-shut p email name o locked material nonce),
      authenticated-shut p req who _ _ _ (λ x. Transit.revoke p now x.user.email name) w signed
          (revoke-shut p email name o locked now),
      authenticated-shut p req who _ _ _
          (λ x. reads (Transit.encrypt p nonce x.user.email name input)) w signed
          (ap (λ r. (r, o)) (encrypt-shut p email name o locked nonce input)),
      authenticated-closed p req who (λ x. reads (Transit.list p x.user.email)) w signed
          ∙ ap (λ r. closed p req who (r, o)) (key_list-shut p email o locked),
      transit_sign-shut p req who w locked signed to_sign sign_ok,
      transit_verify-shut p req who w locked signed to_verify verify_ok,
    )
