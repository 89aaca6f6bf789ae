-- ===== src/Router/Probe.antt =====
-- What a caller learns by naming a key that is not the caller's own.
use mini_vault.Base.{◌≡◌, refl, none, Text, Bytes, text, arith, Option, ap, some}
use mini_vault.Errors.{ok, raise, app}
use mini_vault.Platform.{Platform}
use mini_vault.Db.{Time, World, reads}
use mini_vault.Vault.{require_dek}
use mini_vault.Audit.Chain.{IsIntact}
use mini_vault.Auth.{Principal, current_principal}
use mini_vault.Transit
use mini_vault.Transit.{encrypt_decrypt, key_of, find_key}
use mini_vault.Db.{Action}
use mini_vault.Base.{subst, sym}
use mini_vault.Transit.{Verification}
use mini_vault.Schemas.{SignRequest, VerifyRequest, sign_request, verify_request}
use mini_vault.Router.{
  authenticated, audited_call, Request, transit_call, key_get, key_rotate, key_revoke,
  transit_encrypt, transit_sign, transit_verify,
}
use mini_vault.Router.Denied.{
  denial, authenticated-admitted, IsDenied, opened, authenticated-IsDenied,
}

module _ (p : Platform) (email name : Text) (w : World) where
  find_key-missing :
      (dek : Bytes) (usage : Option Text)
      → require_dek w ≡ ok dek
      → key_of email name w.work.transit_keys ≡ none
      → find_key email name usage w ≡ raise (app denial)
  unfolding find_key
  find_key-missing dek usage open_vault missing = rw (open_vault, missing) refl

  module _ (dek : Bytes) (open_vault : require_dek w ≡ ok dek)
      (missing : key_of email name w.work.transit_keys ≡ none) where
    get-missing : Transit.get p email name w ≡ raise (app denial)
    unfolding Transit.get
    get-missing = rw (find_key-missing dek none open_vault missing) refl

    rotate-missing :
        (material nonce : Bytes)
        → Transit.rotate p material nonce email name w ≡ (raise (app denial), w)
    unfolding Transit.rotate
    rotate-missing material nonce =
        let denied = find_key-missing dek (some encrypt_decrypt) open_vault missing in ground arith

    revoke-missing : (now : Time) → Transit.revoke p now email name w ≡ (raise (app denial), w)
    unfolding Transit.revoke
    revoke-missing now = let denied = find_key-missing dek none open_vault missing in ground arith

    pub encrypt-missing :
        (nonce : Bytes) (plaintext_b64 : Text)
        → Transit.encrypt p nonce email name plaintext_b64 w ≡ raise (app denial)
    unfolding Transit.encrypt
    encrypt-missing nonce plaintext_b64 = rw (find_key-missing dek _ open_vault missing) refl

    sign-missing :
        (message_b64 message_type : Text)
        → Transit.sign p email name message_b64 message_type w ≡ raise (app denial)
    unfolding Transit.sign
    sign-missing message_b64 message_type = rw (find_key-missing dek _ open_vault missing) refl

    verify-missing :
        (message_b64 message_type signature_b64 : Text) (algorithm : Option Text)
        → Transit.verify p email name message_b64 message_type signature_b64 algorithm w
          ≡ raise (app denial)
    unfolding Transit.verify
    verify-missing message_b64 message_type signature_b64 algorithm =
        rw (find_key-missing dek _ open_vault missing) refl

module _ (p : Platform) (req : Request) (who : Principal) (name : Text) (dek : Bytes) where
  sign-IsDenied :
      (b : SignRequest) (w : World)
      → current_principal p req.arrived req.credentials (opened p req who w) ≡ ok who
      → require_dek w ≡ ok dek
      → key_of who.user.email name w.stored.transit_keys ≡ none
      → IsIntact p w.stored.audit_logs
      → sign_request b ≡ ok b
      → b.key_name ≡ name
      → IsDenied p req who (text "SIGN") (text "TRANSIT_KEY") name w (transit_sign p req b w)
  unfolding transit_sign transit_call require_dek
  sign-IsDenied b w signed open_vault missing intact admitted named =
      let w' = opened p req who w in
      let email = who.user.email in
      subst (λ r. IsDenied p req who (text "SIGN") (text "TRANSIT_KEY") name w r)
        (sym (authenticated-admitted p req (sign_request b) b _ w admitted))
        (subst
          (λ n. IsDenied p req who (text "SIGN") (text "TRANSIT_KEY") n w (
            authenticated p req
              (λ x.
                audited_call p req x (text "SIGN") (text "TRANSIT_KEY") b.key_name
                  (reads (Transit.sign p x.user.email b.key_name b.message_b64 b.message_type)))
              w))
          named
          (authenticated-IsDenied p req who (text "SIGN") (text "TRANSIT_KEY") b.key_name
            (λ x. reads (Transit.sign p x.user.email b.key_name b.message_b64 b.message_type)) w
            signed
            (ap (λ r. (r, w'))
              (sign-missing p email b.key_name w' dek open_vault (rw named missing) b.message_b64
                b.message_type))
            intact))

  verify-IsDenied :
      (b : VerifyRequest) (w : World)
      → current_principal p req.arrived req.credentials (opened p req who w) ≡ ok who
      → require_dek w ≡ ok dek
      → key_of who.user.email name w.stored.transit_keys ≡ none
      → IsIntact p w.stored.audit_logs
      → verify_request b ≡ ok b
      → b.signed.key_name ≡ name
      → IsDenied p req who (text "VERIFY") (text "TRANSIT_KEY") name w (transit_verify p req b w)
  unfolding transit_verify transit_call require_dek
  verify-IsDenied b w signed open_vault missing intact admitted named =
      let w' = opened p req who w in
      let email = who.user.email in
      let call : Principal → Action Verification = λ x. reads (
        Transit.verify p x.user.email b.signed.key_name b.signed.message_b64 b.signed.message_type
          b.signature_b64 b.signing_algorithm) in
      subst (λ r. IsDenied p req who (text "VERIFY") (text "TRANSIT_KEY") name w r)
        (sym (authenticated-admitted p req (verify_request b) b _ w admitted))
        (subst
          (λ n. IsDenied p req who (text "VERIFY") (text "TRANSIT_KEY") n w (
            authenticated p req
              (λ x.
                audited_call p req x (text "VERIFY") (text "TRANSIT_KEY") b.signed.key_name
                  (call x))
              w))
          named
          (authenticated-IsDenied p req who (text "VERIFY") (text "TRANSIT_KEY") b.signed.key_name
            call w signed
            (ap (λ r. (r, w'))
              (verify-missing p email b.signed.key_name w' dek open_vault (rw named missing)
                b.signed.message_b64 b.signed.message_type b.signature_b64 b.signing_algorithm))
            intact))

-- A request that names a key which is not the caller's, authenticated, in an open vault and on an
-- intact audit log, with bodies that the schemas admit: getting, rotating, revoking, encrypting,
-- signing and verifying are refused with PERMISSION_DENIED, the same whether the name is free or
-- another user's, and each commits exactly one more row of the log, for the caller, with
-- "DENIED"; the log stays intact.
pub transit-IsDenied :
    (p : Platform) (req : Request) (who : Principal) (name : Text) (material nonce dek : Bytes)
    (now : Time) (input : Text) (to_sign : SignRequest) (to_verify : VerifyRequest) (w : World)
    → current_principal p req.arrived req.credentials (opened p req who w) ≡ ok who
    → require_dek w ≡ ok dek
    → key_of who.user.email name w.stored.transit_keys ≡ none
    → IsIntact p w.stored.audit_logs
    → sign_request to_sign ≡ ok to_sign
    → to_sign.key_name ≡ name
    → verify_request to_verify ≡ ok to_verify
    → to_verify.signed.key_name ≡ name
    → let key = text "TRANSIT_KEY" in
      IsDenied p req who (text "GET") key name w (key_get p req name w)
      × IsDenied p req who (text "ROTATE") key name w (key_rotate p req material nonce name w)
      × IsDenied p req who (text "REVOKE") key name w (key_revoke p req now name w)
      × IsDenied p req who (text "ENCRYPT") key name w (transit_encrypt p req nonce name input w)
      × IsDenied p req who (text "SIGN") key name w (transit_sign p req to_sign w)
      × IsDenied p req who (text "VERIFY") key name w (transit_verify p req to_verify w)
unfolding key_get key_rotate key_revoke transit_encrypt transit_call require_dek
transit-IsDenied p req who name material nonce dek now input to_sign to_verify w signed open_vault
      missing intact sign_ok sign_name verify_ok verify_name =
    let key = text "TRANSIT_KEY" in
    let w' = opened p req who w in
    let email = who.user.email in
    (
      authenticated-IsDenied p req who (text "GET") key name
          (λ x. reads (Transit.get p x.user.email name)) w signed
          (ap (λ r. (r, w')) (get-missing p email name w' dek open_vault missing)) intact,
      authenticated-IsDenied p req who (text "ROTATE") key name
          (λ x. Transit.rotate p material nonce x.user.email name) w signed
          (rotate-missing p email name w' dek open_vault missing material nonce) intact,
      authenticated-IsDenied p req who (text "REVOKE") key name
          (λ x. Transit.revoke p now x.user.email name) w signed
          (revoke-missing p email name w' dek open_vault missing now) intact,
      authenticated-IsDenied p req who (text "ENCRYPT") key name
          (λ x. reads (Transit.encrypt p nonce x.user.email name input)) w signed
          (ap (λ r. (r, w')) (encrypt-missing p email name w' dek open_vault missing nonce input))
          intact,
      sign-IsDenied p req who name dek to_sign w signed open_vault missing intact sign_ok sign_name,
      verify-IsDenied p req who name dek to_verify w signed open_vault missing intact verify_ok
          verify_name,
    )
