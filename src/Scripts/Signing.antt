-- ===== src/Scripts/Signing.antt =====
-- The script's requests for a key that signs: Alice makes it, signs a document and verifies it.
use mini_vault.Base.{
  ◌≡◌, refl, ◌∙◌, ap, arith, ◌∷◌, [], none, some, true, List, Text, text, Bytes, subst, same,
}
use mini_vault.Errors.{Result, ok}
use mini_vault.Platform.{Platform, IsSound}
use mini_vault.Db.{World, Action, TransitKey, TransitKeyVersion, AuditLog}
use mini_vault.Utils.{matches_key_name}
use mini_vault.Schemas.{
  EmailStr, SignRequest, VerifyRequest, create_signing_key_request, sign_request, verify_request,
}
use mini_vault.Kv.{JsonCodec}
use mini_vault.Transit
use mini_vault.Transit.{Metadata, Signature, Verification, key_of, metadata, ed25519}
use mini_vault.Transit.Signing.{Signs, signing_key, signing_world, create_signing-Signs}
use mini_vault.Router.{transit_call, signing_key_create, transit_sign, transit_verify}
use mini_vault.Router.Denied.{closed, authenticated-closed}
use mini_vault.Scripts.{
  Fields, Run, bearer, alice, document_key, sign_message, b64, pure, sign_document,
}
use mini_vault.Scripts.Steps.{then_expect-ok, then_payload-ok, then_check, audited_read-ok}
use mini_vault.Scripts.Setting.{IsRun, IsAt, alice_token, alice_principal}
use mini_vault.Scripts.Callers.{alice-signed, dek_of}
use mini_vault.Scripts.Making.{aes_key}

module _ (p : Platform) (sound : IsSound p) (m : EmailStr) (j : JsonCodec Fields) (run : Run)
    (suits : IsRun p m j run) (wrapped : Bytes) (versions : List TransitKeyVersion)
    (log : List AuditLog) (w : World)
    (at_w : IsAt p run (aes_key p run wrapped ∷ []) versions log w) where
  abbrev w_open : World
  w_open = record w { work = w.stored }

  abbrev message : Bytes
  message = p.encode sign_message

  abbrev pub message_b64 : Text
  message_b64 = p.b64encode message

  abbrev body : SignRequest
  body = record { key_name = document_key; message_b64 = message_b64; message_type = text "RAW" }

  -- The world once the key is made, wrapped as `c`, and its row.
  abbrev made_world : Bytes → World
  made_world c =
      signing_world p alice document_key (run.random 13 32) (run.random 13 12) (run.written 13) c
        w_open

  abbrev pub made_key : Bytes → TransitKey
  made_key c =
      signing_key p alice document_key (run.random 13 32) (run.random 13 12) (run.written 13) c
        w_open

  abbrev Creates : Bytes → Type 0
  Creates c =
      (Transit.create_signing p (run.random 13 32) (run.random 13 12) (run.written 13) alice
          document_key w_open
        ≡ (ok (metadata p (made_key c) 1), made_world c))
      × Signs p alice document_key message_b64 (text "RAW") (made_world c)

  create-Creates : (c : Bytes) × Creates c
  unfolding matches_key_name key_of same
  create-Creates =
      let (c, made, left, signs) =
        create_signing-Signs p sound alice document_key (run.random 13 32) (run.random 13 12)
          (run.random 0 32) (run.written 13) message_b64 (text "RAW") message w_open refl
          (omega arith) (dek_of p run _ versions log w at_w w_open refl) (rw at_w.keys_at refl)
          (suits.drawn 13 32) (suits.drawn 0 32) (suits.drawn 13 12) (sound.b64-round message)
          refl in
      let left_world =
        (Transit.create_signing p (run.random 13 32) (run.random 13 12) (run.written 13) alice
          document_key w_open).1 in
      let created =
        ap (λ (r : Result Metadata). (r, left_world)) made
        ∙ ap (λ (u : World). (ok (metadata p (made_key c) 1), u)) left in
      (c, (created, subst (Signs p alice document_key message_b64 (text "RAW")) left signs))

  made-IsAt :
      (c : Bytes) → IsAt p run (aes_key p run wrapped ∷ made_key c ∷ []) versions log (made_world c)
  made-IsAt c = record {
    is_open = at_w.is_open;
    users = at_w.users;
    sessions = at_w.sessions;
    valid = at_w.valid;
    keys_at = rw at_w.keys_at refl;
    versions_at = at_w.versions_at;
    log_at = at_w.log_at;
    intact = at_w.intact;
  }

  signing_key_create-made :
      (c : Bytes)
      → Creates c
      → signing_key_create p
          (bearer p m j run 13 (alice_token p run))
          (run.random 13 32)
          (run.random 13 12)
          (run.written 13)
          (record { key_name = document_key; signing_algorithm = text "ED25519" })
          w
        ≡ (ok (metadata p (made_key c) 1), made_world c)
  unfolding signing_key_create create_signing_key_request same
  signing_key_create-made c (made, _) =
      let req = bearer p m j run 13 (alice_token p run) in
      let who = alice_principal p run in
      authenticated-closed p req who
        (λ x.
          Transit.create_signing p (run.random 13 32) (run.random 13 12) (run.written 13)
            x.user.email document_key)
        w (alice-signed p sound m j run suits _ _ log w at_w 13)
      ∙ ap (closed p req who) made

  sign-made :
      (c : Bytes) (s : Signature)
      → Transit.sign p alice document_key message_b64 (text "RAW") (made_world c) ≡ ok s
      → transit_sign p (bearer p m j run 14 (alice_token p run)) body (made_world c)
        ≡ (ok s, made_world c)
  unfolding transit_sign transit_call sign_request same
  sign-made c s done =
      audited_read-ok p (bearer p m j run 14 (alice_token p run)) (alice_principal p run)
        (text "SIGN") (text "TRANSIT_KEY") document_key
        (λ x. Transit.sign p x.user.email document_key message_b64 (text "RAW")) (made_world c) s
        (alice-signed p sound m j run suits _ _ log (made_world c) (made-IsAt c) 14) done

  abbrev to_check : Text → VerifyRequest
  to_check signature_b64 = record {
    signed = body;
    signature_b64 = signature_b64;
    signing_algorithm = none;
  }

  verify-made :
      (c : Bytes) (signature_b64 : Text) (v : Verification)
      → Transit.verify p alice document_key message_b64
          (text "RAW")
          signature_b64
          none
          (made_world c)
        ≡ ok v
      → transit_verify p
          (bearer p m j run 15 (alice_token p run))
          (to_check signature_b64)
          (made_world c)
        ≡ (ok v, made_world c)
  unfolding transit_verify transit_call verify_request same
  verify-made c signature_b64 v done =
      audited_read-ok p (bearer p m j run 15 (alice_token p run)) (alice_principal p run)
        (text "VERIFY") (text "TRANSIT_KEY") document_key
        (λ x.
          Transit.verify p x.user.email document_key message_b64 (text "RAW") signature_b64 none)
        (made_world c) v
        (alice-signed p sound m j run suits _ _ log (made_world c) (made-IsAt c) 15) done

  pub sign_document-IsAt :
      (c : Bytes) × (s : Signature) × (u : World) × (sign_document p m j run (alice_token p run) w
        ≡ (some (message_b64, s), u))
      × (Transit.verify p alice document_key message_b64
            (text "RAW")
            s.signature_b64
            none
            (record u { work = u.stored })
          ≡ ok (record {
            key_name = document_key;
            signature_valid = true;
            signing_algorithm = ed25519;
          }))
      × IsAt p run (aes_key p run wrapped ∷ made_key c ∷ []) versions log u
  unfolding sign_document b64 pure
  sign_document-IsAt =
      let a = alice_token p run in
      let (c, made) = create-Creates in
      let (s, signs, accepted) = made.1 in
      let u = made_world c in
      let to_create : Action Metadata =
        signing_key_create p (bearer p m j run 13 a) (run.random 13 32) (run.random 13 12)
          (run.written 13)
          (record { key_name = document_key; signing_algorithm = text "ED25519" }) in
      let to_sign : Action Signature = transit_sign p (bearer p m j run 14 a) body in
      let to_verify : Action Verification =
        transit_verify p (bearer p m j run 15 a) (to_check s.signature_b64) in
      (
        c,
        s,
        u,
        then_expect-ok p (run.content_length 13) 201 to_create w u (suits.admitted 13) _ _
              (signing_key_create-made c made)
            ∙ (then_payload-ok p (run.content_length 14) 200 to_sign u u (suits.admitted 14) _ s
                  (sign-made c s signs)
                ∙ (then_payload-ok p (run.content_length 15) 200 to_verify u u (suits.admitted 15) _
                      _ (verify-made c s.signature_b64 _ accepted)
                    ∙ then_check _ _ u refl)),
        accepted,
        made-IsAt c,
      )
