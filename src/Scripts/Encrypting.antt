-- ===== src/Scripts/Encrypting.antt =====
-- The script's requests with a key that encrypts: Alice encrypts and decrypts, and Bob may not use it.
use mini_vault.Base.{
  ◌≡◌, refl, ◌∙◌, ap, ◌∷◌, [], ◌++◌, some, List, Text, text, Bytes, same, same_refl,
}
use mini_vault.Errors.{Result, ok}
use mini_vault.Platform.{Platform, IsSound}
use mini_vault.Db.{World, Action, reads, AuditLog}
use mini_vault.Schemas.{EmailStr}
use mini_vault.Audit.{new_log}
use mini_vault.Kv.{JsonCodec}
use mini_vault.Transit
use mini_vault.Transit.{Metadata, encrypt_decrypt, key_of, first_aad, metadata, max_plaintext}
use mini_vault.Router.Probe.{encrypt-missing}
use mini_vault.Router.{transit_call, ciphertext_name, key_create, transit_encrypt, transit_decrypt}
use mini_vault.Router.Denied.{denial, authenticated-IsDenied, IsDenied}
use mini_vault.Scripts.{Fields, Run, bearer, alice, bob, payment_key, b64, pure, encrypt_card}
use mini_vault.Scripts.Steps.{
  then_expect-ok, then_expect-refused, then_payload-ok, then_check, audited_read-ok,
}
use mini_vault.Scripts.Setting.{IsRun, IsAt, alice_token, bob_token, alice_principal, bob_principal}
use mini_vault.Scripts.Callers.{alice-signed, bob-signed, dek_of, denied-IsAt}
use mini_vault.Scripts.Making.{
  aes_key, aes_version, with_key, plaintext_b64, create-made, made-Usable, with_key-IsAt,
  key_create-made,
}

module _ (p : Platform) (sound : IsSound p) (m : EmailStr) (j : JsonCodec Fields) (run : Run)
    (suits : IsRun p m j run) (log : List AuditLog) (w : World)
    (at_w : IsAt p run [] [] log w) where
  abbrev made_world : Bytes → World
  made_world c = with_key p sound m j run suits log w at_w c

  abbrev card_b64 : Text
  card_b64 = plaintext_b64 p sound m j run suits log w at_w

  bob-IsDenied :
      (c : Bytes)
      → IsDenied p
          (bearer p m j run 12 (bob_token p run))
          (bob_principal p run)
          (text "ENCRYPT")
          (text "TRANSIT_KEY")
          payment_key
          (made_world c)
          (transit_encrypt p
            (bearer p m j run 12 (bob_token p run))
            (run.random 12 12)
            payment_key
            card_b64
            (made_world c))
  unfolding transit_encrypt transit_call key_of same
  bob-IsDenied c =
      let at_u = with_key-IsAt p sound m j run suits log w at_w c in
      authenticated-IsDenied p (bearer p m j run 12 (bob_token p run)) (bob_principal p run)
        (text "ENCRYPT") (text "TRANSIT_KEY") payment_key
        (λ x. reads (Transit.encrypt p (run.random 12 12) x.user.email payment_key card_b64))
        (made_world c) (bob-signed p sound m j run suits _ _ log (made_world c) at_u 12)
        (ap (λ (r : Result Text). (r, made_world c))
          (encrypt-missing p bob payment_key (made_world c) (run.random 0 32)
            (dek_of p run _ _ log (made_world c) at_u (made_world c) refl) refl (run.random 12 12)
            card_b64))
        at_w.intact

  encrypt-made :
      (c : Bytes) (envelope : Text)
      → Transit.encrypt p (run.random 10 12) alice payment_key card_b64 (made_world c) ≡ ok envelope
      → transit_encrypt p
          (bearer p m j run 10 (alice_token p run))
          (run.random 10 12)
          payment_key
          card_b64
          (made_world c)
        ≡ (ok envelope, made_world c)
  unfolding transit_encrypt transit_call
  encrypt-made c envelope done =
      audited_read-ok p (bearer p m j run 10 (alice_token p run)) (alice_principal p run)
        (text "ENCRYPT") (text "TRANSIT_KEY") payment_key
        (λ x. Transit.encrypt p (run.random 10 12) x.user.email payment_key card_b64) (made_world c)
        envelope
        (alice-signed p sound m j run suits _ _ log (made_world c)
          (with_key-IsAt p sound m j run suits log w at_w c) 10)
        done

  decrypt-made :
      (c : Bytes) (envelope : Text)
      → Transit.decrypt p alice envelope (made_world c) ≡ ok card_b64
      → transit_decrypt p (bearer p m j run 11 (alice_token p run)) envelope (made_world c)
        ≡ (ok card_b64, made_world c)
  unfolding transit_decrypt transit_call
  decrypt-made c envelope done =
      audited_read-ok p (bearer p m j run 11 (alice_token p run)) (alice_principal p run)
        (text "DECRYPT") (text "TRANSIT_KEY") (ciphertext_name envelope)
        (λ x. Transit.decrypt p x.user.email envelope) (made_world c) card_b64
        (alice-signed p sound m j run suits _ _ log (made_world c)
          (with_key-IsAt p sound m j run suits log w at_w c) 11)
        done

  -- The row of Bob's request.
  abbrev pub encrypt_row : AuditLog
  encrypt_row =
      new_log p log bob (text "ENCRYPT") (text "TRANSIT_KEY") payment_key (text "DENIED")
        run.client_ip (run.written 12)

  pub encrypt_card-IsAt :
      (c : Bytes) × (envelope : Text) × (u : World) × (encrypt_card p m j run
          (alice_token p run)
          (bob_token p run)
          w
        ≡ (some (card_b64, envelope), u))
      × (Transit.decrypt p alice envelope (made_world c) ≡ ok card_b64)
      × IsAt p run (aes_key p run c ∷ []) (aes_version p run c ∷ []) (log ++ encrypt_row ∷ []) u
  unfolding encrypt_card b64 pure
  encrypt_card-IsAt =
      let a = alice_token p run in
      let req = bearer p m j run 12 (bob_token p run) in
      let (c, made) = create-made p sound m j run suits log w at_w in
      let (envelope, sealed, opens) = made-Usable p sound m j run suits log w at_w c made in
      let u = made_world c in
      let to_create : Action Metadata =
        key_create p (bearer p m j run 9 a) (run.random 9 32) (run.random 9 12) (run.written 9)
          (record { key_name = payment_key; key_usage = text "ENCRYPT_DECRYPT" }) in
      let to_encrypt : Action Text =
        transit_encrypt p (bearer p m j run 10 a) (run.random 10 12) payment_key card_b64 in
      let to_decrypt : Action Text = transit_decrypt p (bearer p m j run 11 a) envelope in
      let to_probe : Action Text = transit_encrypt p req (run.random 12 12) payment_key card_b64 in
      let denied = bob-IsDenied c in
      let last = (to_probe u).1 in
      (
        c,
        envelope,
        last,
        then_expect-ok p (run.content_length 9) 201 to_create w u (suits.admitted 9) _ _
              (key_create-made p sound m j run suits log w at_w c made)
            ∙ (then_payload-ok p (run.content_length 10) 200 to_encrypt u u (suits.admitted 10) _
                  envelope (encrypt-made c envelope sealed)
                ∙ (then_payload-ok p (run.content_length 11) 200 to_decrypt u u (suits.admitted 11)
                      _ card_b64 (decrypt-made c envelope opens)
                    ∙ (then_check _ _ u (same_refl card_b64)
                        ∙ then_expect-refused p (run.content_length 12) 200 to_probe u last
                            (suits.admitted 12) _ denial (ap (λ r. (r, last)) denied.0)))),
        opens,
        denied-IsAt p run _ _ log u (with_key-IsAt p sound m j run suits log w at_w c) req
            (bob_principal p run) (text "ENCRYPT") (text "TRANSIT_KEY") payment_key (to_probe u)
            denied,
      )
