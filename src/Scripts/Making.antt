-- ===== src/Scripts/Making.antt =====
-- The script's request for a key that encrypts: the rows that it leaves, and that the key is usable.
use mini_vault.Base.{◌≡◌, refl, ◌∙◌, ap, arith, ◌∷◌, [], none, List, Text, text, Bytes, subst, same}
use mini_vault.Errors.{Result, ok}
use mini_vault.Platform.{Platform, IsSound}
use mini_vault.Db.{World, Db, TransitKey, TransitKeyVersion, AuditLog}
use mini_vault.Utils.{matches_key_name, validate_key_name, b64e}
use mini_vault.Schemas.{EmailStr, create_key_request}
use mini_vault.Vault
use mini_vault.Kv.{JsonCodec}
use mini_vault.Transit
use mini_vault.Transit.{Metadata, encrypt_decrypt, key_of, first_aad, metadata, max_plaintext}
use mini_vault.Transit.Creation.{Usable, create_aes-new, decrypt-create_aes}
use mini_vault.Router.{key_create}
use mini_vault.Router.Denied.{closed, authenticated-closed}
use mini_vault.Scripts.{Fields, Run, bearer, alice, payment_key, card_plaintext}
use mini_vault.Scripts.Setting.{IsRun, IsAt, alice_token, alice_principal}
use mini_vault.Scripts.Callers.{alice-signed, dek_of}

module _ (p : Platform) (run : Run) where
  -- The rows of the key that Alice makes, wrapped as `c`.
  abbrev pub aes_key : Bytes → TransitKey
  aes_key c = record {
    id = 1;
    key_name = payment_key;
    owner_email = alice;
    key_usage = encrypt_decrypt;
    algorithm = text "AES-256-GCM";
    encrypted_key_material_b64 = p.b64encode c;
    key_nonce_b64 = p.b64encode (run.random 9 12);
    public_key_b64 = none;
    revoked_at = none;
    created_at = run.written 9;
  }

  abbrev pub aes_version : Bytes → TransitKeyVersion
  aes_version c = record {
    id = 1;
    transit_key_id = 1;
    version = 1;
    encrypted_key_material_b64 = p.b64encode c;
    key_nonce_b64 = p.b64encode (run.random 9 12);
  }

module _ (p : Platform) (sound : IsSound p) (m : EmailStr) (j : JsonCodec Fields) (run : Run)
    (suits : IsRun p m j run) (log : List AuditLog) (w : World)
    (at_w : IsAt p run [] [] log w) where
  abbrev w_open : World
  w_open = record w { work = w.stored }

  -- The world once the key is made.
  abbrev pub with_key : Bytes → World
  with_key c =
      let db : Db = record w.stored {
        transit_keys = aes_key p run c ∷ [];
        transit_versions = aes_version p run c ∷ [];
      } in
      record w { stored = db; work = db }

  pub create-made :
      (c : Bytes) × (Transit.create_aes p
          (run.random 9 32)
          (run.random 9 12)
          (run.written 9)
          alice
          payment_key
          w_open
        ≡ (ok (metadata p (aes_key p run c) 1), with_key c))
  unfolding validate_key_name matches_key_name Vault.encrypt key_of first_aad b64e
  create-made =
      let nonce = run.random 9 12 in
      let aad = first_aad alice payment_key in
      let (c, ec, _, _) =
        sound.aes-round (run.random 0 32) nonce (run.random 9 32) (p.encode aad) (suits.drawn 0 32)
          (suits.drawn 9 12) (omega (arith, suits.drawn 9 32))
          (omega (arith, sound.encode-length aad)) in
      (
        c,
        create_aes-new p alice payment_key (run.random 9 32) nonce (run.random 0 32) (run.written 9)
              c w_open refl (dek_of p run [] [] log w at_w w_open refl) (rw at_w.keys_at refl)
              (rw (at_w.keys_at, at_w.versions_at) refl) (rw (Vault.encrypt, ec) refl)
            ∙ rw (at_w.keys_at, at_w.versions_at) refl,
      )

  abbrev raw : Bytes
  raw = p.encode card_plaintext

  abbrev pub plaintext_b64 : Text
  plaintext_b64 = p.b64encode raw

  pub made-Usable :
      (c : Bytes)
      → Transit.create_aes p
          (run.random 9 32)
          (run.random 9 12)
          (run.written 9)
          alice
          payment_key
          w_open
        ≡ (ok (metadata p (aes_key p run c) 1), with_key c)
      → Usable p (run.random 10 12) alice payment_key plaintext_b64 raw (with_key c)
  unfolding matches_key_name key_of
  made-Usable c made =
      let (_, _, usable) =
        decrypt-create_aes p sound alice payment_key (run.random 9 32) (run.random 9 12)
          (run.random 10 12) (run.random 0 32) (run.written 9) plaintext_b64 raw w_open refl
          (omega arith) (dek_of p run [] [] log w at_w w_open refl) (rw at_w.keys_at refl)
          (rw (at_w.keys_at, at_w.versions_at) refl) (suits.drawn 9 32) (suits.drawn 0 32)
          (suits.drawn 9 12) (suits.drawn 10 12) (sound.b64-round raw)
          (omega (arith, sound.encode-length card_plaintext)) in
      subst (λ (u : World). Usable p (run.random 10 12) alice payment_key plaintext_b64 raw u)
        (ap (λ (r : Result Metadata × World). r.1) made) usable

  pub with_key-IsAt :
      (c : Bytes) → IsAt p run (aes_key p run c ∷ []) (aes_version p run c ∷ []) log (with_key c)
  with_key-IsAt c = record {
    is_open = at_w.is_open;
    users = at_w.users;
    sessions = at_w.sessions;
    valid = at_w.valid;
    keys_at = refl;
    versions_at = refl;
    log_at = at_w.log_at;
    intact = at_w.intact;
  }

  pub key_create-made :
      (c : Bytes)
      → Transit.create_aes p
          (run.random 9 32)
          (run.random 9 12)
          (run.written 9)
          alice
          payment_key
          w_open
        ≡ (ok (metadata p (aes_key p run c) 1), with_key c)
      → key_create p
          (bearer p m j run 9 (alice_token p run))
          (run.random 9 32)
          (run.random 9 12)
          (run.written 9)
          (record { key_name = payment_key; key_usage = text "ENCRYPT_DECRYPT" })
          w
        ≡ (ok (metadata p (aes_key p run c) 1), with_key c)
  unfolding key_create create_key_request same
  key_create-made c made =
      let req = bearer p m j run 9 (alice_token p run) in
      let who = alice_principal p run in
      authenticated-closed p req who
        (λ x.
          Transit.create_aes p (run.random 9 32) (run.random 9 12) (run.written 9) x.user.email
            payment_key)
        w (alice-signed p sound m j run suits [] [] log w at_w 9)
      ∙ ap (closed p req who) made
