-- ===== src/Scripts.antt =====
-- scripts/make_samples.py: the requests that the script sends to the application, in its order,
-- what it asserts of the answers, and what it writes to its sample files.
pub mod Constants
pub mod Steps
pub mod Setting
pub mod Opening
pub mod Entering
pub mod Callers
pub mod Keeping
pub mod Making
pub mod Encrypting
pub mod Signing
pub mod Main
mod Tests
pub use Constants.{
  Value, Fields, master, alice, alice_pw, bob, bob_pw, db_secret, api_secret, card_plaintext,
  sign_message, database_path, gateway_path, payment_key, document_key, string, number,
}
use mini_vault.Base.{
  ℕ, Bool, true, Option, none, some, List, [], ◌∷◌, ◌++◌, map, Text, Bytes, ⊤, text, ◌==◌, same,
  leb, sort_by, if◌then◌else◌,
}
use mini_vault.Platform.{Platform}
use mini_vault.Db.{Time, World, Db, AuditLog, Action}
use mini_vault.Http.{Response, Endpoint}
use mini_vault.Schemas.{EmailStr, SignRequest}
use mini_vault.Transit.{Signature}
use mini_vault.Kv.{JsonCodec}
use mini_vault.Router.{
  Request, vault_init, vault_unlock, user_register, user_login, kv_write, kv_read, key_create,
  transit_encrypt, transit_decrypt, signing_key_create, transit_sign, transit_verify,
}
use mini_vault.App.{default_settings, serve}

-- What a run of the script finds outside the program: the header content-length that the client
-- sends with each request, the client's address, the times, and the random bytes, `random n k` being
-- `k` bytes that are drawn for the request `n`.
pub record Run : Type 0 where
  pub content_length : ℕ → Option Text
  pub client_ip : Option Text
  pub arrived : ℕ → Time
  pub written : ℕ → Time
  pub random : ℕ → ℕ → Bytes

-- What the script writes: the two entries of transit_samples.json, the first of which has the
-- ciphertext of transit_ciphertext.txt, and audit_log_sample.txt.
pub record Samples : Type 0 where
  pub ciphertext : Text
  pub plaintext_b64 : Text
  pub message_b64 : Text
  pub signature_b64 : Text
  pub signing_algorithm : Text
  pub audit_log : Text

-- A part of the script: `none` is an exception, of an `assert` or on a `"data"` of null.
abbrev pub Script : Type 0 → Type 0
Script A = World → Option A × World

infixl 5 ◌>>=◌ ◌>>◌
unfoldable pub ◌>>=◌ : {A B : Type 0} → Script A → (A → Script B) → Script B
◌>>=◌ m f w = let (r, w') = m w in elim r [ none ↦ (none, w') | some a ↦ f a w' ]

abbrev pub ◌>>◌ : {A B : Type 0} → Script A → Script B → Script B
m >> k = m >>= λ _. k

unfoldable pub pure : {A : Type 0} → A → Script A
pure a w = (some a, w)

-- `assert`
unfoldable pub check : Bool → Script ⊤
check b w = (if b then some tt else none, w)

-- `assert (await ...).status_code == status`
unfoldable pub expect : {A : Type 0} → ℕ → Endpoint A → Script ⊤
expect status call w = let (r, w') = call w in check (r.status == status) w'

-- `(await ...).json()["data"]`
unfoldable pub payload : {A : Type 0} → Endpoint A → Script A
payload call w = let (r, w') = call w in (r.payload, w')

-- The tables of `Base.metadata.create_all` on a file that is not there, and the process before its
-- first request; the transport sends no event of the life span.
abbrev pub new_database : Db
new_database = record {
  vault_config = [];
  users = [];
  sessions = [];
  kv_secrets = [];
  kv_versions = [];
  transit_keys = [];
  transit_versions = [];
  audit_logs = [];
}

abbrev pub new_process : World
new_process = record { stored = new_database; work = new_database; dek = none }

-- `"".join(...)`
abbrev pub concat : List Text → Text
concat [] = []
concat (s ∷ ss) = s ++ concat ss

-- A line of audit_log_sample.txt.
unfoldable pub audit_line : Platform → AuditLog → Text
audit_line p r = concat (
    p.isoformat_stored r.created_at
    ∷ text " | "
    ∷ r.requester_email
    ∷ text " | "
    ∷ r.action
    ∷ text " "
    ∷ r.resource_type
    ∷ text " "
    ∷ r.resource_identifier
    ∷ text " | "
    ∷ r.result
    ∷ text "\n"
    ∷ [])

module _ (p : Platform) (m : EmailStr) (j : JsonCodec Fields) (run : Run) where
  -- b64
  unfoldable pub b64 : Bytes → Text
  b64 raw = p.b64encode raw

  -- the request `n`, to a handler that answers with `status` where it succeeds
  abbrev pub send : {A : Type 0} → ℕ → ℕ → Action A → Endpoint A
  send n status handler = serve p default_settings (run.content_length n) status handler

  -- the headers `{"Authorization": "Bearer " + token}`
  abbrev pub bearer : ℕ → Text → Request
  bearer n token = record {
    client_ip = run.client_ip;
    credentials = some (text "Bearer", token);
    arrived = run.arrived n;
    audited = run.written n;
  }

  abbrev pub ttl : ℕ
  ttl = (default_settings).session_ttl_seconds

  -- the steps of `main`, up to the second registration
  unfoldable pub prepare : Script ⊤
  prepare = do
    expect 201 (
        send 0 201 (
          vault_init p (run.random 0 16) (run.random 0 32) (run.random 0 12)
            (record { master_passphrase = master; confirm_master_passphrase = master })))
    expect 200 (send 1 200 (vault_unlock p (record { master_passphrase = master })))
    expect 201 (
        send 2 201 (
          user_register p m (run.random 2 16)
            (record { email = alice; passphrase = alice_pw; confirm_passphrase = alice_pw })))
    expect 201 (
        send 3 201 (
          user_register p m (run.random 3 16)
            (record { email = bob; passphrase = bob_pw; confirm_passphrase = bob_pw })))

  -- the token of a login
  unfoldable pub enter : ℕ → Text → Text → Script Text
  enter n email pw = do
    answer ← payload (
        send n 200 (
          user_login p m ttl (run.random n 32) (run.written n)
            (record { email = email; passphrase = pw })))
    pure answer.access_token

  -- the secrets; the tokens are Alice's and Bob's
  unfoldable pub keep_secrets : Text → Text → Script ⊤
  keep_secrets a b = do
    expect 200 (
        send 6 200
          (kv_write p j (bearer 6 a) (run.random 6 12) (run.written 6) database_path db_secret))
    expect 200 (
        send 7 200
          (kv_write p j (bearer 7 a) (run.random 7 12) (run.written 7) gateway_path api_secret))
    expect 403 (send 8 200 (kv_read p j (bearer 8 b) database_path none))

  -- encryption: the plaintext in Base64 and the ciphertext
  unfoldable pub encrypt_card : Text → Text → Script (Text × Text)
  encrypt_card a b = do
    expect 201 (
        send 9 201 (
          key_create p (bearer 9 a) (run.random 9 32) (run.random 9 12) (run.written 9)
            (record { key_name = payment_key; key_usage = text "ENCRYPT_DECRYPT" })))
    let plaintext_b64 = b64 (p.encode card_plaintext)
    ciphertext ←
        payload (
          send 10 200
            (transit_encrypt p (bearer 10 a) (run.random 10 12) payment_key plaintext_b64))
    decrypted ← payload (send 11 200 (transit_decrypt p (bearer 11 a) ciphertext))
    check (same decrypted plaintext_b64)
    expect 403
        (send 12 200 (transit_encrypt p (bearer 12 b) (run.random 12 12) payment_key plaintext_b64))
    pure (plaintext_b64, ciphertext)

  -- signing: the message in Base64 and the signature
  unfoldable pub sign_document : Text → Script (Text × Signature)
  sign_document a = do
    expect 201 (
        send 13 201 (
          signing_key_create p (bearer 13 a) (run.random 13 32) (run.random 13 12) (run.written 13)
            (record { key_name = document_key; signing_algorithm = text "ED25519" })))
    let message_b64 = b64 (p.encode sign_message)
    let body : SignRequest = record {
      key_name = document_key;
      message_b64 = message_b64;
      message_type = text "RAW";
    }
    signed ← payload (send 14 200 (transit_sign p (bearer 14 a) body))
    verified ← payload (
        send 15 200 (
          transit_verify p (bearer 15 a) (record {
            signed = body;
            signature_b64 = signed.signature_b64;
            signing_algorithm = none;
          })))
    check verified.signature_valid
    pure (message_b64, signed)

  -- the export of the audit log, in a session of its own
  unfoldable pub export_log : Script Text
  export_log w =
      (some (concat (map (audit_line p) (sort_by (λ r s. leb r.id s.id) w.stored.audit_logs))), w)

  -- main
  unfoldable pub main : Script Samples
  main = do
    prepare
    a ← enter 4 alice alice_pw
    b ← enter 5 bob bob_pw
    keep_secrets a b
    card ← encrypt_card a b
    signed ← sign_document a
    log ← export_log
    pure (record {
      ciphertext = card.1;
      plaintext_b64 = card.0;
      message_b64 = signed.0;
      signature_b64 = signed.1.signature_b64;
      signing_algorithm = signed.1.signing_algorithm;
      audit_log = log;
    })
