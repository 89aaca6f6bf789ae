-- ===== src/Scripts/Main.antt =====
-- The whole of the script, from an empty database to its files.
use mini_vault.Base.{◌≡◌, refl, ◌∙◌, ◌∷◌, [], ◌++◌, none, some, true, Text, text, sym, append-nil}
use mini_vault.Errors.{ok}
use mini_vault.Platform.{Platform, IsSound}
use mini_vault.Db.{Time, World}
use mini_vault.Schemas.{EmailStr}
use mini_vault.Kv.{JsonCodec, IsJson}
use mini_vault.Transit
use mini_vault.Audit.{new_log, audit_verify, valid}
use mini_vault.Audit.Chain.{audit_verify_iff}
use mini_vault.Transit.Extended.{decrypt-Extends}
use mini_vault.Scripts.{
  Fields, Run, Samples, new_process, alice, bob, database_path, payment_key, document_key,
  card_plaintext, sign_message, concat, audit_line, pure, export_log, main,
}
use mini_vault.Scripts.Steps.{then}
use mini_vault.Scripts.Setting.{IsRun}
use mini_vault.Scripts.Entering.{prepare-opens, entered, enter-alice, enter-bob}
use mini_vault.Scripts.Callers.{entered-IsAt}
use mini_vault.Scripts.Keeping.{read_row, keep_secrets-IsAt}
use mini_vault.Scripts.Making.{with_key}
use mini_vault.Scripts.Encrypting.{encrypt_card-IsAt}
use mini_vault.Scripts.Signing.{made_key, sign_document-IsAt}

-- A line of the log for a request of Bob's that was denied.
abbrev pub denied_line : Platform → Time → Text → Text → Text → Text
denied_line p now call kind identifier = concat (
    p.isoformat_stored now
    ∷ text " | "
    ∷ bob
    ∷ text " | "
    ∷ call
    ∷ text " "
    ∷ kind
    ∷ text " "
    ∷ identifier
    ∷ text " | "
    ∷ text "DENIED"
    ∷ text "\n"
    ∷ [])

log_exported :
    (p : Platform) (m : EmailStr) (j : JsonCodec Fields) (run : Run) (now now' : Time)
    (call kind name call' kind' name' : Text) (w : World)
    → let first = new_log p [] bob call kind name (text "DENIED") run.client_ip now in
      w.stored.audit_logs
        ≡ first
          ∷ new_log p (first ∷ []) bob call' kind' name' (text "DENIED") run.client_ip now'
          ∷ []
      → export_log p m j run w
        ≡ (some (denied_line p now call kind name ++ denied_line p now' call' kind' name'), w)
unfolding export_log audit_line new_log
log_exported p m j run now now' call kind name call' kind' name' w logs =
    rw (logs, append-nil (denied_line p now' call' kind' name')) refl

-- What the files say of the world `u`: for Alice the ciphertext decrypts to the plaintext, and the
-- signature of the message is accepted.
abbrev pub SamplesHold : Platform → Samples → World → Type 0
SamplesHold p s u =
    (Transit.decrypt p alice s.ciphertext u ≡ ok s.plaintext_b64)
    × (Transit.verify p alice document_key s.message_b64 (text "RAW") s.signature_b64 none u
        ≡ ok (record {
          key_name = document_key;
          signature_valid = true;
          signing_algorithm = Transit.ed25519;
        }))

-- A run whose random bytes have the length asked for and give two tokens of different digests, whose
-- requests are within the size limit and arrive before a session runs out, with the two addresses
-- in their normal form and accepted as such, and both secrets of at most 1 MiB of JSON: from an
-- empty database and a process that has just started, the script comes to its end, every status and
-- value that it asserts being as asserted; its copy of the audit log has exactly two lines, the
-- denied read and the denied encryption of the second user; the log that is left is accepted by
-- `/audit/verify`; and in what is left the ciphertext of its files decrypts to their plaintext and
-- the signature of their message is accepted.
pub main-succeeds :
    (p : Platform)
    → IsSound p
    → (m : EmailStr) (j : JsonCodec Fields) → IsJson j
    → (run : Run) → IsRun p m j run
    → (s : Samples) × (u : World) × (main p m j run new_process ≡ (some s, u))
      × (s.audit_log
          ≡ denied_line p (run.written 8) (text "READ") (text "KV_SECRET") database_path
            ++ denied_line p (run.written 12) (text "ENCRYPT") (text "TRANSIT_KEY") payment_key)
      × (audit_verify p u.stored.audit_logs ≡ valid)
      × SamplesHold p s (record u { work = u.stored })
unfolding main pure
main-succeeds p sound m j json run suits =
    let (config, prepared) = prepare-opens p sound m j run suits in
    let w = entered p sound m j run suits config in
    let (w1, kept, at_1) =
      keep_secrets-IsAt p sound m j json run suits [] [] [] w
        (entered-IsAt p sound m j run suits config) in
    let row = read_row p sound m j json run suits [] [] [] in
    let (c, ciphertext, w2, encrypted, opens, at_2) =
      encrypt_card-IsAt p sound m j run suits (row ∷ []) w1 at_1 in
    let (c', signature, w3, signed, accepted, at_3) =
      sign_document-IsAt p sound m j run suits c _ _ w2 at_2 in
    let exported =
      log_exported p m j run (run.written 8) (run.written 12) (text "READ") (text "KV_SECRET")
        database_path (text "ENCRYPT") (text "TRANSIT_KEY") payment_key w3 at_3.log_at in
    (
      record {
        ciphertext = ciphertext;
        plaintext_b64 = p.b64encode (p.encode card_plaintext);
        message_b64 = p.b64encode (p.encode sign_message);
        signature_b64 = signature.signature_b64;
        signing_algorithm = signature.signing_algorithm;
        audit_log =
            denied_line p (run.written 8) (text "READ") (text "KV_SECRET") database_path
            ++ denied_line p (run.written 12) (text "ENCRYPT") (text "TRANSIT_KEY") payment_key;
      },
      w3,
      then _ _ _ _ _ prepared
          ∙ (then _ _ _ _ _ (enter-alice p sound m j run suits config)
              ∙ (then _ _ _ _ _ (enter-bob p sound m j run suits config)
                  ∙ (then _ _ _ _ _ kept
                      ∙ (then _ _ _ _ _ encrypted
                          ∙ (then _ _ _ _ _ signed ∙ then _ _ _ _ _ exported))))),
      refl,
      (audit_verify_iff p w3.stored.audit_logs at_3.intact.0).1 at_3.intact.1,
      (
        decrypt-Extends p (made_key p sound m j run suits c _ _ w2 at_2 c' ∷ [])
            (with_key p sound m j run suits (row ∷ []) w1 at_1 c) (record w3 { work = w3.stored })
            (at_3.keys_at, at_3.versions_at, at_3.is_open ∙ sym at_1.is_open) alice ciphertext _
            opens,
        accepted,
      ),
    )
