-- ===== src/Transit/Messages.antt =====
-- app/transit/service.py: the material of a key, and encryption and signing with it.
use mini_vault.Base.{
  ℕ, Bool, true, false, not, ◌&&◌, ◌||◌, Option, none, some, List, [], ◌∷◌, ◌++◌, Text, Bytes, ⊤,
  text, length, take, drop, ltb, ◌==◌, same, starts_with, split, find?, if◌then◌else◌,
}
use Prim.Native.String.{String}
use mini_vault.Errors.{
  Result, ok, raise, Exc, app, invalid_tag, invalid_signature, value_error, app_error, raise_if,
  catch, validation_error, key_version_not_found, decryption_failed, invalid_ciphertext,
  invalid_digest_length, invalid_signing_algorithm, ◌>>=◌ as and_then,
}
use mini_vault.Platform.{Platform}
use mini_vault.PyInt.{int}
use mini_vault.Utils.{b64e, b64d}
use mini_vault.Vault
use mini_vault.Vault.{require_dek}
use mini_vault.Db.{World, Db, TransitKey, TransitKeyVersion}
use mini_vault.Transit.Tables.{
  find_key, current_version, message_aad, envelope_of, encrypt_decrypt, sign_verify, ed25519,
  version_or_one, material_aad,
}

pub record Signature : Type 0 where
  pub key_name : Text
  pub signature_b64 : Text
  pub signing_algorithm : Text

pub record Verification : Type 0 where
  pub key_name : Text
  pub signature_valid : Bool
  pub signing_algorithm : Text

abbrev pub max_plaintext : ℕ
max_plaintext = 1048576

-- The parts of an envelope that passes the test on its shape: the version behind the "v", the
-- name, and the blob.
abbrev pub envelope_parts : List Text → Option (Text × Text × Text)
envelope_parts (tag ∷ version ∷ name ∷ blob ∷ []) =
    if not (same tag (text "vault")) || not (starts_with version (text "v")) || length name == 0
    then none
    else some (drop 1 version, name, blob)
envelope_parts _ = none

module _ (p : Platform) where
  -- the choice of `_material`: the version row, if there is one, and the version
  unfoldable pub pick_material : Db → TransitKey → Option ℕ → Result (Option TransitKeyVersion × ℕ)
  pick_material db key (some version) =
      elim (find? (λ v. v.transit_key_id == key.id && v.version == version) db.transit_versions) [
        | some row ↦ ok (some row, version)
        | none ↦
            if version == 1
            then ok (none, version)
            else app_error key_version_not_found "Key version not found" 404
      ]
  pick_material db key none =
      if same key.key_usage encrypt_decrypt
      then ok (current_version db key, version_or_one (current_version db key))
      else ok (none, 1)

  abbrev pub nonce_of : TransitKey → Option TransitKeyVersion → Text
  nonce_of key none = key.key_nonce_b64
  nonce_of key (some row) = row.key_nonce_b64

  abbrev pub material_of : TransitKey → Option TransitKeyVersion → Text
  material_of key none = key.encrypted_key_material_b64
  material_of key (some row) = row.encrypted_key_material_b64

  -- `except InvalidTag: raise AppError("DECRYPTION_FAILED", ...)`
  abbrev pub untagged : {A : Type 0} → String → Exc → Result A
  untagged message invalid_tag = app_error decryption_failed message 400
  untagged message e = raise e

  -- the `try` of `_material`
  unfoldable pub unwrap : Text → Text → Text → World → Result Bytes
  unwrap nonce_b64 material_b64 aad w = and_then (require_dek w) λ dek.
      and_then (b64d p nonce_b64 validation_error) λ nonce.
        and_then (b64d p material_b64 validation_error)
          λ wrapped. Vault.decrypt p dek nonce wrapped (p.encode aad)

  -- TransitService._material
  unfoldable pub material : TransitKey → Option ℕ → World → Result Bytes
  material key version w = and_then (pick_material w.work key version) λ picked.
      catch
        (unwrap (nonce_of key picked.0) (material_of key picked.0)
          (material_aad key.owner_email key.key_name picked.1) w)
        (untagged "Key material could not be decrypted")

  -- TransitService.encrypt; `nonce` is what os.urandom(12) gave
  unfoldable pub encrypt : Bytes → Text → Text → Text → World → Result Text
  encrypt nonce email name plaintext_b64 w =
      and_then (find_key email name (some encrypt_decrypt) w) λ key.
        and_then (b64d p plaintext_b64 validation_error) λ raw.
          and_then
            (raise_if (ltb max_plaintext (length raw)) validation_error "Plaintext is too large"
              413)
            λ _.
              let version = version_or_one (current_version w.work key) in
              and_then (material key (some version) w) λ secret.
                and_then
                  (Vault.encrypt p nonce secret raw (p.encode (message_aad email name version)))
                  λ sealed. ok (envelope_of version name (b64e p (sealed.0 ++ sealed.1)))

  abbrev pub bad_envelope : {A : Type 0} → Result A
  bad_envelope = app_error invalid_ciphertext "Invalid ciphertext" 400

  -- TransitService.decrypt, once the version has been read
  unfoldable pub decrypt_version : Text → ℕ → Text → Text → World → Result Text
  decrypt_version email version name blob_b64 w =
      if version == 0
      then bad_envelope
      else and_then (b64d p blob_b64 invalid_ciphertext) λ blob.
        if ltb (length blob) 28
        then bad_envelope
        else and_then (find_key email name (some encrypt_decrypt) w) λ key.
          and_then
            (catch
              (and_then (material key (some version) w) λ secret.
                Vault.decrypt p secret (take 12 blob) (drop 12 blob)
                  (p.encode (message_aad email name version)))
              (untagged "Ciphertext could not be decrypted"))
            λ raw. ok (b64e p raw)

  -- TransitService.decrypt; a negative version is below 1 too
  unfoldable pub decrypt : Text → Text → World → Result Text
  unfolding decrypt_version
  decrypt email envelope w = elim (envelope_parts (split b':' 3 envelope)) [
    | none ↦ bad_envelope
    | some (version, name, blob) ↦ elim (int p version) [
      | none ↦ bad_envelope
      | some (true, n) ↦ bad_envelope
      | some (false, n) ↦ decrypt_version email n name blob w
    ]
  ]

  abbrev pub raw_type : Text
  raw_type = text "RAW"

  abbrev pub digest_type : Text
  digest_type = text "DIGEST"

  abbrev pub check_digest : Text → Bytes → Result ⊤
  check_digest message_type message =
      raise_if (same message_type digest_type && not (length message == 32)) invalid_digest_length
        "Digest must be 32 bytes" 400

  -- TransitService.sign
  unfoldable pub sign : Text → Text → Text → Text → World → Result Signature
  sign email name message_b64 message_type w =
      and_then (find_key email name (some sign_verify) w) λ key.
        and_then (b64d p message_b64 validation_error) λ message.
          and_then (check_digest message_type message) λ _.
            and_then (material key none w) λ private.
              and_then (p.ed25519_sign private message) λ signature. ok (record {
                key_name = name;
                signature_b64 = b64e p signature;
                signing_algorithm = ed25519;
              })

  -- `if signing_algorithm and signing_algorithm != key.algorithm`: an empty text counts as absent
  abbrev pub other_algorithm : Option Text → TransitKey → Bool
  other_algorithm none key = false
  other_algorithm (some []) key = false
  other_algorithm (some (c ∷ s)) key = not (same (c ∷ s) key.algorithm)

  -- `key.public_key_b64 or ""`
  abbrev pub public_or_empty : TransitKey → Text
  public_or_empty key = elim key.public_key_b64 [ none ↦ [] | some s ↦ s ]

  -- the `try` of `verify`, with its handler
  abbrev pub invalid : Exc → Result Bool
  invalid invalid_signature = ok false
  invalid value_error = ok false
  invalid (app e) = ok false
  invalid e = raise e

  unfoldable pub check_signature : TransitKey → Text → Bytes → Result Bool
  check_signature key signature_b64 message =
      catch
        (and_then (b64d p signature_b64 validation_error) λ signature.
          and_then (b64d p (public_or_empty key) validation_error)
            λ public. and_then (p.ed25519_verify public signature message) λ _. ok true)
        invalid

  -- TransitService.verify
  unfoldable pub verify :
      Text → Text → Text → Text → Text → Option Text → World → Result Verification
  verify email name message_b64 message_type signature_b64 algorithm w =
      and_then (find_key email name (some sign_verify) w) λ key.
        and_then (b64d p message_b64 validation_error) λ message.
          and_then
            (raise_if (other_algorithm algorithm key) invalid_signing_algorithm
              "Signing algorithm does not match the key" 400)
            λ _. and_then (check_digest message_type message) λ _.
              and_then (check_signature key signature_b64 message) λ valid.
                ok
                  (record { key_name = name; signature_valid = valid; signing_algorithm = ed25519 })
