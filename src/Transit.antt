-- ===== src/Transit.antt =====
-- app/transit/service.py: named keys under versions, their creation, rotation and revocation.
pub mod Tables
pub mod Messages
pub mod Envelope
pub mod Signing
pub mod Rotation
pub mod Rereading
pub mod Revocation
pub mod Creation
pub mod Calls
pub mod Growth
pub mod Effects
pub mod Serving
pub mod Survival
pub mod Extended
pub mod Owners
pub mod Views
pub mod Isolation
mod Tests
unfoldable pub use Tables.{
  key_of, find_key, current_version, first_aad, later_aad, message_aad, envelope_of, add_key,
  add_version,
}
pub use Tables.{
  encrypt_decrypt, sign_verify, ed25519, wrong_usage, check_key, versions_of, version_or_one,
  material_aad, Metadata,
}
unfoldable pub use Messages.{
  pick_material, unwrap, material, encrypt, decrypt_version, decrypt, sign, check_signature, verify,
}
pub use Messages.{
  max_plaintext, envelope_parts, nonce_of, material_of, untagged, bad_envelope, raw_type,
  digest_type, check_digest, other_algorithm, public_or_empty, invalid, Signature, Verification,
}
use mini_vault.Base.{
  ℕ, ◌+◌, ◌≡◌, Bool, true, false, not, ◌&&◌, ◌||◌, Option, none, some, List, [], ◌∷◌, ◌++◌, map,
  Text, Bytes, ⊤, text, length, take, drop, ltb, ◌==◌, same, starts_with, split, joined, show,
  find?, keep, update, greatest, any, if◌then◌else◌,
}
use Prim.Native.String.{String}
use mini_vault.Errors.{
  Result, ok, raise, Exc, app, invalid_tag, invalid_signature, value_error, integrity_error,
  app_error, raise_if, catch, validation_error, permission_denied, key_not_found, invalid_key_usage,
  key_already_exists, key_version_not_found, decryption_failed, invalid_ciphertext,
  invalid_digest_length, invalid_signing_algorithm, ◌>>=◌ as and_then,
}
use mini_vault.Platform.{Platform}
use mini_vault.PyInt.{int}
use mini_vault.Utils.{validate_key_name, b64e, b64d}
use mini_vault.Vault
use mini_vault.Vault.{require_dek}
use mini_vault.Db.{
  Time, World, Db, TransitKey, TransitKeyVersion, Action, pure, lift, reads, ◌>>=◌, ◌>>◌, change,
  commit, next_id, add_row,
}

module _ (p : Platform) where
  -- TransitService.metadata, of a key that the request has made
  unfoldable pub metadata : TransitKey → ℕ → Metadata
  metadata key version = record {
    key_name = key.key_name;
    key_usage = key.key_usage;
    algorithm = key.algorithm;
    current_version = version;
    created_at = p.isoformat key.created_at;
    revoked = elim key.revoked_at [ none ↦ false | some _ ↦ true ];
  }

  -- `_metadata`, of a key that a query has given
  abbrev pub current_metadata : Db → TransitKey → Metadata
  current_metadata db key = record (metadata key (version_or_one (current_version db key))) {
    created_at = p.isoformat_stored key.created_at;
  }

  abbrev pub key_row :
      Db → Text → Text → Text → Text → Bytes × Bytes → Option Bytes → Time → TransitKey
  key_row db email name usage algorithm sealed public now = record {
    id = next_id (λ (k : TransitKey). k.id) db.transit_keys;
    key_name = name;
    owner_email = email;
    key_usage = usage;
    algorithm = algorithm;
    encrypted_key_material_b64 = b64e p sealed.1;
    key_nonce_b64 = b64e p sealed.0;
    public_key_b64 = elim public [ none ↦ none | some b ↦ some (b64e p b) ];
    revoked_at = none;
    created_at = now;
  }

  abbrev pub version_row : Db → ℕ → ℕ → Bytes × Bytes → TransitKeyVersion
  version_row db key version sealed = record {
    id = next_id (λ (v : TransitKeyVersion). v.id) db.transit_versions;
    transit_key_id = key;
    version = version;
    encrypted_key_material_b64 = b64e p sealed.1;
    key_nonce_b64 = b64e p sealed.0;
  }

  -- `if self.db.scalar(...): raise AppError("KEY_ALREADY_EXISTS", ...)`
  abbrev pub check_free : Text → Text → World → Result ⊤
  check_free email name w = elim (key_of email name w.work.transit_keys) [
    | none ↦ ok tt
    | some _ ↦ app_error key_already_exists "Key already exists" 409
  ]

  -- TransitService.create_aes; `material` and `nonce` are what os.urandom gave
  unfoldable pub create_aes : Bytes → Bytes → Time → Text → Text → Action Metadata
  unfolding add_key add_version
  create_aes material nonce now email name = do
    lift (validate_key_name name)
    dek ← reads require_dek
    reads (check_free email name)
    sealed ← lift (Vault.encrypt p nonce dek material (p.encode (first_aad email name)))
    key ←
        reads
          (λ w. ok (key_row w.work email name encrypt_decrypt (text "AES-256-GCM") sealed none now))
    add_key key
    row ← reads (λ w. ok (version_row w.work key.id 1 sealed))
    add_version row
    commit
    pure (metadata key 1)

  -- TransitService.create_signing; `seed` is the private key that was generated
  unfoldable pub create_signing : Bytes → Bytes → Time → Text → Text → Action Metadata
  unfolding add_key
  create_signing seed nonce now email name = do
    lift (validate_key_name name)
    dek ← reads require_dek
    reads (check_free email name)
    sealed ← lift (Vault.encrypt p nonce dek seed (p.encode (first_aad email name)))
    key ← reads (λ w.
        ok
          (key_row w.work email name sign_verify ed25519 sealed (some (p.ed25519_public seed)) now))
    add_key key
    commit
    pure (metadata key 1)

  -- TransitService.list, in the order of the table
  unfoldable pub list : Text → World → Result (List Metadata)
  list email w = and_then (require_dek w) λ dek. ok (
      map (current_metadata w.work) (
        keep (λ k. same k.owner_email email && elim k.revoked_at [ none ↦ true | some _ ↦ false ])
          w.work.transit_keys))

  -- TransitService.get
  unfoldable pub get : Text → Text → World → Result Metadata
  get email name w = and_then (find_key email name none w) λ key. ok (current_metadata w.work key)

  -- TransitService.revoke
  unfoldable pub revoke : Time → Text → Text → Action ⊤
  revoke now email name = do
    key ← reads (find_key email name none)
    change (λ db. record db {
      transit_keys =
          update (λ k. k.id == key.id) (λ k. record k { revoked_at = some now }) db.transit_keys;
    })
    commit

  -- TransitService.rotate; `material` and `nonce` are what os.urandom gave
  unfoldable pub rotate : Bytes → Bytes → Text → Text → Action Metadata
  unfolding add_version
  rotate material nonce email name = do
    key ← reads (find_key email name (some encrypt_decrypt))
    dek ← reads require_dek
    next_version ← reads (λ w. ok (version_or_one (current_version w.work key) + 1))
    sealed ←
        lift (Vault.encrypt p nonce dek material (p.encode (later_aad email name next_version)))
    change (λ db. record db {
      transit_keys =
          update (λ k. k.id == key.id)
            (λ k. record k {
              encrypted_key_material_b64 = b64e p sealed.1;
              key_nonce_b64 = b64e p sealed.0;
            })
            db.transit_keys;
    })
    row ← reads (λ w. ok (version_row w.work key.id next_version sealed))
    add_version row
    commit
    reads (λ w. ok (current_metadata w.work key))
