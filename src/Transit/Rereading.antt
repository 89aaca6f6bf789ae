-- ===== src/Transit/Rereading.antt =====
-- TransitService.rotate and TransitService.decrypt: what was encrypted under an earlier version stays readable.
use mini_vault.Base.{
  ℕ, ◌≡◌, sym, true, ◌&&◌, some, Text, Bytes, arith, ◌==◌, find?, inl, inr, ap, ◌∙◌, show, length,
  ◌≤◌,
}
use mini_vault.Errors.{ok}
use mini_vault.Platform.{Platform, IsSound}
use mini_vault.Utils.{matches_key_name}
use mini_vault.PyInt.{max_digits}
use mini_vault.PyInt.RoundTrip.{int-show}
use mini_vault.Transit.Envelope.{matches_key_name_sound, parts-envelope_of}
use mini_vault.Db.{World, TransitKey, TransitKeyVersion}
use mini_vault.Transit.{encrypt_decrypt, find_key, rotate, decrypt_version, decrypt, envelope_of}
use mini_vault.Transit.Rotation.{
  rekeyed, rotate-Rekeyed, find_key-Rekeyed, material-Rekeyed, decrypt_version-Rekeyed,
}

decrypt_version-rotate :
    (p : Platform) (email name : Text) (key : TransitKey) (w : World) (secret nonce : Bytes)
    (version : ℕ) (row : TransitKeyVersion) (blob_b64 : Text)
    → find_key email name (some encrypt_decrypt) w ≡ ok key
    → find? (λ v. v.transit_key_id == key.id && v.version == version) w.work.transit_versions
      ≡ some row
    → decrypt_version p email version name blob_b64 (rotate p secret nonce email name w).1
      ≡ decrypt_version p email version name blob_b64 w
decrypt_version-rotate p email name key w secret nonce version row blob_b64 found here =
    let u = (rotate p secret nonce email name w).1 in
    elim (rotate-Rekeyed p email name key w u secret nonce found) [
      | inl still ↦ ap (λ x. decrypt_version p email version name blob_b64 x) still
      | inr (n, m, added, keys, versions, dek, _) ↦
          decrypt_version-Rekeyed p email name key w u version blob_b64 (rekeyed n m key) found
            (find_key-Rekeyed p email name key w u (some encrypt_decrypt) n m keys dek found)
            (material-Rekeyed p email name key w u version row n m added versions dek here)
    ]

pub decrypt-envelope_of :
    (p : Platform)
    → IsSound p
    → (email name blob_b64 : Text) (version : ℕ) (w : World) → matches_key_name name ≡ true
    → length (show version) ≤ max_digits
    → decrypt p email (envelope_of version name blob_b64) w
      ≡ decrypt_version p email version name blob_b64 w
unfolding decrypt
decrypt-envelope_of p sound email name blob_b64 version w named digits =
    let (plain, long, _) = matches_key_name_sound name named in
    ground (
      arith,
      parts-envelope_of version name blob_b64 plain (omega arith),
      int-show p sound version digits,
    )

-- However a rotation of the caller's own encryption key ends, every ciphertext of a version that
-- has its row, with at most 4300 digits and a valid key name, decrypts after it to what it
-- decrypted to before, errors included.
decrypt-rotate :
    (p : Platform)
    → IsSound p
    → (email name : Text) (key : TransitKey) (w : World) (secret nonce : Bytes) (version : ℕ)
      (row : TransitKeyVersion) (blob_b64 : Text)
    → matches_key_name name ≡ true
    → length (show version) ≤ max_digits
    → find_key email name (some encrypt_decrypt) w ≡ ok key
    → find? (λ v. v.transit_key_id == key.id && v.version == version) w.work.transit_versions
      ≡ some row
    → let envelope = envelope_of version name blob_b64 in
      decrypt p email envelope (rotate p secret nonce email name w).1 ≡ decrypt p email envelope w
decrypt-rotate p sound email name key w secret nonce version row blob_b64 named digits found here =
    decrypt-envelope_of p sound email name blob_b64 version (rotate p secret nonce email name w).1
      named digits
    ∙ decrypt_version-rotate p email name key w secret nonce version row blob_b64 found here
    ∙ sym (decrypt-envelope_of p sound email name blob_b64 version w named digits)
