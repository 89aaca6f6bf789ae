-- ===== src/Transit/Survival.antt =====
-- What was encrypted stays readable through any run of calls that change the named keys.
use mini_vault.Base.{
  ℕ, ◌≤◌, ◌≡◌, refl, sym, ◌∙◌, ◌&&◌, true, false, some, List, [], ◌∷◌, Text, Bytes, ◌==◌, same,
  show, length, find?, inl, inr, All,
}
use mini_vault.Errors.{ok}
use mini_vault.Platform.{Platform, IsSound}
use mini_vault.PyInt.{max_digits}
use mini_vault.Db.{World, TransitKey, TransitKeyVersion}
use mini_vault.Utils.{matches_key_name}
use mini_vault.Transit.{
  encrypt_decrypt, find_key, rotate, revoke, create_aes, create_signing, decrypt, envelope_of,
}
use mini_vault.Transit.Rotation.{find_key_sound}
use mini_vault.Transit.Rereading.{decrypt-envelope_of}
use mini_vault.Transit.Calls.{
  KeyCall, creating, creating_signing, rotating, revoking, perform, run, UniqueKeys,
}
use mini_vault.Transit.Growth.{creation-Grown}
use mini_vault.Transit.Effects.{Rekeyed-UniqueKeys, Retired-UniqueKeys, rotate_cases, revoke_cases}
use mini_vault.Transit.Serving.{
  Serves, same_id-same_name, decrypt_version-Serves, Grown-Serves, Rekeyed-Serves, Retired-Serves,
}

-- A call other than to revoke this key.
abbrev pub Spares : Text → Text → KeyCall → Type 0
Spares email name (revoking now email' name') = (same email' email && same name' name) ≡ false
Spares email name _ = Unit

module _ (p : Platform) (email name : Text) (id version : ℕ) (row : TransitKeyVersion)
    (dek : Bytes) where
  abbrev Served : World → Type 0
  Served = Serves p email name id version row dek

  perform-Serves :
      (c : KeyCall) (w : World)
      → Spares email name c
      → Served w
      → UniqueKeys w
      → Served (perform p c w) × UniqueKeys (perform p c w)
  perform-Serves (creating secret nonce now email' name') w spares serves unique =
      let (grown, _) = creation-Grown p secret nonce now email' name' w in
      (
        Grown-Serves p email name id version row dek email' w
            (create_aes p secret nonce now email' name' w).1 grown serves,
        grown.5 unique,
      )
  perform-Serves (creating_signing seed nonce now email' name') w spares serves unique =
      let (_, grown) = creation-Grown p seed nonce now email' name' w in
      (
        Grown-Serves p email name id version row dek email' w
            (create_signing p seed nonce now email' name' w).1 grown serves,
        grown.5 unique,
      )
  perform-Serves (rotating secret nonce email' name') w spares serves unique =
      elim (rotate_cases p email' name' w secret nonce) [
        | inl still ↦ rw still (serves, unique)
        | inr (k, _, rekeyed_k) ↦ (
          Rekeyed-Serves p email name id version row dek k w
              (rotate p secret nonce email' name' w).1 rekeyed_k serves,
          Rekeyed-UniqueKeys k w (rotate p secret nonce email' name' w).1 rekeyed_k unique,
        )
      ]
  perform-Serves (revoking now email' name') w spares serves unique =
      elim (revoke_cases p now email' name' w) [
        | inl still ↦ rw still (serves, unique)
        | inr (k, there, retired_k) ↦
            let (key, here, _, _, _, _) = serves in
            (
              Retired-Serves p email name id version row dek now k w (revoke p now email' name' w).1
                  retired_k serves
                  (same_id-same_name email name email' name' w.work.transit_keys key k unique here
                    there spares),
              Retired-UniqueKeys now k w (revoke p now email' name' w).1 retired_k unique,
            )
      ]

  run-Serves :
      (cs : List KeyCall) (w : World)
      → All (Spares email name) cs
      → Served w
      → UniqueKeys w
      → Served (run p cs w)
  run-Serves [] w spares serves unique = serves
  run-Serves (c ∷ cs) w spares serves unique =
      let (serves', unique') = perform-Serves c w spares.0 serves unique in
      run-Serves cs (perform p c w) spares.1 serves' unique'

-- In a vault that is open, for a key of the caller's that may encrypt, under a valid name, no two
-- keys having one id: after any run of calls that create, rotate and revoke keys, of any callers,
-- however each ends, other than to revoke this key, every ciphertext of a version that has its row,
-- with at most 4300 digits, decrypts to what it decrypted to before, errors included.
pub decrypt-run :
    (p : Platform)
    → IsSound p
    → (email name : Text) (key : TransitKey) (version : ℕ) (row : TransitKeyVersion)
      (blob_b64 : Text) (cs : List KeyCall) (w : World)
    → matches_key_name name ≡ true
    → length (show version) ≤ max_digits
    → UniqueKeys w
    → find_key email name (some encrypt_decrypt) w ≡ ok key
    → find? (λ v. v.transit_key_id == key.id && v.version == version) w.work.transit_versions
      ≡ some row
    → All (Spares email name) cs
    → let envelope = envelope_of version name blob_b64 in
      decrypt p email envelope (run p cs w) ≡ decrypt p email envelope w
decrypt-run p sound email name key version row blob_b64 cs w named digits unique found here spares =
    let (dek, open_vault, there, checked) =
      find_key_sound email name (some encrypt_decrypt) key w found in
    let serves : Serves p email name key.id version row dek w =
      (key, there, checked, refl, here, open_vault) in
    decrypt-envelope_of p sound email name blob_b64 version (run p cs w) named digits
    ∙ decrypt_version-Serves p email name key.id version row dek w (run p cs w) blob_b64 serves
        (run-Serves p email name key.id version row dek cs w spares serves unique)
    ∙ sym (decrypt-envelope_of p sound email name blob_b64 version w named digits)
