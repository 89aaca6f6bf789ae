-- ===== src/Transit/Extended.antt =====
-- TransitService.decrypt reads three things of the world, and keys that are added after the
-- caller's do not change what it finds.
use mini_vault.Base.{
  ◌≡◌, refl, arith, ◌++◌, some, List, Option, Text, same, ◌&&◌, find?-append-some, inl, inr, ℕ,
  Option-cases, Bool-cases, split,
}
use mini_vault.Errors.{ok, Result-cases}
use mini_vault.Platform.{Platform}
use mini_vault.Db.{World, TransitKey}
use mini_vault.PyInt.{int}
use mini_vault.Vault.{require_dek}
use mini_vault.Transit.{
  key_of, find_key, current_version, encrypt_decrypt, pick_material, unwrap, material,
  decrypt_version, decrypt, envelope_parts,
}

-- The tables of keys and versions are those of `w`, with keys added, and the key in memory is the
-- same.
abbrev pub Extends : World → List TransitKey → World → Type 0
Extends w more u =
    (u.work.transit_keys ≡ w.work.transit_keys ++ more)
    × (u.work.transit_versions ≡ w.work.transit_versions)
    × (u.dek ≡ w.dek)

module _ (p : Platform) (more : List TransitKey) (w u : World) (extends : Extends w more u) where
  find_key-Extends :
      (email name : Text) (usage : Option Text) (key : TransitKey)
      → find_key email name usage w ≡ ok key
      → find_key email name usage u ≡ ok key
  unfolding find_key key_of require_dek
  find_key-Extends email name usage key found =
      elim (Option-cases (key_of email name w.work.transit_keys)) [
        | inl absent ↦ absurd (ground arith)
        | inr (k, there) ↦
            let still =
              find?-append-some
                (λ (x : TransitKey). same x.owner_email email && same x.key_name name)
                w.work.transit_keys more k there in
            let (keys, _, memory) = extends in ground arith
      ]

  material-Extends :
      (key : TransitKey) (version : Option ℕ) → material p key version u ≡ material p key version w
  unfolding material pick_material unwrap require_dek current_version
  material-Extends key version = let (_, versions, memory) = extends in rw (versions, memory) refl

  decrypt_version-Extends :
      (email : Text) (version : ℕ) (name blob_b64 : Text) (x : Text)
      → decrypt_version p email version name blob_b64 w ≡ ok x
      → decrypt_version p email version name blob_b64 u ≡ ok x
  unfolding decrypt_version
  decrypt_version-Extends email version name blob_b64 x opens =
      elim (Result-cases (find_key email name (some encrypt_decrypt) w)) [
        | inr (e, missing) ↦ absurd (ground arith)
        | inl (key, found) ↦
            let still = find_key-Extends email name (some encrypt_decrypt) key found in
            let alike = material-Extends key (some version) in ground arith
      ]

  -- What decrypts, decrypts to the same once keys are added.
  pub decrypt-Extends :
      (email envelope x : Text)
      → decrypt p email envelope w ≡ ok x
      → decrypt p email envelope u ≡ ok x
  unfolding decrypt
  decrypt-Extends email envelope x opens =
      elim (Option-cases (envelope_parts (split b':' 3 envelope))) [
        | inl none_found ↦ absurd (ground arith)
        | inr ((version, name, blob), parts) ↦ elim (Option-cases (int p version)) [
          | inl no_number ↦ absurd (ground arith)
          | inr ((negative, n), number) ↦
              let opened = decrypt_version-Extends email n name blob x in
              elim (Bool-cases negative) [
                | inl below ↦ absurd (ground arith)
                | inr above ↦ ground arith
              ]
        ]
      ]
