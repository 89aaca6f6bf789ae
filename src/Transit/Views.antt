-- ===== src/Transit/Views.antt =====
-- What a user's requests read of the named keys: the user's own rows, and the key in memory.
use mini_vault.Base.{
  ℕ, ◌≡◌, refl, sym, ◌∙◌, Bool, true, false, none, some, Option, Text, Bytes, arith, ◌==◌, same,
  find?-keep, keep, keep-keep, find?-All, All-imp, All-keep, map-All, inl, inr, Option-cases, split,
}
use mini_vault.Errors.{ok, Result-cases}
use mini_vault.Platform.{Platform}
use mini_vault.PyInt.{int}
use mini_vault.Vault.{require_dek}
use mini_vault.Db.{World, TransitKey, TransitKeyVersion}
use mini_vault.Transit.{
  key_of, find_key, versions_of, current_version, current_metadata, version_or_one, pick_material,
  unwrap, material, encrypt_decrypt, sign_verify, list, get, encrypt, decrypt_version, decrypt,
  sign, verify, envelope_parts,
}
use mini_vault.Transit.Rotation.{find_key_sound}
use mini_vault.Transit.Owners.{mine, IsAlike}

module _ (p : Platform) (email : Text) (w u : World) (alike : IsAlike email w u) where
  find_key-IsAlike :
      (name : Text) (usage : Option Text)
      → find_key email name usage u ≡ find_key email name usage w
  unfolding find_key key_of require_dek
  find_key-IsAlike name usage =
      let (keys, _, memory) = alike in
      let here = find?-keep (mine email) (λ k. same k.key_name name) w.work.transit_keys in
      let there = find?-keep (mine email) (λ k. same k.key_name name) u.work.transit_keys in
      rw (memory, sym there, sym here, keys) refl

  versions-IsAlike :
      (name : Text) (usage : Option Text) (key : TransitKey)
      → find_key email name usage w ≡ ok key
      → versions_of key.id u.work.transit_versions ≡ versions_of key.id w.work.transit_versions
  unfolding key_of
  versions-IsAlike name usage key found =
      let (_, _, there, _) = find_key_sound email name usage key w found in
      find?-All (λ (k : TransitKey). same k.key_name name) _ (keep (mine email) w.work.transit_keys)
        key (find?-keep (mine email) (λ k. same k.key_name name) w.work.transit_keys ∙ there)
        alike.1

  module _ (key : TransitKey)
      (rows : versions_of key.id u.work.transit_versions
        ≡ versions_of key.id w.work.transit_versions) where
    current_version-IsAlike : current_version u.work key ≡ current_version w.work key
    unfolding current_version
    current_version-IsAlike = rw rows refl

    pick_material-IsAlike :
        (version : Option ℕ)
        → pick_material p u.work key version ≡ pick_material p w.work key version
    unfolding pick_material
    pick_material-IsAlike none = rw current_version-IsAlike refl
    pick_material-IsAlike (some version) =
        let here =
          find?-keep (λ (v : TransitKeyVersion). v.transit_key_id == key.id)
            (λ v. v.version == version) w.work.transit_versions in
        let there =
          find?-keep (λ (v : TransitKeyVersion). v.transit_key_id == key.id)
            (λ v. v.version == version) u.work.transit_versions in
        rw (pick_material, sym there, sym here, rows) refl

    material-IsAlike : (version : Option ℕ) → material p key version u ≡ material p key version w
    unfolding material unwrap require_dek
    material-IsAlike version = rw (pick_material-IsAlike version, alike.2) refl

  current_metadata-IsAlike :
      (key : TransitKey)
      → versions_of key.id u.work.transit_versions ≡ versions_of key.id w.work.transit_versions
      → current_metadata p u.work key ≡ current_metadata p w.work key
  current_metadata-IsAlike key rows = rw (current_version-IsAlike key rows) refl

  -- the test of a listing on the keys of the owner
  abbrev in_use : TransitKey → Bool
  in_use k = elim k.revoked_at [ none ↦ true | some _ ↦ false ]

  pub list-IsAlike : list p email u ≡ list p email w
  unfolding list require_dek
  list-IsAlike =
      let (keys, rows, memory) = alike in
      let here = keep-keep (mine email) in_use w.work.transit_keys in
      let there = keep-keep (mine email) in_use u.work.transit_keys in
      let shown =
        map-All (current_metadata p u.work) (current_metadata p w.work)
          (keep in_use (keep (mine email) w.work.transit_keys))
          (All-keep in_use _ (keep (mine email) w.work.transit_keys) (
            All-imp _ _ (λ (k : TransitKey) hk. current_metadata-IsAlike k hk)
              (keep (mine email) w.work.transit_keys) rows)) in
      rw (memory, sym there, sym here, keys, shown) refl

  pub get-IsAlike : (name : Text) → get p email name u ≡ get p email name w
  unfolding get
  get-IsAlike name = elim (Result-cases (find_key email name none w)) [
    | inr (e, missing) ↦ rw (find_key-IsAlike name none, missing) refl
    | inl (key, found) ↦
        rw
          (
            find_key-IsAlike name none,
            found,
            current_version-IsAlike key (versions-IsAlike name none key found),
          )
          refl
  ]

  pub encrypt-IsAlike :
      (nonce : Bytes) (name plaintext_b64 : Text)
      → encrypt p nonce email name plaintext_b64 u ≡ encrypt p nonce email name plaintext_b64 w
  unfolding encrypt
  encrypt-IsAlike nonce name plaintext_b64 =
      let same_find = find_key-IsAlike name (some encrypt_decrypt) in
      elim (Result-cases (find_key email name (some encrypt_decrypt) w)) [
        | inr (e, missing) ↦ rw (same_find, missing) refl
        | inl (key, found) ↦
            let rows = versions-IsAlike name (some encrypt_decrypt) key found in
            let version = version_or_one (current_version w.work key) in
            rw
              (
                same_find,
                found,
                current_version-IsAlike key rows,
                material-IsAlike key rows (some version),
              )
              refl
      ]

  decrypt_version-IsAlike :
      (version : ℕ) (name blob_b64 : Text)
      → decrypt_version p email version name blob_b64 u
        ≡ decrypt_version p email version name blob_b64 w
  unfolding decrypt_version
  decrypt_version-IsAlike version name blob_b64 =
      let same_find = find_key-IsAlike name (some encrypt_decrypt) in
      elim (Result-cases (find_key email name (some encrypt_decrypt) w)) [
        | inr (e, missing) ↦ ground arith
        | inl (key, found) ↦
            let rows = versions-IsAlike name (some encrypt_decrypt) key found in
            let secret = material-IsAlike key rows (some version) in ground arith
      ]

  pub decrypt-IsAlike : (envelope : Text) → decrypt p email envelope u ≡ decrypt p email envelope w
  unfolding decrypt
  decrypt-IsAlike envelope = elim (Option-cases (envelope_parts (split b':' 3 envelope))) [
    | inl nothing ↦ ground arith
    | inr ((version, name, blob), parts) ↦ elim (Option-cases (int p version)) [
      | inl no_number ↦ ground arith
      | inr ((negative, n), number) ↦
          let opened = decrypt_version-IsAlike n name blob in ground arith
    ]
  ]

  pub sign-IsAlike :
      (name message_b64 message_type : Text)
      → sign p email name message_b64 message_type u ≡ sign p email name message_b64 message_type w
  unfolding sign
  sign-IsAlike name message_b64 message_type =
      let same_find = find_key-IsAlike name (some sign_verify) in
      elim (Result-cases (find_key email name (some sign_verify) w)) [
        | inr (e, missing) ↦ rw (same_find, missing) refl
        | inl (key, found) ↦
            let rows = versions-IsAlike name (some sign_verify) key found in
            rw (same_find, found, material-IsAlike key rows none) refl
      ]

  pub verify-IsAlike :
      (name message_b64 message_type signature_b64 : Text) (algorithm : Option Text)
      → verify p email name message_b64 message_type signature_b64 algorithm u
        ≡ verify p email name message_b64 message_type signature_b64 algorithm w
  unfolding verify
  verify-IsAlike name message_b64 message_type signature_b64 algorithm =
      rw (find_key-IsAlike name (some sign_verify)) refl
