-- ===== src/Transit/Serving.antt =====
-- A named key that serves a version: the rows that its ciphertexts need, and what may change around
-- them.
use mini_vault.Base.{
  tests, ℕ, ◌≡◌, refl, sym, ◌∙◌, ap, ◌&&◌, false, some, List, Text, Bytes, arith, ◌==◌, ==_iff,
  same, same_refl, find?, inl, inr, Bool-cases, UniqueBy, find?-by_key, find?-update,
  find?-append-some, find?-sound,
}
use mini_vault.Errors.{ok, catch}
use mini_vault.Platform.{Platform}
use mini_vault.Db.{World, Time, TransitKey, TransitKeyVersion}
use mini_vault.Vault.{require_dek}
use mini_vault.Transit.{
  encrypt_decrypt, untagged, material_aad, key_of, check_key, find_key, material, unwrap,
  pick_material, decrypt_version,
}
use mini_vault.Transit.Rotation.{
  rekeyed, Rekeyed, check_key-rekeyed, pick-row, decrypt_version-Rekeyed,
}
use mini_vault.Transit.Calls.{Grown}
use mini_vault.Transit.Effects.{retired, Retired}

pub key_of_sound :
    (email name : Text) (keys : List TransitKey) (key : TransitKey)
    → key_of email name keys ≡ some key
    → (key.owner_email ≡ email) × (key.key_name ≡ name)
unfolding key_of
key_of_sound email name keys key here =
    let hit =
      find?-sound (λ (k : TransitKey). same k.owner_email email && same k.key_name name) keys key
        here in
    (grind tests, grind tests)

-- Two names that lead to one id are one.
pub same_id-same_name :
    (email name email' name' : Text) (keys : List TransitKey) (key key' : TransitKey)
    → UniqueBy (λ (k : TransitKey). k.id) keys
    → key_of email name keys ≡ some key
    → key_of email' name' keys ≡ some key'
    → (same email' email && same name' name) ≡ false
    → (key.id == key'.id) ≡ false
unfolding key_of
same_id-same_name email name email' name' keys key key' unique here here' apart =
    let by_id =
      find?-by_key (λ (k : TransitKey). k.id)
        (λ k. same k.owner_email email && same k.key_name name) keys key unique here in
    let by_id' =
      find?-by_key (λ (k : TransitKey). k.id)
        (λ k. same k.owner_email email' && same k.key_name name') keys key' unique here' in
    let (owner, named) = key_of_sound email name keys key here in
    let (owner', named') = key_of_sound email' name' keys key' here' in
    elim (Bool-cases (key.id == key'.id)) [
      | inr differ ↦ differ
      | inl equal ↦
          let ids = (==_iff key.id key'.id).0 equal in
          let one : some key ≡ some key' = sym by_id ∙ rw ids by_id' in
          absurd (ground (arith, one, same_refl email, same_refl name))
    ]

module _ (p : Platform) (email name : Text) (id version : ℕ) (row : TransitKeyVersion)
    (dek : Bytes) where
  -- The name leads to a key of this id that may be used, and the version has this row.
  abbrev pub Serves : World → Type 0
  Serves w =
      (key : TransitKey) × (key_of email name w.work.transit_keys ≡ some key)
      × (check_key (some encrypt_decrypt) (some key) ≡ ok key)
      × (key.id ≡ id)
      × (find? (λ v. v.transit_key_id == id && v.version == version) w.work.transit_versions
          ≡ some row)
      × (require_dek w ≡ ok dek)

  find_key-Serves :
      (w : World) (serves : Serves w) → find_key email name (some encrypt_decrypt) w ≡ ok serves.0
  unfolding find_key
  find_key-Serves w (key, here, checked, _, _, open_vault) = ground arith

  material-row :
      (k : TransitKey) (w : World)
      → k.owner_email ≡ email
      → k.key_name ≡ name
      → pick_material p w.work k (some version) ≡ ok (some row, version)
      → material p k (some version) w
        ≡ catch
            (unwrap p row.key_nonce_b64 row.encrypted_key_material_b64
              (material_aad email name version)
              w)
            (untagged p "Key material could not be decrypted")
  unfolding material
  material-row k w owner named picked = rw (picked, owner, named) refl

  unwrap-Serves :
      (w u : World) (n m aad : Text) → Serves w → Serves u → unwrap p n m aad u ≡ unwrap p n m aad w
  unfolding unwrap
  unwrap-Serves w u n m aad (_, _, _, _, _, open_vault) (_, _, _, _, _, open_vault') =
      rw (open_vault, open_vault') refl

  material-Serves :
      (w u : World) (sw : Serves w) (su : Serves u)
      → material p su.0 (some version) u ≡ material p sw.0 (some version) w
  material-Serves w u sw su =
      let (key, here, _, ident, found, _) = sw in
      let (key', here', _, ident', found', _) = su in
      let (owner, named) = key_of_sound email name w.work.transit_keys key here in
      let (owner', named') = key_of_sound email name u.work.transit_keys key' here' in
      let picked = pick-row p email name key w u w.work key version row (rw ident found) in
      let picked' = pick-row p email name key w u u.work key' version row (rw ident' found') in
      material-row key' u owner' named' picked'
      ∙ ap (λ r. catch r (untagged p "Key material could not be decrypted"))
          (unwrap-Serves w u row.key_nonce_b64 row.encrypted_key_material_b64
            (material_aad email name version) sw su)
      ∙ sym (material-row key w owner named picked)

  -- What a ciphertext of this version decrypts to is the same in any two such worlds.
  pub decrypt_version-Serves :
      (w u : World) (blob_b64 : Text)
      → Serves w
      → Serves u
      → decrypt_version p email version name blob_b64 u
        ≡ decrypt_version p email version name blob_b64 w
  decrypt_version-Serves w u blob_b64 sw su =
      decrypt_version-Rekeyed p email name sw.0 w u version blob_b64 su.0 (find_key-Serves w sw)
        (find_key-Serves u su) (material-Serves w u sw su)

  pub Grown-Serves : (owner : Text) (w u : World) → Grown owner w u → Serves w → Serves u
  unfolding key_of require_dek
  Grown-Serves owner w u (ks, vs, keys, versions, kept, _, _, _)
        (key, here, checked, ident, found, open_vault) =
      (
        key,
        rw keys (
            find?-append-some (λ (k : TransitKey). same k.owner_email email && same k.key_name name)
              w.work.transit_keys ks key here),
        checked,
        ident,
        rw versions (
            find?-append-some
              (λ (v : TransitKeyVersion). v.transit_key_id == id && v.version == version)
              w.work.transit_versions vs row found),
        rw kept open_vault,
      )

  pub Rekeyed-Serves : (k : TransitKey) (w u : World) → Rekeyed k w u → Serves w → Serves u
  unfolding key_of require_dek
  Rekeyed-Serves k w u (n, m, vs, keys, versions, kept, _)
        (key, here, checked, ident, found, open_vault) =
      let there =
        find?-update (λ (x : TransitKey). same x.owner_email email && same x.key_name name)
          (λ x. x.id == k.id) (rekeyed n m) (λ x. refl) w.work.transit_keys key here in
      let (_, again) = check_key-rekeyed (some encrypt_decrypt) n m key key checked in
      let found' =
        find?-append-some
          (λ (v : TransitKeyVersion). v.transit_key_id == id && v.version == version)
          w.work.transit_versions vs row found in
      elim (Bool-cases (key.id == k.id)) [
        | inl hit ↦ (
          rekeyed n m key,
          rw keys (ground arith),
          again,
          ident,
          rw versions found',
          rw kept open_vault,
        )
        | inr miss ↦
            (key, rw keys (ground arith), checked, ident, rw versions found', rw kept open_vault)
      ]

  pub Retired-Serves :
      (now : Time) (k : TransitKey) (w u : World)
      → Retired now k w u
      → (serves : Serves w) → ((serves.0).id == k.id) ≡ false
      → Serves u
  unfolding key_of require_dek
  Retired-Serves now k w u (keys, versions, kept) (key, here, checked, ident, found, open_vault)
        other =
      let there =
        find?-update (λ (x : TransitKey). same x.owner_email email && same x.key_name name)
          (λ x. x.id == k.id) (retired now) (λ x. refl) w.work.transit_keys key here in
      (key, rw keys (ground arith), checked, ident, rw versions found, rw kept open_vault)
