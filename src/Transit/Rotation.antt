-- ===== src/Transit/Rotation.antt =====
-- TransitService.rotate: what it leaves of the tables, however it ends, and of the other versions.
use mini_vault.Base.{
  ℕ, ◌+◌, ◌≡◌, refl, sym, Bool, true, false, ◌&&◌, some, Option, List, [], ◌∷◌, ◌++◌, Text, Bytes,
  arith, ◌==◌, same, find?, update, inl, inr, ◌⊎◌, any, find?-update, find?-append-some, Bool-cases,
  append-nil, subst, ap, All, Option-cases,
}
use mini_vault.Errors.{Exc, ok, raise, Result-cases}
use mini_vault.Platform.{Platform}
use mini_vault.Utils.{b64e}
use mini_vault.Db.{Db, World, TransitKey, TransitKeyVersion}
use mini_vault.Vault
use mini_vault.Vault.{require_dek}
use mini_vault.Transit.{
  encrypt_decrypt, key_of, check_key, find_key, add_version, later_aad, version_row, version_or_one,
  material_aad, current_metadata, current_version, pick_material, unwrap, material, rotate,
  decrypt_version,
}

-- The key with the material of a rotation.
abbrev pub rekeyed : Text → Text → TransitKey → TransitKey
rekeyed n m k = record k { encrypted_key_material_b64 = m; key_nonce_b64 = n }

-- What a rotation may do to the tables: the rows of the key get other material, and version rows
-- of the key may be added; the key in memory stays.
abbrev pub Rekeyed : TransitKey → World → World → Type 0
Rekeyed key w u =
    (n : Text) × (m : Text) × (added : List TransitKeyVersion) × (u.work.transit_keys
      ≡ update (λ k. k.id == key.id) (rekeyed n m) w.work.transit_keys)
    × (u.work.transit_versions ≡ w.work.transit_versions ++ added)
    × (u.dek ≡ w.dek)
    × All (λ (v : TransitKeyVersion). v.transit_key_id ≡ key.id) added

pub check_key-rekeyed :
    (usage : Option Text) (n m : Text) (k key : TransitKey)
    → check_key usage (some k) ≡ ok key
    → (k ≡ key) × (check_key usage (some (rekeyed n m k)) ≡ ok (rekeyed n m k))
check_key-rekeyed usage n m k key h = (ground arith, ground arith)

-- The row that `_find` answers is the one that the query gave.
pub find_key_sound :
    (email name : Text) (usage : Option Text) (key : TransitKey) (w : World)
    → find_key email name usage w ≡ ok key
    → (d : Bytes) × (require_dek w ≡ ok d)
      × (key_of email name w.work.transit_keys ≡ some key)
      × (check_key usage (some key) ≡ ok key)
unfolding find_key
find_key_sound email name usage key w found = elim (Result-cases (require_dek w)) [
  | inr (e, shut) ↦ absurd (ground arith)
  | inl (d, open_vault) ↦ elim (Option-cases (key_of email name w.work.transit_keys)) [
    | inl missing ↦ absurd (ground arith)
    | inr (k, here) ↦
        let checked : check_key usage (some k) ≡ ok key = ground arith in
        let (same_key, _) = check_key-rekeyed usage [] [] k key checked in
        (
          d,
          open_vault,
          subst (λ x. key_of email name w.work.transit_keys ≡ some x) same_key here,
          subst (λ x. check_key usage (some x) ≡ ok key) same_key checked,
        )
  ]
]

module _ (p : Platform) (email name : Text) (key : TransitKey) (w u : World) where
  pub find_key-Rekeyed :
      (usage : Option Text) (n m : Text)
      → u.work.transit_keys ≡ update (λ k. k.id == key.id) (rekeyed n m) w.work.transit_keys
      → u.dek ≡ w.dek
      → find_key email name usage w ≡ ok key
      → find_key email name usage u ≡ ok (rekeyed n m key)
  unfolding find_key key_of require_dek
  find_key-Rekeyed usage n m keys dek found =
      let (d, open_vault, here, checked) = find_key_sound email name usage key w found in
      let there =
        find?-update (λ k. same k.owner_email email && same k.key_name name) (λ k. k.id == key.id)
          (rekeyed n m) (λ k. refl) w.work.transit_keys key here in
      let (_, again) = check_key-rekeyed usage n m key key checked in
      rw (keys, dek, there) (ground (arith, again))

  pub pick-row :
      (db : Db) (k : TransitKey) (version : ℕ) (row : TransitKeyVersion)
      → find? (λ v. v.transit_key_id == k.id && v.version == version) db.transit_versions ≡ some row
      → pick_material p db k (some version) ≡ ok (some row, version)
  unfolding pick_material
  pick-row db k version row here = rw (pick_material, here) refl

  unwrap-dek : (n m aad : Text) → u.dek ≡ w.dek → unwrap p n m aad u ≡ unwrap p n m aad w
  unfolding unwrap require_dek
  unwrap-dek n m aad dek = rw dek refl

  pub material-Rekeyed :
      (version : ℕ) (row : TransitKeyVersion) (n m : Text) (added : List TransitKeyVersion)
      → u.work.transit_versions ≡ w.work.transit_versions ++ added
      → u.dek ≡ w.dek
      → find? (λ v. v.transit_key_id == key.id && v.version == version) w.work.transit_versions
        ≡ some row
      → material p (rekeyed n m key) (some version) u ≡ material p key (some version) w
  unfolding material
  material-Rekeyed version row n m added versions dek here =
      let there : find? (λ v. v.transit_key_id == key.id && v.version == version)
            u.work.transit_versions
          ≡ some row =
        rw versions (
          find?-append-some (λ v. v.transit_key_id == key.id && v.version == version)
            w.work.transit_versions added row here) in
      let picked = pick-row w.work key version row here in
      let picked' = pick-row u.work (rekeyed n m key) version row there in
      rw (picked, picked')
        (rw
          (unwrap-dek row.key_nonce_b64 row.encrypted_key_material_b64
            (material_aad key.owner_email key.key_name version) dek)
          refl)

  pub decrypt_version-Rekeyed :
      (version : ℕ) (blob_b64 : Text) (key' : TransitKey)
      → find_key email name (some encrypt_decrypt) w ≡ ok key
      → find_key email name (some encrypt_decrypt) u ≡ ok key'
      → material p key' (some version) u ≡ material p key (some version) w
      → decrypt_version p email version name blob_b64 u
        ≡ decrypt_version p email version name blob_b64 w
  unfolding decrypt_version
  decrypt_version-Rekeyed version blob_b64 key' found found' equal = ground arith

  -- the version and the row that a rotation adds
  abbrev pub next_version : ℕ
  next_version = version_or_one (current_version w.work key) + 1

  abbrev pub next_row : Bytes × Bytes → TransitKeyVersion
  next_row sealed = version_row p w.work key.id next_version sealed

  abbrev pub taken : Bool
  taken = any (λ v. v.transit_key_id == key.id && v.version == next_version) w.work.transit_versions

  -- the tables after a rotation
  abbrev pub after : Bytes × Bytes → Db
  after sealed = record w.work {
    transit_keys =
        update (λ k. k.id == key.id)
          (λ k. record k {
            encrypted_key_material_b64 = b64e p sealed.1;
            key_nonce_b64 = b64e p sealed.0;
          })
          w.work.transit_keys;
    transit_versions = w.work.transit_versions ++ next_row sealed ∷ [];
  }

  module _ (secret nonce dek : Bytes) (sealed : Bytes × Bytes)
      (found : find_key email name (some encrypt_decrypt) w ≡ ok key)
      (open_vault : require_dek w ≡ ok dek)
      (wrapped : Vault.encrypt p nonce dek secret (p.encode (later_aad email name next_version))
        ≡ ok sealed) where
    rotate-free :
        taken ≡ false
        → rotate p secret nonce email name w ≡ (
          ok (current_metadata p (after sealed) key),
          record w { stored = after sealed; work = after sealed },
        )
    unfolding rotate add_version
    rotate-free free = ground arith

    rotate-taken :
        taken ≡ true
        → (rotate p secret nonce email name w).1
          ≡ record w { work = record w.work { transit_keys = (after sealed).transit_keys } }
    unfolding rotate add_version
    rotate-taken clash = ground arith

  rotate-unsealed :
      (secret nonce dek : Bytes) (e : Exc)
      → find_key email name (some encrypt_decrypt) w ≡ ok key
      → require_dek w ≡ ok dek
      → Vault.encrypt p nonce dek secret (p.encode (later_aad email name next_version)) ≡ raise e
      → rotate p secret nonce email name w ≡ (raise e, w)
  unfolding rotate
  rotate-unsealed secret nonce dek e found open_vault failed = ground arith

  -- However a rotation of this key ends, it leaves the tables as they were, or rekeyed.
  pub rotate-Rekeyed :
      (secret nonce : Bytes)
      → find_key email name (some encrypt_decrypt) w ≡ ok key
      → ((rotate p secret nonce email name w).1 ≡ w)
        ⊎ Rekeyed key w (rotate p secret nonce email name w).1
  rotate-Rekeyed secret nonce found =
      let (dek, open_vault, _, _) = find_key_sound email name (some encrypt_decrypt) key w found in
      elim (Result-cases
        (Vault.encrypt p nonce dek secret (p.encode (later_aad email name next_version)))) [
          | inr (e, failed) ↦
              inl (ap (λ r. r.1) (rotate-unsealed secret nonce dek e found open_vault failed))
          | inl (sealed, wrapped) ↦ inr (elim (Bool-cases taken) [
            | inl clash ↦ rw (rotate-taken secret nonce dek sealed found open_vault wrapped clash) (
              b64e p sealed.0,
              b64e p sealed.1,
              [],
              refl,
              sym (append-nil w.work.transit_versions),
              refl,
              tt,
            )
            | inr free ↦ rw (rotate-free secret nonce dek sealed found open_vault wrapped free) (
              b64e p sealed.0,
              b64e p sealed.1,
              next_row sealed ∷ [],
              refl,
              refl,
              refl,
              (refl, tt),
            )
          ])
        ]
