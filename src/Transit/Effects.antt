-- ===== src/Transit/Effects.antt =====
-- TransitService.rotate and TransitService.revoke: what they may do to the tables.
use mini_vault.Base.{
  ◌≡◌, refl, some, none, Text, Bytes, arith, ◌==◌, update, inl, inr, ◌⊎◌, UniqueBy-update,
}
use mini_vault.Errors.{Exc, ok, raise, Result-cases}
use mini_vault.Platform.{Platform}
use mini_vault.Db.{World, Time, TransitKey}
use mini_vault.Transit.{encrypt_decrypt, key_of, find_key, material, rotate, revoke}
use mini_vault.Transit.Rotation.{rekeyed, Rekeyed, find_key_sound, rotate-Rekeyed}
use mini_vault.Transit.Calls.{UniqueKeys}

-- A key that is no longer in use.
abbrev pub retired : Time → TransitKey → TransitKey
retired now k = record k { revoked_at = some now }

-- What a revocation does to the tables.
abbrev pub Retired : Time → TransitKey → World → World → Type 0
Retired now k w u =
    (u.work.transit_keys ≡ update (λ x. x.id == k.id) (retired now) w.work.transit_keys)
    × (u.work.transit_versions ≡ w.work.transit_versions)
    × (u.dek ≡ w.dek)

pub Rekeyed-UniqueKeys :
    (k : TransitKey) (w u : World) → Rekeyed k w u → UniqueKeys w → UniqueKeys u
Rekeyed-UniqueKeys k w u (n, m, _, keys, _, _, _) unique = rw keys (
    UniqueBy-update (λ (x : TransitKey). x.id) (λ x. x.id == k.id) (rekeyed n m) (λ x. refl)
      w.work.transit_keys unique)

pub Retired-UniqueKeys :
    (now : Time) (k : TransitKey) (w u : World) → Retired now k w u → UniqueKeys w → UniqueKeys u
Retired-UniqueKeys now k w u (keys, _, _) unique = rw keys (
    UniqueBy-update (λ (x : TransitKey). x.id) (λ x. x.id == k.id) (retired now) (λ x. refl)
      w.work.transit_keys unique)

module _ (p : Platform) (email name : Text) (w : World) where
  rotate-refused :
      (material nonce : Bytes) (e : Exc)
      → find_key email name (some encrypt_decrypt) w ≡ raise e
      → (rotate p material nonce email name w).1 ≡ w
  unfolding rotate
  rotate-refused material nonce e refused = ground arith

  pub rotate_cases :
      (material nonce : Bytes)
      → ((rotate p material nonce email name w).1 ≡ w)
        ⊎ ((k : TransitKey) × (key_of email name w.work.transit_keys ≡ some k)
            × Rekeyed k w (rotate p material nonce email name w).1)
  rotate_cases material nonce = elim (Result-cases (find_key email name (some encrypt_decrypt) w)) [
    | inr (e, refused) ↦ inl (rotate-refused material nonce e refused)
    | inl (k, found) ↦
        elim (rotate-Rekeyed p email name k w (rotate p material nonce email name w).1 material
          nonce found) [
            | inl still ↦ inl still
            | inr rekeyed_k ↦
                let (_, _, there, _) = find_key_sound email name (some encrypt_decrypt) k w found in
                inr (k, there, rekeyed_k)
          ]
  ]

module _ (p : Platform) (now : Time) (email name : Text) (w : World) where
  revoke-refused :
      (e : Exc) → find_key email name none w ≡ raise e → (revoke p now email name w).1 ≡ w
  unfolding revoke
  revoke-refused e refused = ground arith

  revoke-Retired :
      (k : TransitKey)
      → find_key email name none w ≡ ok k
      → Retired now k w (revoke p now email name w).1
  unfolding revoke
  revoke-Retired k found = (ground arith, ground arith, ground arith)

  pub revoke_cases :
      ((revoke p now email name w).1 ≡ w)
      ⊎ ((k : TransitKey) × (key_of email name w.work.transit_keys ≡ some k)
          × Retired now k w (revoke p now email name w).1)
  revoke_cases = elim (Result-cases (find_key email name none w)) [
    | inr (e, refused) ↦ inl (revoke-refused e refused)
    | inl (k, found) ↦
        let (_, _, there, _) = find_key_sound email name none k w found in
        inr (k, there, revoke-Retired k found)
  ]
