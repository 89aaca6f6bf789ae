-- ===== src/Transit/Growth.antt =====
-- TransitService.create: what a creation of either kind may do to the tables, however it ends.
use mini_vault.Base.{
  ◌≡◌, refl, sym, ◌&&◌, Bool, true, false, Option, some, none, [], ◌∷◌, ◌++◌, Text, Bytes, text,
  arith, ◌==◌, same, any, inl, inr, ◌⊎◌, append-nil, Bool-cases,
}
use mini_vault.Errors.{Exc, ok, raise, Result-cases}
use mini_vault.Platform.{Platform}
use mini_vault.Db.{Db, World, Time, TransitKey}
use mini_vault.Utils.{validate_key_name}
use mini_vault.Vault
use mini_vault.Vault.{require_dek}
use mini_vault.Transit.{
  encrypt_decrypt, sign_verify, ed25519, check_free, first_aad, key_row, version_row, add_key,
  add_version, create_aes, create_signing,
}
use mini_vault.Transit.Calls.{Grown, Grown-same, UniqueKeys-next}

module _ (p : Platform) (secret nonce : Bytes) (now : Time) (email name : Text) (w : World) where
  -- the row that a creation adds
  abbrev new_row : Text → Text → Option Bytes → Bytes × Bytes → TransitKey
  new_row usage algorithm public sealed =
      key_row p w.work email name usage algorithm sealed public now

  abbrev aes_row : Bytes × Bytes → TransitKey
  aes_row sealed = new_row encrypt_decrypt (text "AES-256-GCM") none sealed

  abbrev signing_row : Bytes × Bytes → TransitKey
  signing_row sealed = new_row sign_verify ed25519 (some (p.ed25519_public secret)) sealed

  -- the tables after it
  abbrev with_signing : Bytes × Bytes → Db
  with_signing sealed = record w.work {
    transit_keys = w.work.transit_keys ++ signing_row sealed ∷ [];
  }

  abbrev with_aes : Bytes × Bytes → Db
  with_aes sealed = record w.work {
    transit_keys = w.work.transit_keys ++ aes_row sealed ∷ [];
    transit_versions =
        w.work.transit_versions ++ version_row p w.work (aes_row sealed).id 1 sealed ∷ [];
  }

  abbrev used : Bytes × Bytes → Bool
  used sealed =
      any (λ v. v.transit_key_id == (aes_row sealed).id && v.version == 1) w.work.transit_versions

  abbrev taken : Bool
  taken = any (λ k. same k.owner_email email && same k.key_name name) w.work.transit_keys

  module _ (named : validate_key_name name ≡ ok tt) (dek : Bytes)
      (open_vault : require_dek w ≡ ok dek) (free : check_free p email name w ≡ ok tt)
      (sealed : Bytes × Bytes)
      (wrapped : Vault.encrypt p nonce dek secret (p.encode (first_aad email name))
        ≡ ok sealed) where
    signing-clash : taken ≡ true → (create_signing p secret nonce now email name w).1 ≡ w
    unfolding create_signing add_key
    signing-clash clash = ground arith

    signing-new :
        taken ≡ false
        → (create_signing p secret nonce now email name w).1
          ≡ record w { stored = with_signing sealed; work = with_signing sealed }
    unfolding create_signing add_key
    signing-new fresh = ground arith

    aes-clash : taken ≡ true → (create_aes p secret nonce now email name w).1 ≡ w
    unfolding create_aes add_key add_version
    aes-clash clash = ground arith

    aes-version_clash :
        taken ≡ false
        → used sealed ≡ true
        → (create_aes p secret nonce now email name w).1 ≡ record w {
          work = record w.work { transit_keys = w.work.transit_keys ++ aes_row sealed ∷ [] };
        }
    unfolding create_aes add_key add_version
    aes-version_clash fresh clash = ground arith

    aes-new :
        taken ≡ false
        → used sealed ≡ false
        → (create_aes p secret nonce now email name w).1
          ≡ record w { stored = with_aes sealed; work = with_aes sealed }
    unfolding create_aes add_key add_version
    aes-new fresh unused = ground arith

    signing-Grown : Grown email w (create_signing p secret nonce now email name w).1
    signing-Grown = elim (Bool-cases taken) [
      | inl clash ↦
          Grown-same email w (create_signing p secret nonce now email name w).1
            (signing-clash clash)
      | inr fresh ↦ rw (signing-new fresh) (
        signing_row sealed ∷ [],
        [],
        refl,
        sym (append-nil w.work.transit_versions),
        refl,
        UniqueKeys-next w (signing_row sealed) refl,
        (refl, tt),
        tt,
      )
    ]

    aes-Grown : Grown email w (create_aes p secret nonce now email name w).1
    aes-Grown = elim (Bool-cases taken) [
      | inl clash ↦
          Grown-same email w (create_aes p secret nonce now email name w).1 (aes-clash clash)
      | inr fresh ↦ elim (Bool-cases (used sealed)) [
        | inl clash ↦ rw (aes-version_clash fresh clash) (
          aes_row sealed ∷ [],
          [],
          refl,
          sym (append-nil w.work.transit_versions),
          refl,
          UniqueKeys-next w (aes_row sealed) refl,
          (refl, tt),
          tt,
        )
        | inr unused ↦ rw (aes-new fresh unused) (
          aes_row sealed ∷ [],
          version_row p w.work (aes_row sealed).id 1 sealed ∷ [],
          refl,
          refl,
          refl,
          UniqueKeys-next w (aes_row sealed) refl,
          (refl, tt),
          (refl, tt),
        )
      ]
    ]

  -- why a creation is refused
  abbrev Refused : Exc → Type 0
  Refused e =
      (validate_key_name name ≡ raise e)
      ⊎ ((dek : Bytes) × (validate_key_name name ≡ ok tt)
          × ((require_dek w ≡ raise e)
              ⊎ ((require_dek w ≡ ok dek)
                  × ((check_free p email name w ≡ raise e)
                      ⊎ ((check_free p email name w ≡ ok tt)
                          × (Vault.encrypt p nonce dek secret (p.encode (first_aad email name))
                              ≡ raise e))))))

  creation-Refused :
      (e : Exc)
      → Refused e
      → ((create_aes p secret nonce now email name w).1 ≡ w)
        × ((create_signing p secret nonce now email name w).1 ≡ w)
  unfolding create_aes create_signing
  creation-Refused e (inl refused) = (ground arith, ground arith)
  creation-Refused e (inr (dek, named, inl refused)) = (ground arith, ground arith)
  creation-Refused e (inr (dek, named, inr (open_vault, inl refused))) =
      (ground arith, ground arith)
  creation-Refused e (inr (dek, named, inr (open_vault, inr (free, failed)))) =
      (ground arith, ground arith)

  -- A creation of either kind, however it ends.
  pub creation-Grown :
      Grown email w (create_aes p secret nonce now email name w).1
      × Grown email w (create_signing p secret nonce now email name w).1
  creation-Grown = elim (Result-cases (validate_key_name name)) [
    | inr (e, refused) ↦ unchanged e (inl refused)
    | inl (_, named) ↦ elim (Result-cases (require_dek w)) [
      | inr (e, shut) ↦ unchanged e (inr ([], named, inl shut))
      | inl (dek, open_vault) ↦ elim (Result-cases (check_free p email name w)) [
        | inr (e, used_name) ↦ unchanged e (inr (dek, named, inr (open_vault, inl used_name)))
        | inl (_, free) ↦
            elim (Result-cases
              (Vault.encrypt p nonce dek secret (p.encode (first_aad email name)))) [
                | inr (e, failed) ↦
                    unchanged e (inr (dek, named, inr (open_vault, inr (free, failed))))
                | inl (sealed, wrapped) ↦ (
                  aes-Grown named dek open_vault free sealed wrapped,
                  signing-Grown named dek open_vault free sealed wrapped,
                )
              ]
      ]
    ]
  ]
    where
      unchanged :
          (e : Exc)
          → Refused e
          → Grown email w (create_aes p secret nonce now email name w).1
            × Grown email w (create_signing p secret nonce now email name w).1
      unchanged e why =
          let (aes, signing) = creation-Refused e why in
          (Grown-same email w _ aes, Grown-same email w _ signing)
