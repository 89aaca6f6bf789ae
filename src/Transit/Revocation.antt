-- ===== src/Transit/Revocation.antt =====
-- TransitService.revoke: a revoked key serves no operation.
use mini_vault.Base.{
  ◌≡◌, refl, ◌&&◌, none, some, Option, Text, Bytes, arith, ◌==◌, same, find?-update,
}
use mini_vault.Errors.{ok, raise, app, Exc, key_not_found}
use mini_vault.Platform.{Platform}
use mini_vault.Db.{Time, World, TransitKey}
use mini_vault.Vault.{require_dek}
use mini_vault.Transit.{
  encrypt_decrypt, sign_verify, key_of, find_key, get, revoke, rotate, encrypt, sign,
}
use mini_vault.Transit.Rotation.{find_key_sound}

-- `AppError("KEY_NOT_FOUND", "Key not found", 404)`
abbrev pub gone : Exc
gone = app (record { code = key_not_found; message = "Key not found"; status_code = 404 })

module _ (p : Platform) (email name : Text) (w : World) where
  revoked-missing :
      (now : Time) (key : TransitKey) (usage : Option Text)
      → find_key email name none w ≡ ok key
      → find_key email name usage (revoke p now email name w).1 ≡ raise gone
  unfolding find_key revoke key_of require_dek
  revoked-missing now key usage found =
      let (d, open_vault, here, checked) = find_key_sound email name none key w found in
      let there =
        find?-update (λ k. same k.owner_email email && same k.key_name name) (λ k. k.id == key.id)
          (λ k. record k { revoked_at = some now }) (λ k. refl) w.work.transit_keys key here in
      ground (arith, there)

  get-gone : find_key email name none w ≡ raise gone → get p email name w ≡ raise gone
  unfolding get
  get-gone h = rw h refl

  encrypt-gone :
      (nonce : Bytes) (plaintext_b64 : Text)
      → find_key email name (some encrypt_decrypt) w ≡ raise gone
      → encrypt p nonce email name plaintext_b64 w ≡ raise gone
  unfolding encrypt
  encrypt-gone nonce plaintext_b64 h = rw h refl

  rotate-gone :
      (secret nonce : Bytes)
      → find_key email name (some encrypt_decrypt) w ≡ raise gone
      → rotate p secret nonce email name w ≡ (raise gone, w)
  unfolding rotate
  rotate-gone secret nonce h = ground arith

  sign-gone :
      (message_b64 message_type : Text)
      → find_key email name (some sign_verify) w ≡ raise gone
      → sign p email name message_b64 message_type w ≡ raise gone
  unfolding sign
  sign-gone message_b64 message_type h = rw h refl

-- Revoking the caller's own key succeeds and is committed; after it, getting the key, encrypting,
-- rotating and signing under its name, with any input, are all refused with KEY_NOT_FOUND.
pub revoke-gone :
    (p : Platform) (email name : Text) (now : Time) (key : TransitKey) (w : World)
    (secret nonce : Bytes) (input kind : Text)
    → find_key email name none w ≡ ok key
    → let (r, w') = revoke p now email name w in
      (r ≡ ok tt)
      × (w'.stored ≡ w'.work)
      × (get p email name w' ≡ raise gone)
      × (encrypt p nonce email name input w' ≡ raise gone)
      × (rotate p secret nonce email name w' ≡ (raise gone, w'))
      × (sign p email name input kind w' ≡ raise gone)
unfolding revoke
revoke-gone p email name now key w secret nonce input kind found =
    let u = (revoke p now email name w).1 in
    (
      ground arith,
      ground arith,
      get-gone p email name u (revoked-missing p email name w now key none found),
      encrypt-gone p email name u nonce input
          (revoked-missing p email name w now key (some encrypt_decrypt) found),
      rotate-gone p email name u secret nonce
          (revoked-missing p email name w now key (some encrypt_decrypt) found),
      sign-gone p email name u input kind
          (revoked-missing p email name w now key (some sign_verify) found),
    )
