-- ===== src/Transit/Isolation.antt =====
-- Users do not see what other users do with named keys.
use mini_vault.Base.{◌≡◌, refl, ◌∙◌, false, Option, List, [], ◌∷◌, Text, Bytes, same, All, inl, inr}
use mini_vault.Platform.{Platform}
use mini_vault.Db.{World}
use mini_vault.Transit.{
  list, get, encrypt, decrypt, sign, verify, create_aes, create_signing, rotate, revoke,
}
use mini_vault.Transit.Calls.{
  KeyCall, creating, creating_signing, rotating, revoking, perform, run, UniqueKeys,
}
use mini_vault.Transit.Growth.{creation-Grown}
use mini_vault.Transit.Effects.{Rekeyed-UniqueKeys, Retired-UniqueKeys, rotate_cases, revoke_cases}
use mini_vault.Transit.Owners.{
  IsAlike, IsAlike-same, Grown-IsAlike, Rekeyed-IsAlike, Retired-IsAlike,
}
use mini_vault.Transit.Views.{
  list-IsAlike, get-IsAlike, encrypt-IsAlike, decrypt-IsAlike, sign-IsAlike, verify-IsAlike,
}

abbrev pub caller : KeyCall → Text
caller (creating secret nonce now email name) = email
caller (creating_signing seed nonce now email name) = email
caller (rotating secret nonce email name) = email
caller (revoking now email name) = email

-- A call of another user.
abbrev pub IsOther : Text → KeyCall → Type 0
IsOther email c = same (caller c) email ≡ false

module _ (p : Platform) (email : Text) where
  perform-IsAlike :
      (c : KeyCall) (w : World)
      → IsOther email c
      → UniqueKeys w
      → IsAlike email w (perform p c w) × UniqueKeys (perform p c w)
  perform-IsAlike (creating secret nonce now other name) w apart unique =
      let u = (create_aes p secret nonce now other name w).1 in
      let (grown, _) = creation-Grown p secret nonce now other name w in
      (Grown-IsAlike email other apart w u grown, grown.5 unique)
  perform-IsAlike (creating_signing seed nonce now other name) w apart unique =
      let u = (create_signing p seed nonce now other name w).1 in
      let (_, grown) = creation-Grown p seed nonce now other name w in
      (Grown-IsAlike email other apart w u grown, grown.5 unique)
  perform-IsAlike (rotating secret nonce other name) w apart unique =
      let u = (rotate p secret nonce other name w).1 in
      elim (rotate_cases p other name w secret nonce) [
        | inl still ↦ (IsAlike-same email other apart w u still, rw still unique)
        | inr (k, there, rekeyed_k) ↦ (
          Rekeyed-IsAlike email other apart w u name k unique there rekeyed_k,
          Rekeyed-UniqueKeys k w u rekeyed_k unique,
        )
      ]
  perform-IsAlike (revoking now other name) w apart unique =
      let u = (revoke p now other name w).1 in
      elim (revoke_cases p now other name w) [
        | inl still ↦ (IsAlike-same email other apart w u still, rw still unique)
        | inr (k, there, retired_k) ↦ (
          Retired-IsAlike email other apart w u name k unique there now retired_k,
          Retired-UniqueKeys now k w u retired_k unique,
        )
      ]

  -- A function of the world that is the same in any two that are alike.
  abbrev Blind : {A : Type 0} → (World → A) → Type 0
  Blind f = (w u : World) → IsAlike email w u → f u ≡ f w

  run-Blind :
      {A : Type 0} (f : World → A)
      → Blind f
      → (cs : List KeyCall) (w : World) → All (IsOther email) cs
      → UniqueKeys w
      → f (run p cs w) ≡ f w
  run-Blind f blind [] w others unique = refl
  run-Blind f blind (c ∷ cs) w others unique =
      let (alike, unique') = perform-IsAlike c w others.0 unique in
      run-Blind f blind cs (perform p c w) others.1 unique' ∙ blind w (perform p c w) alike

-- No two keys having one id: after any run of calls that create, rotate and revoke keys, of other
-- users, however each ends, a user's requests to list, get, encrypt, decrypt, sign and verify, with
-- any input, are answered as before, errors included.
pub run-isolated :
    (p : Platform) (email : Text) (cs : List KeyCall) (w : World)
    → All (IsOther email) cs
    → UniqueKeys w
    → (name input message_type signature_b64 : Text) (nonce : Bytes) (algorithm : Option Text)
    → let u = run p cs w in
      (list p email u ≡ list p email w)
      × (get p email name u ≡ get p email name w)
      × (encrypt p nonce email name input u ≡ encrypt p nonce email name input w)
      × (decrypt p email input u ≡ decrypt p email input w)
      × (sign p email name input message_type u ≡ sign p email name input message_type w)
      × (verify p email name input message_type signature_b64 algorithm u
          ≡ verify p email name input message_type signature_b64 algorithm w)
run-isolated p email cs w others unique name input message_type signature_b64 nonce algorithm = (
  run-Blind p email (list p email) (list-IsAlike p email) cs w others unique,
  run-Blind p email (get p email name) (λ x y alike. get-IsAlike p email x y alike name) cs w others
      unique,
  run-Blind p email (encrypt p nonce email name input)
      (λ x y alike. encrypt-IsAlike p email x y alike nonce name input) cs w others unique,
  run-Blind p email (decrypt p email input) (λ x y alike. decrypt-IsAlike p email x y alike input)
      cs w others unique,
  run-Blind p email (sign p email name input message_type)
      (λ x y alike. sign-IsAlike p email x y alike name input message_type) cs w others unique,
  run-Blind p email (verify p email name input message_type signature_b64 algorithm)
      (λ x y alike.
        verify-IsAlike p email x y alike name input message_type signature_b64 algorithm)
      cs w others unique,
)
