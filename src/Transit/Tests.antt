-- ===== src/Transit/Tests.antt =====
-- The theorems on named keys at concrete inputs.
use mini_vault.Base.{List, [], ◌∷◌, ◌≡◌, refl, Text, text, true, none, same, show, arith}
use mini_vault.Errors.{ok, raise}
use mini_vault.Platform.Sample.{sample, sample-IsSound, spell, unspell, seal, unseal}
use mini_vault.Utils.{matches_key_name, b64d, b64e}
use mini_vault.Vault
use mini_vault.Vault.{require_dek}
use mini_vault.Transit.{
  find_key, key_of, current_version, material, pick_material, unwrap, encrypt, decrypt, rotate,
  revoke, list, get, sign, verify, envelope_of, Signature, ed25519, create_aes, create_signing,
  Metadata,
}
use mini_vault.Transit.Envelope.{decrypt-encrypt}
use mini_vault.Transit.Creation.{Usable, decrypt-create_aes}
use mini_vault.Transit.Signing.{Signs, verify-sign, verify-create_signing}
use mini_vault.Transit.Calls.{KeyCall, rotating, creating, revoking, run}
use mini_vault.Transit.Isolation.{run-isolated}
use mini_vault.Transit.Survival.{decrypt-run}
use mini_vault.Transit.Revocation.{gone, revoke-gone}
use mini_vault.Samples.{
  open_world, nonce, key_bytes, alice, aes_key, aes_version, transit_world, signing_key,
  signing_world,
}

decrypt-encrypt_example :
    (envelope : Text) × (encrypt sample nonce alice (text "pay") (spell (text "hi")) transit_world
      ≡ ok envelope)
    × (decrypt sample alice envelope transit_world ≡ ok (spell (text "hi")))
unfolding same matches_key_name find_key key_of require_dek unspell spell current_version show
    material pick_material unwrap b64d seal unseal Vault.decrypt
decrypt-encrypt_example =
    decrypt-encrypt sample sample-IsSound nonce alice (text "pay") (spell (text "hi")) (text "hi")
      key_bytes aes_key transit_world refl (omega arith) refl refl (omega arith) (omega arith)
      (omega arith) refl refl refl

verify-sign_example :
    (s : Signature) × (sign sample alice (text "pay") (spell (text "hi")) (text "RAW") signing_world
      ≡ ok s)
    × (verify sample alice
          (text "pay")
          (spell (text "hi"))
          (text "RAW")
          s.signature_b64
          none
          signing_world
        ≡ ok
            (record { key_name = text "pay"; signature_valid = true; signing_algorithm = ed25519 }))
unfolding same find_key key_of require_dek unspell spell material pick_material unwrap b64d b64e
    seal unseal Vault.decrypt
verify-sign_example =
    verify-sign sample sample-IsSound alice (text "pay") (spell (text "hi")) (text "RAW")
      (text "hi") key_bytes none signing_key signing_world refl refl refl refl refl refl refl

revoke-gone_example :
    let (r, w') = revoke sample 7 alice (text "pay") transit_world in
    (r ≡ ok tt)
    × (w'.stored ≡ w'.work)
    × (get sample alice (text "pay") w' ≡ raise gone)
    × (encrypt sample nonce alice (text "pay") (text "blob") w' ≡ raise gone)
    × (rotate sample key_bytes nonce alice (text "pay") w' ≡ (raise gone, w'))
    × (sign sample alice (text "pay") (text "blob") (text "RAW") w' ≡ raise gone)
unfolding same find_key key_of require_dek
revoke-gone_example =
    revoke-gone sample alice (text "pay") 7 aes_key transit_world key_bytes nonce (text "blob")
      (text "RAW") refl

decrypt-create_aes_example :
    let (r, w') = create_aes sample key_bytes nonce 5 alice (text "pay") open_world in
    ((m : Metadata) × (r ≡ ok m))
    × (w'.stored ≡ w'.work)
    × Usable sample nonce alice (text "pay") (spell (text "hi")) (text "hi") w'
unfolding same matches_key_name key_of require_dek unspell spell
decrypt-create_aes_example =
    decrypt-create_aes sample sample-IsSound alice (text "pay") key_bytes nonce nonce key_bytes 5
      (spell (text "hi")) (text "hi") open_world refl (omega arith) refl refl refl refl refl refl
      refl refl (omega arith)

verify-create_signing_example :
    let (r, u) = create_signing sample key_bytes nonce 5 alice (text "doc") transit_world in
    ((m : Metadata) × (r ≡ ok m))
    × (u.stored ≡ u.work)
    × Signs sample alice (text "doc") (spell (text "hi")) (text "RAW") u
unfolding same matches_key_name key_of require_dek unspell spell
verify-create_signing_example =
    verify-create_signing sample sample-IsSound alice (text "doc") key_bytes nonce key_bytes 5
      (spell (text "hi")) (text "RAW") (text "hi") transit_world refl (omega arith) refl refl refl
      refl refl refl refl

abbrev calls : List KeyCall
calls =
    rotating key_bytes nonce alice (text "pay")
    ∷ creating key_bytes nonce 6 (text "b@x.io") (text "pay")
    ∷ revoking 7 (text "b@x.io") (text "pay")
    ∷ []

decrypt-run_example :
    decrypt sample alice (envelope_of 1 (text "pay") (text "blob")) (run sample calls transit_world)
    ≡ decrypt sample alice (envelope_of 1 (text "pay") (text "blob")) transit_world
unfolding same matches_key_name find_key key_of require_dek show
decrypt-run_example =
    decrypt-run sample sample-IsSound alice (text "pay") aes_key 1 aes_version (text "blob") calls
      transit_world refl (omega arith) (tt, tt) refl refl (tt, (tt, (refl, tt)))

-- What Bob does while Alice has a key.
abbrev calls_of_bob : List KeyCall
calls_of_bob =
    creating key_bytes nonce 6 (text "b@x.io") (text "pay")
    ∷ rotating key_bytes nonce (text "b@x.io") (text "pay")
    ∷ revoking 7 (text "b@x.io") (text "pay")
    ∷ revoking 8 (text "b@x.io") (text "pay")
    ∷ []

run-isolated_example :
    let u = run sample calls_of_bob transit_world in
    (list sample alice u ≡ list sample alice transit_world)
    × (get sample alice (text "pay") u ≡ get sample alice (text "pay") transit_world)
    × (encrypt sample nonce alice (text "pay") (spell (text "hi")) u
        ≡ encrypt sample nonce alice (text "pay") (spell (text "hi")) transit_world)
    × (decrypt sample alice (spell (text "hi")) u
        ≡ decrypt sample alice (spell (text "hi")) transit_world)
    × (sign sample alice (text "pay") (spell (text "hi")) (text "RAW") u
        ≡ sign sample alice (text "pay") (spell (text "hi")) (text "RAW") transit_world)
    × (verify sample alice (text "pay") (spell (text "hi")) (text "RAW") (text "s") none u
        ≡ verify sample alice
            (text "pay")
            (spell (text "hi"))
            (text "RAW")
            (text "s")
            none
            transit_world)
unfolding same
run-isolated_example =
    run-isolated sample alice calls_of_bob transit_world (refl, (refl, (refl, (refl, tt)))) (tt, tt)
      (text "pay") (spell (text "hi")) (text "RAW") (text "s") nonce none
