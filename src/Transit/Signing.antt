-- ===== src/Transit/Signing.antt =====
-- TransitService.sign and TransitService.verify: what is signed is verified.
use mini_vault.Base.{
  ◌≡◌, true, false, none, some, Option, Text, Bytes, length, arith, ◌++◌, ◌∷◌, [], same, ◌&&◌,
  find?-none-any, find?-append-none, same_refl, refl, ◌≤◌,
}
use mini_vault.Errors.{ok}
use mini_vault.Platform.{Platform, IsSound}
use mini_vault.Utils.{b64e, b64d, validate_key_name, matches_key_name}
use mini_vault.Transit.Envelope.{matches_key_name_sound}
use mini_vault.Transit.Creation.{first_aad-length}
use mini_vault.Vault
use mini_vault.Vault.{require_dek}
use mini_vault.Db.{World, Db, Time, TransitKey}
use mini_vault.Transit.{
  Metadata, Signature, sign_verify, ed25519, find_key, material, check_digest, other_algorithm,
  check_signature, sign, verify, key_of, key_row, first_aad, metadata, create_signing, add_key,
  pick_material, unwrap,
}

-- In an open vault, with the caller's own signing key, whose material unwraps to a 32-byte
-- private key and whose public key is the one that belongs to it, for a Base64 message that is
-- 32 bytes long where it is a digest: `sign` succeeds, and `verify` accepts its signature, with
-- no algorithm named, an empty one, or the key's.
pub verify-sign :
    (p : Platform)
    → IsSound p
    → (email name message_b64 message_type : Text) (message seed : Bytes) (algorithm : Option Text)
      (key : TransitKey) (w : World)
    → find_key email name (some sign_verify) w ≡ ok key
    → p.b64decode message_b64 ≡ some message
    → check_digest p message_type message ≡ ok tt
    → material p key none w ≡ ok seed
    → length seed ≡ 32
    → key.public_key_b64 ≡ some (b64e p (p.ed25519_public seed))
    → other_algorithm p algorithm key ≡ false
    → (s : Signature) × (sign p email name message_b64 message_type w ≡ ok s)
      × (verify p email name message_b64 message_type s.signature_b64 algorithm w
          ≡ ok (record { key_name = name; signature_valid = true; signing_algorithm = ed25519 }))
unfolding sign verify check_signature b64e b64d
verify-sign p sound email name message_b64 message_type message seed algorithm key w found decoded
      digest unwrapped len public named =
    let (s, es, ev) = sound.ed25519-round seed message len in
    (
      record { key_name = name; signature_b64 = p.b64encode s; signing_algorithm = ed25519 },
      ground arith,
      ground (arith, sound.b64-round s, sound.b64-round (p.ed25519_public seed)),
    )

module _ (p : Platform) (email name : Text) (seed nonce : Bytes) (now : Time) (c : Bytes)
    (w : World) where
  -- The row that a creation adds, and the world after it.
  abbrev pub signing_key : TransitKey
  signing_key =
      key_row p w.work email name sign_verify ed25519 (nonce, c) (some (p.ed25519_public seed)) now

  abbrev pub signing_world : World
  signing_world =
      let db : Db = record w.work { transit_keys = w.work.transit_keys ++ signing_key ∷ [] } in
      record w { stored = db; work = db }

  create_signing-new :
      (dek : Bytes)
      → validate_key_name name ≡ ok tt
      → require_dek w ≡ ok dek
      → key_of email name w.work.transit_keys ≡ none
      → Vault.encrypt p nonce dek seed (p.encode (first_aad email name)) ≡ ok (nonce, c)
      → create_signing p seed nonce now email name w
        ≡ (ok (metadata p signing_key 1), signing_world)
  unfolding create_signing add_key key_of
  create_signing-new dek named open_vault free wrapped =
      let no_key =
        find?-none-any (λ (k : TransitKey). same k.owner_email email && same k.key_name name)
          w.work.transit_keys free in
      ground (arith, no_key)

  material-signing :
      (dek : Bytes)
      → IsSound p
      → require_dek w ≡ ok dek
      → p.aes_decrypt dek nonce c (p.encode (first_aad email name)) ≡ ok seed
      → material p signing_key none signing_world ≡ ok seed
  unfolding material pick_material unwrap b64e b64d Vault.decrypt require_dek same
  material-signing dek sound open_vault opened =
      ground (arith, sound.b64-round nonce, sound.b64-round c)

  find_key-signing :
      (dek : Bytes)
      → require_dek w ≡ ok dek
      → key_of email name w.work.transit_keys ≡ none
      → find_key email name (some sign_verify) signing_world ≡ ok signing_key
  unfolding find_key key_of require_dek
  find_key-signing dek open_vault free =
      let last =
        find?-append-none (λ (k : TransitKey). same k.owner_email email && same k.key_name name)
          w.work.transit_keys (signing_key ∷ []) free in
      ground (arith, last, same_refl email, same_refl name, same_refl sign_verify)

-- The message is signed, and its signature is accepted.
abbrev pub Signs : Platform → Text → Text → Text → Text → World → Type 0
Signs p email name message_b64 message_type u =
    (s : Signature) × (sign p email name message_b64 message_type u ≡ ok s)
    × (verify p email name message_b64 message_type s.signature_b64 none u
        ≡ ok (record { key_name = name; signature_valid = true; signing_algorithm = ed25519 }))

-- The new key signs, with the world that its creation leaves.
pub create_signing-Signs :
    (p : Platform)
    → IsSound p
    → (email name : Text) (seed nonce dek : Bytes) (now : Time) (message_b64 message_type : Text)
      (message : Bytes) (w : World)
    → matches_key_name name ≡ true
    → length email ≤ 320
    → require_dek w ≡ ok dek
    → key_of email name w.work.transit_keys ≡ none
    → length seed ≡ 32
    → length dek ≡ 32
    → length nonce ≡ 12
    → p.b64decode message_b64 ≡ some message
    → check_digest p message_type message ≡ ok tt
    → let (r, u) = create_signing p seed nonce now email name w in
      (c : Bytes) × (r ≡ ok (metadata p (signing_key p email name seed nonce now c w) 1))
      × (u ≡ signing_world p email name seed nonce now c w)
      × Signs p email name message_b64 message_type u
unfolding validate_key_name Vault.encrypt
create_signing-Signs p sound email name seed nonce dek now message_b64 message_type message w named
      he open_vault free hs hd hn decoded digest =
    let (_, _, short) = matches_key_name_sound name named in
    let aad = first_aad email name in
    let (c, ec, dc, lc) =
      sound.aes-round dek nonce seed (p.encode aad) hd hn (omega arith)
        (omega (arith, sound.encode-length aad, first_aad-length email name he short)) in
    let done =
      create_signing-new p email name seed nonce now c w dek (ground arith) open_vault free
        (rw (Vault.encrypt, ec) refl) in
    rw done (
      c,
      refl,
      refl,
      verify-sign p sound email name message_b64 message_type message seed none
          (signing_key p email name seed nonce now c w)
          (signing_world p email name seed nonce now c w)
          (find_key-signing p email name seed nonce now c w dek open_vault free) decoded digest
          (material-signing p email name seed nonce now c w dek sound open_vault dc) hs refl refl,
    )

-- In an open vault with a 32-byte key, for a valid name that the caller has no key under, an e-mail
-- of at most 320 characters, a 32-byte private key and a 12-byte nonce: `create_signing` succeeds
-- and is committed, and any Base64 message, 32 bytes long where it is a digest, that is signed
-- under the new name has a signature that `verify` accepts.
pub verify-create_signing :
    (p : Platform)
    → IsSound p
    → (email name : Text) (seed nonce dek : Bytes) (now : Time) (message_b64 message_type : Text)
      (message : Bytes) (w : World)
    → matches_key_name name ≡ true
    → length email ≤ 320
    → require_dek w ≡ ok dek
    → key_of email name w.work.transit_keys ≡ none
    → length seed ≡ 32
    → length dek ≡ 32
    → length nonce ≡ 12
    → p.b64decode message_b64 ≡ some message
    → check_digest p message_type message ≡ ok tt
    → let (r, u) = create_signing p seed nonce now email name w in
      ((a : Metadata) × (r ≡ ok a))
      × (u.stored ≡ u.work)
      × Signs p email name message_b64 message_type u
verify-create_signing p sound email name seed nonce dek now message_b64 message_type message w named
      he open_vault free hs hd hn decoded digest =
    let (c, made, left, signs) =
      create_signing-Signs p sound email name seed nonce dek now message_b64 message_type message w
        named he open_vault free hs hd hn decoded digest in
    ((_, made), rw left refl, signs)
