-- ===== src/Transit/Creation.antt =====
-- TransitService.create_aes: a new key is there, and its material unwraps.
use mini_vault.Base.{
  ℕ, ◌≡◌, ◌≤◌, refl, true, false, ◌&&◌, none, some, List, [], ◌∷◌, ◌++◌, Text, Bytes, arith, text,
  ◌==◌, same, same_refl, show, find?, any, length, length-append, find?-append-none, find?-none-any,
  keep-append,
}
use mini_vault.Errors.{ok}
use mini_vault.Platform.{Platform, IsSound}
use mini_vault.Db.{Db, next_id, World, Time, TransitKey, TransitKeyVersion}
use mini_vault.Utils.{matches_key_name, validate_key_name, b64e, b64d}
use mini_vault.Vault
use mini_vault.Vault.{require_dek}
use mini_vault.Transit.{
  encrypt_decrypt, key_of, find_key, versions_of, current_version, first_aad, key_row, version_row,
  metadata, create_aes, pick_material, unwrap, material, add_key, add_version, Metadata, encrypt,
  decrypt, max_plaintext,
}
use mini_vault.Transit.Envelope.{matches_key_name_sound, decrypt-encrypt}

-- The rows that a creation adds, and the tables after it.
abbrev pub new_key : Platform → Db → Text → Text → Bytes × Bytes → Time → TransitKey
new_key p db email name sealed now =
    key_row p db email name encrypt_decrypt (text "AES-256-GCM") sealed none now

abbrev pub created : Platform → Db → Text → Text → Bytes × Bytes → Time → Db
created p db email name sealed now = record db {
  transit_keys = db.transit_keys ++ new_key p db email name sealed now ∷ [];
  transit_versions =
      db.transit_versions ++ version_row p db (new_key p db email name sealed now).id 1 sealed ∷ [];
}

unused_version :
    (id : ℕ) (rows : List TransitKeyVersion)
    → versions_of id rows ≡ []
    → any (λ v. v.transit_key_id == id && v.version == 1) rows ≡ false
unused_version id [] h = refl
unused_version id (r ∷ rows) h = ground (arith, unused_version id rows)

missing_version :
    (id n : ℕ) (rows : List TransitKeyVersion)
    → versions_of id rows ≡ []
    → find? (λ v. v.transit_key_id == id && v.version == n) rows ≡ none
missing_version id n [] h = refl
missing_version id n (r ∷ rows) h = ground (arith, missing_version id n rows)

module _ (p : Platform) (email name : Text) (secret nonce dek : Bytes) (now : Time) (c : Bytes)
    (w : World) where
  pub create_aes-new :
      validate_key_name name ≡ ok tt
      → require_dek w ≡ ok dek
      → key_of email name w.work.transit_keys ≡ none
      → versions_of (new_key p w.work email name (nonce, c) now).id w.work.transit_versions ≡ []
      → Vault.encrypt p nonce dek secret (p.encode (first_aad email name)) ≡ ok (nonce, c)
      → create_aes p secret nonce now email name w ≡ (
        ok (metadata p (new_key p w.work email name (nonce, c) now) 1),
        record w {
          stored = created p w.work email name (nonce, c) now;
          work = created p w.work email name (nonce, c) now;
        },
      )
  unfolding create_aes add_key add_version key_of
  create_aes-new named open_vault free unused wrapped =
      let no_key =
        find?-none-any (λ (k : TransitKey). same k.owner_email email && same k.key_name name)
          w.work.transit_keys free in
      let no_row = unused_version _ w.work.transit_versions unused in ground (arith, no_key, no_row)

  abbrev pub new_world : World
  new_world = record w {
    stored = created p w.work email name (nonce, c) now;
    work = created p w.work email name (nonce, c) now;
  }

  abbrev pub key_made : TransitKey
  key_made = new_key p w.work email name (nonce, c) now

  abbrev pub row_made : TransitKeyVersion
  row_made = version_row p w.work (key_made).id 1 (nonce, c)

  find_key-created :
      require_dek w ≡ ok dek
      → key_of email name w.work.transit_keys ≡ none
      → find_key email name (some encrypt_decrypt) new_world ≡ ok key_made
  unfolding find_key key_of require_dek
  find_key-created open_vault free =
      let last =
        find?-append-none (λ (k : TransitKey). same k.owner_email email && same k.key_name name)
          w.work.transit_keys (key_made ∷ []) free in
      ground (arith, last, same_refl email, same_refl name, same_refl encrypt_decrypt)

  current_version-created :
      versions_of (key_made).id w.work.transit_versions ≡ []
      → current_version (new_world).work key_made ≡ some row_made
  unfolding current_version
  current_version-created unused =
      let rows =
        keep-append (λ (v : TransitKeyVersion). v.transit_key_id == (key_made).id)
          w.work.transit_versions (row_made ∷ []) in
      ground (arith, rows)

  material-created :
      IsSound p
      → require_dek w ≡ ok dek
      → versions_of (key_made).id w.work.transit_versions ≡ []
      → p.aes_decrypt dek nonce c (p.encode (first_aad email name)) ≡ ok secret
      → material p key_made (some 1) new_world ≡ ok secret
  unfolding material pick_material unwrap b64e b64d Vault.decrypt require_dek
  material-created sound open_vault unused opened =
      let last =
        find?-append-none
          (λ (v : TransitKeyVersion). v.transit_key_id == (key_made).id && v.version == 1)
          w.work.transit_versions (row_made ∷ [])
          (missing_version (key_made).id 1 w.work.transit_versions unused) in
      ground (arith, last, sound.b64-round nonce, sound.b64-round c)

pub first_aad-length :
    (email name : Text)
    → length email ≤ 320
    → length name ≤ 64
    → length (first_aad email name) ≤ 500
unfolding first_aad
first_aad-length email name he hn = omega (arith, length-append email (b':' ∷ name), he, hn)

-- The plaintext encrypts to some envelope, which decrypts to the plaintext.
abbrev pub Usable : Platform → Bytes → Text → Text → Text → Bytes → World → Type 0
Usable p nonce email name plaintext_b64 raw u =
    (envelope : Text) × (encrypt p nonce email name plaintext_b64 u ≡ ok envelope)
    × (decrypt p email envelope u ≡ ok (p.b64encode raw))

-- In an open vault with a 32-byte key, for a valid name that the caller has no key under, an
-- e-mail of at most 320 characters, a new key id that no version row names, 32 bytes of material
-- and 12-byte nonces: `create_aes` succeeds and is committed, and any Base64 plaintext of at most
-- 1 MiB that is encrypted under the new name decrypts to itself.
pub decrypt-create_aes :
    (p : Platform)
    → IsSound p
    → (email name : Text) (secret nonce later dek : Bytes) (now : Time) (plaintext_b64 : Text)
      (raw : Bytes) (w : World)
    → matches_key_name name ≡ true
    → length email ≤ 320
    → require_dek w ≡ ok dek
    → key_of email name w.work.transit_keys ≡ none
    → versions_of (next_id (λ (k : TransitKey). k.id) w.work.transit_keys) w.work.transit_versions
      ≡ []
    → length secret ≡ 32
    → length dek ≡ 32
    → length nonce ≡ 12
    → length later ≡ 12
    → p.b64decode plaintext_b64 ≡ some raw
    → length raw ≤ max_plaintext
    → let (r, w') = create_aes p secret nonce now email name w in
      ((m : Metadata) × (r ≡ ok m))
      × (w'.stored ≡ w'.work)
      × Usable p later email name plaintext_b64 raw w'
unfolding validate_key_name Vault.encrypt show
decrypt-create_aes p sound email name secret nonce later dek now plaintext_b64 raw w named he
      open_vault free unused hs hd hn hl decoded small =
    let (_, _, short) = matches_key_name_sound name named in
    let aad = first_aad email name in
    let (c, ec, dc, lc) =
      sound.aes-round dek nonce secret (p.encode aad) hd hn (omega arith)
        (omega (arith, sound.encode-length aad, first_aad-length email name he short)) in
    let done =
      create_aes-new p email name secret nonce dek now c w (ground arith) open_vault free unused
        (rw (Vault.encrypt, ec) refl) in
    let version = current_version-created p email name secret nonce dek now c w unused in
    rw done (
      (metadata p (key_made p email name secret nonce dek now c w) 1, refl),
      refl,
      decrypt-encrypt p sound later email name plaintext_b64 raw secret
          (key_made p email name secret nonce dek now c w)
          (new_world p email name secret nonce dek now c w) named he
          (find_key-created p email name secret nonce dek now c w open_vault free) decoded small
          (rw version (omega arith)) (rw version (omega arith))
          (rw version
            (material-created p email name secret nonce dek now c w sound open_vault unused dc))
          hs hl,
    )
