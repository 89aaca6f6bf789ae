-- ===== src/Kv/Write.antt =====
-- KVService.write and KVService.delete: what they leave behind, and that they keep the invariant.
use mini_vault.Base.{
  ℕ, ◌+◌, ◌≤◌, ◌≡◌, refl, false, none, some, List, [], ◌∷◌, ◌++◌, map, Text, Bytes, arith, ◌==◌,
  same, same_sound, find?-sound, length, ltb, any, All, discard, update, ◌⊎◌, inl, inr, Bool-cases,
  Option-cases, find?-none-any, top_key-All,
}
use mini_vault.Errors.{ok, Result-cases}
use mini_vault.Platform.{Platform}
use mini_vault.Utils.{validate_path, b64e}
use mini_vault.Utils.Namespace.{IsEmail, validate_path-exclusive}
use mini_vault.Vault.{require_dek, encrypt}
use mini_vault.Db.{Time, World, Db, KvSecret, KvSecretVersion, next_id}
use mini_vault.Kv.{
  JsonCodec, by_path, by_owner, versions_of, save, save_old, save_new, write, delete, dump,
  max_secret,
}
use mini_vault.Kv.Rows.{any-next}
use mini_vault.Kv.Valid.{
  Key, key, has_id, IsKvValid, map-update, find?-key, any-found, next-version, IsValid-version,
  IsValid-secret,
}
use mini_vault.Kv.Valid.Discard.{IsValid-discard}

-- The row that a write adds.
abbrev pub version_row : Db → ℕ → ℕ → Text → Text → Time → KvSecretVersion
version_row db id n nonce_b64 ciphertext_b64 now = record {
  id = next_id (λ (v : KvSecretVersion). v.id) db.kv_versions;
  kv_secret_id = id;
  version = n;
  nonce_b64 = nonce_b64;
  ciphertext_b64 = ciphertext_b64;
  created_at = now;
}

abbrev pub overwrite : Text → Text → Time → KvSecret → KvSecret
overwrite nonce_b64 ciphertext_b64 now s = record s {
  nonce_b64 = nonce_b64;
  ciphertext_b64 = ciphertext_b64;
  updated_at = now;
}

-- The tables after a write over `item`.
abbrev pub old_saved : Db → KvSecret → Text → Text → Time → Db
old_saved db item n c now = record db {
  kv_secrets = update (λ s. s.id == item.id) (overwrite n c now) db.kv_secrets;
  kv_versions =
      db.kv_versions
      ++ version_row db item.id (length (versions_of item.id db.kv_versions) + 1) n c now ∷ [];
}

abbrev pub secret_row : Db → Text → Text → Text → Text → Time → KvSecret
secret_row db path email n c now = record {
  id = next_id (λ (s : KvSecret). s.id) db.kv_secrets;
  path = path;
  owner_email = email;
  nonce_b64 = n;
  ciphertext_b64 = c;
  created_at = now;
  updated_at = now;
}

-- The tables after the first write of a path.
abbrev pub new_saved : Db → Text → Text → Text → Text → Time → Db
new_saved db path email n c now =
    let id : ℕ = next_id (λ (s : KvSecret). s.id) db.kv_secrets in
    record db {
      kv_secrets = db.kv_secrets ++ secret_row db path email n c now ∷ [];
      kv_versions = db.kv_versions ++ version_row db id 1 n c now ∷ [];
    }

abbrev pub committed : World → Db → World
committed w db = record w { stored = db; work = db }

fresh_id :
    (ss : List KvSecret) (n : ℕ)
    → All (λ s. s.id ≤ n) ss
    → any (has_id (n + 1)) (map key ss) ≡ false
fresh_id [] n h = refl
fresh_id (s ∷ ss) n h = ground (arith, fresh_id ss n h.1)

pub unused_id :
    (ss : List KvSecret) → any (has_id (next_id (λ (s : KvSecret). s.id) ss)) (map key ss) ≡ false
unused_id ss = fresh_id ss _ (top_key-All (λ (s : KvSecret). s.id) _ ss (omega arith))

pub unused_path :
    (path : Text) (ss : List KvSecret)
    → by_path path ss ≡ none
    → any (λ (x : Key). same x.1 path) (map key ss) ≡ false
unused_path path [] h = refl
unused_path path (s ∷ ss) h = ground (arith, unused_path path ss)

-- The tables after the deletion of `item`.
abbrev pub deleted : Db → KvSecret → Db
deleted db item = record db {
  kv_versions = discard (λ v. v.kv_secret_id == item.id) db.kv_versions;
  kv_secrets = discard (λ s. s.id == item.id) db.kv_secrets;
}

module _ (p : Platform) (path email n c : Text) (now : Time) (w : World)
    (valid : IsKvValid w.work) where
  pub save-old :
      (item : KvSecret)
      → by_path path w.work.kv_secrets ≡ some item
      → save p path email n c now w ≡ (
        ok (record {
          path = item.path;
          version = length (versions_of item.id w.work.kv_versions) + 1;
          created_at = p.isoformat_stored item.created_at;
          updated_at = p.isoformat now;
        }),
        committed w (old_saved w.work item n c now),
      )
  unfolding save save_old
  save-old item found =
      let started = find?-key _ _ w.work.kv_secrets item found valid.started in
      let next = next-version w.work item (valid.numbered item.id) started in
      let unclashed =
        any-next item.id (length (versions_of item.id w.work.kv_versions) + 1) 0 w.work.kv_versions
          (valid.numbered item.id) (omega arith) in
      ground (arith, next, unclashed)

  pub save-new :
      by_path path w.work.kv_secrets ≡ none
      → save p path email n c now w ≡ (
        ok (record {
          path = path;
          version = 1;
          created_at = p.isoformat now;
          updated_at = p.isoformat now;
        }),
        committed w (new_saved w.work path email n c now),
      )
  unfolding save save_new
  save-new absent =
      let id : ℕ = next_id (λ (s : KvSecret). s.id) w.work.kv_secrets in
      let none_yet = valid.adopted id (unused_id w.work.kv_secrets) in
      let unclashed =
        any-next id 1 0 w.work.kv_versions (valid.numbered id) (rw none_yet (omega arith)) in
      let new_path = find?-none-any (λ (s : KvSecret). same s.path path) w.work.kv_secrets absent in
      ground (arith, unclashed, new_path)

  pub item_of_caller :
      (item : KvSecret)
      → by_path path w.work.kv_secrets ≡ some item
      → IsEmail email
      → validate_path path email ≡ ok tt
      → (item.path ≡ path) × (item.owner_email ≡ email)
  item_of_caller item found he allowed =
      let same_path =
        same_sound _ _
          (find?-sound (λ (s : KvSecret). same s.path path) w.work.kv_secrets item found) in
      let (email_of, own) = find?-key _ _ w.work.kv_secrets item found valid.owned in
      (
        same_path,
        validate_path-exclusive path item.owner_email email email_of he (rw same_path at own)
            allowed,
      )

  pub old_saved-IsKvValid :
      (item : KvSecret)
      → by_path path w.work.kv_secrets ≡ some item
      → IsKvValid (old_saved w.work item n c now)
  old_saved-IsKvValid item found =
      IsValid-version w.work.kv_secrets _ w.work.kv_versions _ valid
        (map-update (λ s. s.id == item.id) (overwrite n c now) (λ s. refl) w.work.kv_secrets)
        (any-found _ w.work.kv_secrets item found) (omega arith)

  pub new_saved-IsKvValid :
      by_path path w.work.kv_secrets ≡ none
      → IsEmail email
      → validate_path path email ≡ ok tt
      → IsKvValid (new_saved w.work path email n c now)
  new_saved-IsKvValid absent he allowed =
      IsValid-secret w.work.kv_secrets w.work.kv_versions _ _ valid (unused_id w.work.kv_secrets)
        (unused_path path w.work.kv_secrets absent) (he, allowed) refl refl

  pub save-IsKvValid :
      IsEmail email
      → validate_path path email ≡ ok tt
      → IsKvValid (save p path email n c now w).1.work
  save-IsKvValid he allowed = elim (Option-cases (by_path path w.work.kv_secrets)) [
    | inl absent ↦ rw (save-new absent) (new_saved-IsKvValid absent he allowed)
    | inr (item, found) ↦ rw (save-old item found) (old_saved-IsKvValid item found)
  ]

module _ (p : Platform) {J : Type 0} (j : JsonCodec J) (nonce : Bytes) (now : Time)
    (path email : Text) (value : J) (w : World) where
  -- `write` raises and changes nothing, or comes to `save` with the path accepted.
  pub write_cases :
      ((write p j nonce now path email value w).1 ≡ w)
      ⊎ ((n : Text) × (c : Text) × (validate_path path email ≡ ok tt)
          × (write p j nonce now path email value w ≡ save p path email n c now w))
  unfolding write
  write_cases = elim (Result-cases (validate_path path email)) [
    | inr (e, refused) ↦ inl (ground arith)
    | inl (_, allowed) ↦ elim (Result-cases (require_dek w)) [
      | inr (e, locked) ↦ inl (ground arith)
      | inl (dek, open_vault) ↦ elim (Result-cases (dump p j value)) [
        | inr (e, no_json) ↦ inl (ground arith)
        | inl (raw, dumped) ↦ elim (Bool-cases (ltb max_secret (length raw))) [
          | inl large ↦ inl (ground arith)
          | inr small ↦ elim (Result-cases (encrypt p nonce dek raw (p.encode path))) [
            | inr (e, failed) ↦ inl (ground arith)
            | inl (sealed, done) ↦ inr (b64e p sealed.0, b64e p sealed.1, allowed, ground arith)
          ]
        ]
      ]
    ]
  ]

  -- A write by a caller with an address of one `@` and no slash in the domain keeps the
  -- invariant of the tables, whatever it is asked and however it ends.
  pub write-IsKvValid :
      IsKvValid w.work → IsEmail email → IsKvValid (write p j nonce now path email value w).1.work
  write-IsKvValid valid he = elim write_cases [
    | inl same_world ↦ rw same_world valid
    | inr (n, c, allowed, saved) ↦ rw saved (save-IsKvValid p path email n c now w valid he allowed)
  ]

-- A deletion raises and changes nothing, or the secret that it found is gone and committed.
delete_cases :
    (path email : Text) (w : World)
    → ((delete path email w).1 ≡ w)
      ⊎ ((item : KvSecret) × (by_owner path email w.work.kv_secrets ≡ some item)
          × (delete path email w ≡ (ok tt, committed w (deleted w.work item))))
unfolding delete
delete_cases path email w = elim (Result-cases (validate_path path email)) [
  | inr (e, refused) ↦ inl (ground arith)
  | inl (_, allowed) ↦ elim (Result-cases (require_dek w)) [
    | inr (e, locked) ↦ inl (ground arith)
    | inl (dek, open_vault) ↦ elim (Option-cases (by_owner path email w.work.kv_secrets)) [
      | inl absent ↦ inl (ground arith)
      | inr (item, found) ↦ inr (item, found, ground arith)
    ]
  ]
]

-- A deletion keeps the invariant of the tables, whatever it is asked and however it ends.
pub delete-IsKvValid :
    (path email : Text) (w : World) → IsKvValid w.work → IsKvValid (delete path email w).1.work
delete-IsKvValid path email w valid = elim (delete_cases path email w) [
  | inl same_world ↦ rw same_world valid
  | inr (item, found, gone) ↦
      rw gone (IsValid-discard w.work.kv_secrets w.work.kv_versions item.id valid)
]
