-- ===== src/Kv.antt =====
-- app/kv/service.py: encrypted secrets under versions.
pub mod Tables
pub mod Rows
pub mod Valid
pub mod Write
pub mod Read
pub mod Frame
pub mod History
pub mod Deletion
pub mod Shelf
mod Tests
unfoldable pub use Tables.{current_version, add_secret, add_version, text_le}
pub use Tables.{
  by_path, by_owner, versions_of, version_or_one, max_secret, JsonCodec, IsJson, WriteAnswer,
  ReadAnswer, VersionEntry, SecretEntry,
}
use mini_vault.Base.{
  ℕ, ◌+◌, ◌≡◌, Bool, true, false, not, ◌&&◌, ◌||◌, Option, none, some, List, [], ◌∷◌, ◌++◌, map,
  Text, Bytes, ⊤, length, ltb, leb, ◌==◌, same, find?, keep, discard, update, greatest, sort_by,
  if◌then◌else◌,
}
use mini_vault.Errors.{
  Result, ok, raise, Exc, invalid_tag, value_error, app_error, raise_if, catch, validation_error,
  not_found, decryption_failed, ◌>>=◌ as and_then, ◌>>◌ as then,
}
use mini_vault.Errors
use mini_vault.Platform.{Platform}
use mini_vault.Utils.{validate_path, b64e, b64d}
use mini_vault.Vault.{require_dek, encrypt, decrypt}
use mini_vault.Db.{
  Time, World, Db, KvSecret, KvSecretVersion, Action, pure, lift, reads, gets, ◌>>=◌, ◌>>◌, change,
  commit, next_id, add_row,
}

module _ (p : Platform) where
  -- the rest of `write`, once the value is encrypted: an old secret
  unfoldable pub save_old : KvSecret → Text → Text → Time → Action WriteAnswer
  unfolding add_version
  save_old item nonce_b64 ciphertext_b64 now w =
      let next_version : ℕ = version_or_one (current_version w.work item) + 1 in
      (do
        change (λ db. record db {
          kv_secrets =
              update (λ s. s.id == item.id)
                (λ s. record s {
                  nonce_b64 = nonce_b64;
                  ciphertext_b64 = ciphertext_b64;
                  updated_at = now;
                })
                db.kv_secrets;
        })
        add_version (record {
          id = next_id (λ (v : KvSecretVersion). v.id) w.work.kv_versions;
          kv_secret_id = item.id;
          version = next_version;
          nonce_b64 = nonce_b64;
          ciphertext_b64 = ciphertext_b64;
          created_at = now;
        })
        commit
        pure (record {
          path = item.path;
          version = next_version;
          created_at = p.isoformat_stored item.created_at;
          updated_at = p.isoformat now;
        }))
        w

  -- the same for a new secret
  unfoldable pub save_new : Text → Text → Text → Text → Time → Action WriteAnswer
  unfolding add_secret add_version
  save_new path email nonce_b64 ciphertext_b64 now w =
      let id : ℕ = next_id (λ (s : KvSecret). s.id) w.work.kv_secrets in
      (do
        add_secret (record {
          id = id;
          path = path;
          owner_email = email;
          nonce_b64 = nonce_b64;
          ciphertext_b64 = ciphertext_b64;
          created_at = now;
          updated_at = now;
        })
        add_version (record {
          id = next_id (λ (v : KvSecretVersion). v.id) w.work.kv_versions;
          kv_secret_id = id;
          version = 1;
          nonce_b64 = nonce_b64;
          ciphertext_b64 = ciphertext_b64;
          created_at = now;
        })
        commit
        pure (record {
          path = path;
          version = 1;
          created_at = p.isoformat now;
          updated_at = p.isoformat now;
        }))
        w

  unfoldable pub save : Text → Text → Text → Text → Time → Action WriteAnswer
  save path email nonce_b64 ciphertext_b64 now w = elim (by_path path w.work.kv_secrets) [
    | some item ↦ save_old item nonce_b64 ciphertext_b64 now w
    | none ↦ save_new path email nonce_b64 ciphertext_b64 now w
  ]

  module _ {J : Type 0} (j : JsonCodec J) where
    abbrev pub dump : J → Result Bytes
    dump v = elim (j.dumps v) [ none ↦ raise value_error | some b ↦ ok b ]

    abbrev pub load : Bytes → Result J
    load b = elim (j.loads b) [ none ↦ raise value_error | some v ↦ ok v ]

    -- KVService.write; `nonce` is what os.urandom(12) gave
    unfoldable pub write : Bytes → Time → Text → Text → J → Action WriteAnswer
    write nonce now path email value = do
      lift (validate_path path email)
      dek ← reads require_dek
      raw ← lift (dump value)
      lift (raise_if (ltb max_secret (length raw)) validation_error "Secret is too large" 413)
      sealed ← lift (encrypt p nonce dek raw (p.encode path))
      save path email (b64e p sealed.0) (b64e p sealed.1) now

    -- the `except (InvalidTag, ValueError, json.JSONDecodeError)` of `read`
    abbrev pub undecryptable : {A : Type 0} → Exc → Result A
    undecryptable invalid_tag = app_error decryption_failed "Secret could not be decrypted" 400
    undecryptable value_error = app_error decryption_failed "Secret could not be decrypted" 400
    undecryptable e = raise e

    -- the body of that `try`
    unfoldable pub open_secret : Bytes → Text → Text → Text → Result J
    unfolding decrypt b64d
    open_secret dek nonce_b64 ciphertext_b64 path =
        and_then (b64d p nonce_b64 validation_error) λ nonce.
          and_then (b64d p ciphertext_b64 validation_error)
            λ ciphertext. and_then (decrypt p dek nonce ciphertext (p.encode path)) λ raw. load raw

    -- which version row is meant: `none` for a secret with no rows at all
    unfoldable pub pick_version : Db → KvSecret → Option ℕ → Result (Option KvSecretVersion)
    pick_version db item none = ok (current_version db item)
    pick_version db item (some version) =
        if ltb version 1
        then app_error validation_error "Invalid version" 422
        else elim (find? (λ v. v.kv_secret_id == item.id && v.version == version) db.kv_versions) [
          | none ↦ app_error not_found "Secret version not found" 404
          | some v ↦ ok (some v)
        ]

    abbrev pub nonce_of : KvSecret → Option KvSecretVersion → Text
    nonce_of item none = item.nonce_b64
    nonce_of item (some v) = v.nonce_b64

    abbrev pub ciphertext_of : KvSecret → Option KvSecretVersion → Text
    ciphertext_of item none = item.ciphertext_b64
    ciphertext_of item (some v) = v.ciphertext_b64

    -- `if not item: raise AppError("NOT_FOUND", ...)`
    abbrev pub found : {A : Type 0} → Option A → Result A
    found none = app_error not_found "Secret not found" 404
    found (some a) = ok a

    -- KVService.read
    unfoldable pub read : Text → Text → Option ℕ → World → Result (ReadAnswer J)
    read path email version w = and_then (validate_path path email) λ _.
        and_then (require_dek w) λ dek.
          and_then (found (by_owner path email w.work.kv_secrets)) λ item.
            and_then (pick_version w.work item version) λ row.
              and_then
                (catch (open_secret dek (nonce_of item row) (ciphertext_of item row) path)
                  undecryptable)
                λ value. ok (record { path = path; version = version_or_one row; value = value })

  -- KVService.versions
  unfoldable pub versions : Text → Text → World → Result (List VersionEntry)
  versions path email w = and_then (validate_path path email) λ _. and_then (require_dek w) λ dek.
      elim (by_owner path email w.work.kv_secrets) [
        | none ↦ app_error not_found "Secret not found" 404
        | some item ↦
            ok
              (elim (sort_by (λ a b. leb a.version b.version)
                (versions_of item.id w.work.kv_versions)) [
                  | [] ↦
                      record { version = 1; created_at = p.isoformat_stored item.created_at } ∷ []
                  | x ∷ xs ↦
                      map
                        (λ (v : KvSecretVersion). record {
                          version = v.version;
                          created_at = p.isoformat_stored v.created_at;
                        })
                        (x ∷ xs)
                ])
      ]

  -- KVService.list
  unfoldable pub list : Text → World → Result (List SecretEntry)
  list email w = and_then (require_dek w) λ dek. ok (
      map
        (λ (s : KvSecret). record {
          path = s.path;
          current_version = version_or_one (current_version w.work s);
          created_at = p.isoformat_stored s.created_at;
          updated_at = p.isoformat_stored s.updated_at;
        })
        (sort_by (λ a b. text_le a.path b.path)
          (keep (λ s. same s.owner_email email) w.work.kv_secrets)))

-- KVService.delete
unfoldable pub delete : Text → Text → Action ⊤
delete path email = do
  lift (validate_path path email)
  reads require_dek
  item ← gets (λ w. by_owner path email w.work.kv_secrets)
  elim item [
    | none ↦ lift (app_error not_found "Secret not found" 404)
    | some s ↦ (do
      change (λ db. record db {
        kv_versions = discard (λ v. v.kv_secret_id == s.id) db.kv_versions;
        kv_secrets = discard (λ x. x.id == s.id) db.kv_secrets;
      })
      commit)
  ]
