-- ===== src/Kv/Shelf.antt =====
-- What the secrets promise, without ids, rows, keys or ciphertexts: a shelf holds, for every path,
-- the values that were written to it, the oldest first.
pub mod Tables
pub mod Opened
pub mod Reading
pub mod Listing
pub mod Entries
pub mod Writing
pub mod Run
pub mod Isolation
use mini_vault.Base.{
  ℕ, zero, suc, ◌+◌, ◌≡◌, Bool, Option, none, some, List, [], ◌∷◌, ◌++◌, map, Text, Bytes, same,
  length, get_elem?, ⊤, if◌then◌else◌,
}
use mini_vault.Errors.{Result, ok, app_error, not_found, validation_error}
use mini_vault.Platform.{Platform}
use mini_vault.Db.{Db, KvSecretVersion}
use mini_vault.Kv.{JsonCodec, ReadAnswer, by_path, versions_of, open_secret}
use mini_vault.Kv.Valid.{IsKvValid}

abbrev pub Shelf : Type 0 → Type 0
Shelf J = Text → List J

module _ {J : Type 0} where
  -- The values of one path, changed.
  abbrev pub place : Text → List J → Shelf J → Shelf J
  place path values s at = if same at path then values else s at

  -- A new version of a path, and the end of one.
  abbrev pub put : Text → J → Shelf J → Shelf J
  put path v s = place path (s path ++ v ∷ []) s

  abbrev pub drop : Text → Shelf J → Shelf J
  drop path = place path []

  -- The answer to a read: the last value, or that of a version from 1 on.
  abbrev pub numbered_answer : Text → ℕ → Option J → Result (ReadAnswer J)
  numbered_answer path n none = app_error not_found "Secret version not found" 404
  numbered_answer path n (some v) = ok (record { path = path; version = n; value = v })

  abbrev pub shelf_read : Text → Option ℕ → List J → Result (ReadAnswer J)
  shelf_read path version [] = app_error not_found "Secret not found" 404
  shelf_read path none (v ∷ vs) =
      numbered_answer path (length (v ∷ vs)) (get_elem? (v ∷ vs) (length vs))
  shelf_read path (some zero) (v ∷ vs) = app_error validation_error "Invalid version" 422
  shelf_read path (some (suc i)) (v ∷ vs) = numbered_answer path (suc i) (get_elem? (v ∷ vs) i)

  -- The answer to a deletion.
  abbrev pub shelf_delete : List J → Result ⊤
  shelf_delete [] = app_error not_found "Secret not found" 404
  shelf_delete (v ∷ vs) = ok tt

  -- The numbers of the values, from k + 1 on, and the answer to a listing.
  abbrev pub numbers : ℕ → List J → List ℕ
  numbers k [] = []
  numbers k (v ∷ vs) = suc k ∷ numbers (suc k) vs

  abbrev pub shelf_versions : List J → Result (List ℕ)
  shelf_versions [] = app_error not_found "Secret not found" 404
  shelf_versions (v ∷ vs) = ok (numbers 0 (v ∷ vs))

-- The version rows of a path.
abbrev pub rows_at : Text → Db → List KvSecretVersion
rows_at path db = elim (by_path path db.kv_secrets) [
  | none ↦ []
  | some item ↦ versions_of item.id db.kv_versions
]

module _ (p : Platform) {J : Type 0} (j : JsonCodec J) (dek : Bytes) where
  abbrev pub opened_row : Text → KvSecretVersion → Result J
  opened_row path v = open_secret p j dek v.nonce_b64 v.ciphertext_b64 path

  -- The tables are valid, and the rows of each path open to the values of the shelf.
  pub record Holds (db : Db) (s : Shelf J) : Type 0 where
    pub valid : IsKvValid db
    pub values : (path : Text) → map (opened_row path) (rows_at path db) ≡ map ok (s path)
