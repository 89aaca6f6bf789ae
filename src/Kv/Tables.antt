-- ===== src/Kv/Tables.antt =====
-- app/kv/service.py: the rows of secrets, the queries on them, and the answers.
use mini_vault.Base.{
  ℕ, ◌≡◌, Bool, true, false, ◌&&◌, ◌||◌, Option, none, some, List, [], ◌∷◌, Text, Bytes, ⊤, ltb,
  ◌==◌, same, find?, keep, greatest,
}
use mini_vault.Errors.{
  Result, ok, raise, Exc, invalid_tag, value_error, app_error, raise_if, catch, validation_error,
  not_found, decryption_failed, ◌>>=◌ as and_then, ◌>>◌ as then,
}
use mini_vault.Errors
use mini_vault.Db.{Db, KvSecret, KvSecretVersion, Action, add_row}

-- json.dumps(..., sort_keys=True, separators=(",", ":")).encode() and json.loads on the values of
-- a request body. `none` is the ValueError of a lone surrogate, and of a text that is no JSON.
pub record JsonCodec (J : Type 0) : Type 0 where
  pub dumps : J → Option Bytes
  pub loads : Bytes → Option J

pub record IsJson {J : Type 0} (j : JsonCodec J) : Type 0 where
  pub json-round : (v : J) (b : Bytes) → j.dumps v ≡ some b → j.loads b ≡ some v

-- `select(KVSecret).where(KVSecret.path == path)`
abbrev pub by_path : Text → List KvSecret → Option KvSecret
by_path path = find? (λ s. same s.path path)

-- `... where(KVSecret.path == path, KVSecret.owner_email == email)`
abbrev pub by_owner : Text → Text → List KvSecret → Option KvSecret
by_owner path email = find? (λ s. same s.path path && same s.owner_email email)

abbrev pub versions_of : ℕ → List KvSecretVersion → List KvSecretVersion
versions_of id = keep (λ v. v.kv_secret_id == id)

-- `_current_version`
unfoldable pub current_version : Db → KvSecret → Option KvSecretVersion
current_version db item = greatest (λ v. v.version) (versions_of item.id db.kv_versions)

-- `x.version if x else 1`
abbrev pub version_or_one : Option KvSecretVersion → ℕ
version_or_one none = 1
version_or_one (some v) = v.version

-- db.add(KVSecret(...)) and the flush, under UNIQUE(path)
unfoldable pub add_secret : KvSecret → Action ⊤
add_secret row w = elim (add_row (λ s. same s.path row.path) row w.work.kv_secrets) [
  | none ↦ (raise Errors.integrity_error, w)
  | some rows ↦ (ok tt, record w { work = record w.work { kv_secrets = rows } })
]

-- db.add(KVSecretVersion(...)) under UNIQUE(kv_secret_id, version)
unfoldable pub add_version : KvSecretVersion → Action ⊤
add_version row w =
    elim (add_row (λ v. v.kv_secret_id == row.kv_secret_id && v.version == row.version) row
      w.work.kv_versions) [
        | none ↦ (raise Errors.integrity_error, w)
        | some rows ↦ (ok tt, record w { work = record w.work { kv_versions = rows } })
      ]

pub record WriteAnswer : Type 0 where
  pub path : Text
  pub version : ℕ
  pub created_at : Text
  pub updated_at : Text

pub record ReadAnswer (J : Type 0) : Type 0 where
  pub path : Text
  pub version : ℕ
  pub value : J

pub record VersionEntry : Type 0 where
  pub version : ℕ
  pub created_at : Text

pub record SecretEntry : Type 0 where
  pub path : Text
  pub current_version : ℕ
  pub created_at : Text
  pub updated_at : Text

abbrev pub max_secret : ℕ
max_secret = 1048576

-- `a <= b` on texts, by code points
unfoldable pub text_le : Text → Text → Bool
text_le [] t = true
text_le (x ∷ s) [] = false
text_le (x ∷ s) (y ∷ t) = ltb x y || (x == y && text_le s t)
