-- ===== src/Transit/Tables.antt =====
-- app/transit/service.py: the rows of named keys, the queries on them, and the texts of additional
-- data and of envelopes.
use mini_vault.Base.{
  ℕ, Bool, false, not, ◌&&◌, Option, none, some, List, [], ◌∷◌, ◌++◌, Text, ⊤, text, ◌==◌, same,
  joined, show, find?, keep, greatest, if◌then◌else◌,
}
use mini_vault.Errors.{
  Result, ok, raise, integrity_error, app_error, permission_denied, key_not_found,
  invalid_key_usage, ◌>>=◌ as and_then,
}
use mini_vault.Vault.{require_dek}
use mini_vault.Db.{World, Db, TransitKey, TransitKeyVersion, Action, add_row}

abbrev pub encrypt_decrypt : Text
encrypt_decrypt = text "ENCRYPT_DECRYPT"

abbrev pub sign_verify : Text
sign_verify = text "SIGN_VERIFY"

abbrev pub ed25519 : Text
ed25519 = text "ED25519"

-- `select(TransitKey).where(owner_email == email, key_name == name)`
unfoldable pub key_of : Text → Text → List TransitKey → Option TransitKey
key_of email name = find? (λ k. same k.owner_email email && same k.key_name name)

abbrev pub wrong_usage : Option Text → TransitKey → Bool
wrong_usage none key = false
wrong_usage (some usage) key = not (same key.key_usage usage)

-- the tests of `_find` on the row that the query gave
abbrev pub check_key : Option Text → Option TransitKey → Result TransitKey
check_key usage none = app_error permission_denied "Permission denied" 403
check_key usage (some key) = elim key.revoked_at [
  | some _ ↦ app_error key_not_found "Key not found" 404
  | none ↦
      if wrong_usage usage key
      then app_error invalid_key_usage "Key cannot be used for this operation" 400
      else ok key
]

-- TransitService._find
unfoldable pub find_key : Text → Text → Option Text → World → Result TransitKey
find_key email name usage w =
    and_then (require_dek w) λ dek. check_key usage (key_of email name w.work.transit_keys)

abbrev pub versions_of : ℕ → List TransitKeyVersion → List TransitKeyVersion
versions_of id = keep (λ v. v.transit_key_id == id)

-- `_current_version`
unfoldable pub current_version : Db → TransitKey → Option TransitKeyVersion
current_version db key = greatest (λ v. v.version) (versions_of key.id db.transit_versions)

abbrev pub version_or_one : Option TransitKeyVersion → ℕ
version_or_one none = 1
version_or_one (some v) = v.version

-- The additional data that a key's material is wrapped with: `f"key:{email}:{name}"` for the
-- first version, `f"key:{email}:{name}:v{version}"` for the others.
unfoldable pub first_aad : Text → Text → Text
first_aad email name = joined b':' (text "key" ∷ email ∷ name ∷ [])

unfoldable pub later_aad : Text → Text → ℕ → Text
later_aad email name version =
    joined b':' (text "key" ∷ email ∷ name ∷ (text "v" ++ show version) ∷ [])

abbrev pub material_aad : Text → Text → ℕ → Text
material_aad email name version =
    if version == 1 then first_aad email name else later_aad email name version

-- `f"transit:{email}:{name}:v{key_version}"`
unfoldable pub message_aad : Text → Text → ℕ → Text
message_aad email name version =
    joined b':' (text "transit" ∷ email ∷ name ∷ (text "v" ++ show version) ∷ [])

-- `f"vault:v{key_version}:{name}:{blob}"`
unfoldable pub envelope_of : ℕ → Text → Text → Text
envelope_of version name blob =
    joined b':' (text "vault" ∷ (text "v" ++ show version) ∷ name ∷ blob ∷ [])

pub record Metadata : Type 0 where
  pub key_name : Text
  pub key_usage : Text
  pub algorithm : Text
  pub current_version : ℕ
  pub created_at : Text
  pub revoked : Bool

-- db.add(TransitKey(...)) and the flush, under UNIQUE(owner_email, key_name)
unfoldable pub add_key : TransitKey → Action ⊤
add_key row w =
    elim (add_row (λ k. same k.owner_email row.owner_email && same k.key_name row.key_name) row
      w.work.transit_keys) [
        | none ↦ (raise integrity_error, w)
        | some rows ↦ (ok tt, record w { work = record w.work { transit_keys = rows } })
      ]

-- db.add(TransitKeyVersion(...)) under UNIQUE(transit_key_id, version)
unfoldable pub add_version : TransitKeyVersion → Action ⊤
add_version row w =
    elim (add_row (λ v. v.transit_key_id == row.transit_key_id && v.version == row.version) row
      w.work.transit_versions) [
        | none ↦ (raise integrity_error, w)
        | some rows ↦ (ok tt, record w { work = record w.work { transit_versions = rows } })
      ]
