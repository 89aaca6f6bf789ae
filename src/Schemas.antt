-- ===== src/Schemas.antt =====
-- app/schemas.py: the request bodies. A schema takes the fields of a body that have the types it
-- declares and admits them, changed where it changes them, or refuses the body.
use mini_vault.Base.{
  ℕ, Bool, true, false, ◌&&◌, ◌||◌, Option, none, some, ◌≡◌, Text, text, same, length, leb,
}
use mini_vault.Errors.{raise, ok, Result, request_validation}
use mini_vault.Platform.{Platform}
use mini_vault.PyInt.{strip}
use mini_vault.Utils.Namespace.{IsEmail}

pub record InitRequest : Type 0 where
  pub master_passphrase : Text
  pub confirm_master_passphrase : Text

pub record UnlockRequest : Type 0 where
  pub master_passphrase : Text

pub record RegisterRequest : Type 0 where
  pub email : Text
  pub passphrase : Text
  pub confirm_passphrase : Text

pub record LoginRequest : Type 0 where
  pub email : Text
  pub passphrase : Text

pub record CreateKeyRequest : Type 0 where
  pub key_name : Text
  pub key_usage : Text

pub record CreateSigningKeyRequest : Type 0 where
  pub key_name : Text
  pub signing_algorithm : Text

pub record SignRequest : Type 0 where
  pub key_name : Text
  pub message_b64 : Text
  pub message_type : Text

-- `class VerifyRequest(SignRequest)`
pub record VerifyRequest : Type 0 where
  pub signed : SignRequest
  pub signature_b64 : Text
  pub signing_algorithm : Option Text

-- A body that passes a test, or FastAPI's RequestValidationError.
abbrev pub admit : {B : Type 0} → Bool → B → Result B
admit true b = ok b
admit false b = raise request_validation

-- `Field(max_length=1024)`
abbrev pub max_passphrase : ℕ
max_passphrase = 1024

abbrev pub fits : Text → Bool
fits s = leb (length s) max_passphrase

unfoldable pub init_request : InitRequest → Result InitRequest
init_request b = admit (fits b.master_passphrase && fits b.confirm_master_passphrase) b

unfoldable pub unlock_request : UnlockRequest → Result UnlockRequest
unlock_request b = admit (fits b.master_passphrase) b

unfoldable pub create_key_request : CreateKeyRequest → Result CreateKeyRequest
create_key_request b = admit (same b.key_usage (text "ENCRYPT_DECRYPT")) b

unfoldable pub create_signing_key_request : CreateSigningKeyRequest → Result CreateSigningKeyRequest
create_signing_key_request b = admit (same b.signing_algorithm (text "ED25519")) b

-- `Literal["RAW", "DIGEST"]`
abbrev pub is_message_type : Text → Bool
is_message_type s = same s (text "RAW") || same s (text "DIGEST")

unfoldable pub sign_request : SignRequest → Result SignRequest
sign_request b = admit (is_message_type b.message_type) b

-- `Field(None, max_length=64)`
abbrev pub fits_algorithm : Option Text → Bool
fits_algorithm none = true
fits_algorithm (some s) = leb (length s) 64

unfoldable pub verify_request : VerifyRequest → Result VerifyRequest
verify_request b =
    admit (is_message_type b.signed.message_type && fits_algorithm b.signing_algorithm) b

-- `version: int | None = Query(None, ge=1)` of kv_read in app/router.py
abbrev pub version_query : Option ℕ → Result (Option ℕ)
version_query none = ok none
version_query (some n) = admit (leb 1 n) (some n)

-- pydantic's EmailStr: the address in its normal form, or `none` for a text that is no address.
pub record EmailStr : Type 0 where
  pub parse : Text → Option Text

-- An address has one `@` and no slash in its domain, and its normal form is its own.
pub record IsEmailStr (m : EmailStr) : Type 0 where
  pub parse-IsEmail : (s e : Text) → m.parse s ≡ some e → IsEmail e
  pub parse_again : (s e : Text) → m.parse s ≡ some e → m.parse e ≡ some e

-- `normalize_email`, before the check of the type
unfoldable pub normalize_email : Platform → Text → Text
normalize_email p value = p.lower (strip p value)

module _ (p : Platform) (m : EmailStr) where
  unfoldable pub register_request : RegisterRequest → Result RegisterRequest
  unfolding normalize_email
  register_request b = elim (m.parse (normalize_email p b.email)) [
    | none ↦ raise request_validation
    | some e ↦ admit (fits b.passphrase && fits b.confirm_passphrase) (record b { email = e })
  ]

  unfoldable pub login_request : LoginRequest → Result LoginRequest
  unfolding normalize_email
  login_request b = elim (m.parse (normalize_email p b.email)) [
    | none ↦ raise request_validation
    | some e ↦ admit (fits b.passphrase) (record b { email = e })
  ]
