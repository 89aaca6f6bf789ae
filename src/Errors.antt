-- ===== src/Errors.antt =====
-- app/exceptions.py: the application's error, and beside it the exceptions of the libraries that
-- the services catch or let through. `Result` is the outcome of code that may raise.
use Prim.Native.String.{String}
use mini_vault.Base.{ℕ, Bool, true, false, ◌≡◌, refl, ⊤, ◌⊎◌, inl, inr}

-- The `code` strings that the program raises.
pub data ErrorCode : Type 0 where
  validation_error weak_passphrase permission_denied not_found decryption_failed : ErrorCode
  vault_already_initialized vault_not_initialized invalid_master_passphrase vault_locked : ErrorCode
  email_already_exists account_locked invalid_credentials unauthenticated token_expired : ErrorCode
  key_not_found invalid_key_usage key_already_exists key_version_not_found : ErrorCode
  invalid_ciphertext invalid_digest_length invalid_signing_algorithm internal_error : ErrorCode

-- `class AppError`.
pub record AppError : Type 0 where
  pub code : ErrorCode
  pub message : String
  pub status_code : ℕ

-- What a `raise` throws. `request_validation` is FastAPI's `RequestValidationError`,
-- `value_error` stands for `ValueError` and its subclasses, `other` for an
-- exception that no handler of the services names.
pub data Exc : Type 0 where
  app : AppError → Exc
  request_validation : Exc
  invalid_tag invalid_signature value_error verify_mismatch integrity_error other : Exc

pub data Result (A : Type 0) : Type 0 where
  ok : A → Result A
  raise : Exc → Result A

-- `AppError(code, message, status)`.
abbrev pub app_error : {A : Type 0} → ErrorCode → String → ℕ → Result A
app_error c m n = raise (app (record { code = c; message = m; status_code = n }))

-- `if c: raise AppError(...)`.
abbrev pub raise_if : Bool → ErrorCode → String → ℕ → Result ⊤
raise_if true c m n = app_error c m n
raise_if false c m n = ok tt

-- `try: ... except (...): ...`.
abbrev pub catch : {A : Type 0} → Result A → (Exc → Result A) → Result A
catch (ok a) h = ok a
catch (raise e) h = h e

-- One statement after another: an exception skips the rest.
infixl 5 ◌>>=◌ ◌>>◌
abbrev pub ◌>>=◌ : {A B : Type 0} → Result A → (A → Result B) → Result B
raise e >>= rest = raise e
ok a >>= rest = rest a

abbrev pub ◌>>◌ : {A B : Type 0} → Result A → Result B → Result B
m >> k = m >>= λ _. k

pub Result-cases :
    {A : Type 0} (r : Result A) → ((a : A) × (r ≡ ok a)) ⊎ ((e : Exc) × (r ≡ raise e))
Result-cases (ok a) = inl (a, refl)
Result-cases (raise e) = inr (e, refl)
