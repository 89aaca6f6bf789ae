-- ===== src/Http.antt =====
-- app/exceptions.py: the JSON envelope of an answer, and what each exception is answered with.
use Prim.Native.String.{String}
use mini_vault.Base.{ℕ, Bool, true, false, Option, none, some}
use mini_vault.Errors.{
  Result, ok, raise, app, request_validation, ErrorCode, validation_error, internal_error,
}
use mini_vault.Db.{World, Action}

pub record ErrorBody : Type 0 where
  pub code : ErrorCode
  pub message : String

-- The content of a `JSONResponse`, with its status; `payload` is the `"data"` of the envelope.
pub record Response (A : Type 0) : Type 0 where
  pub success : Bool
  pub payload : Option A
  pub error : Option ErrorBody
  pub status : ℕ

module _ {A : Type 0} where
  -- `ok(data, status_code)`
  abbrev pub success_response : A → ℕ → Response A
  success_response a status = record {
    success = true;
    payload = some a;
    error = none;
    status = status;
  }

  -- a `JSONResponse` with `"success": False`
  abbrev pub failure : ErrorCode → String → ℕ → Response A
  failure code message status = record {
    success = false;
    payload = none;
    error = some (record { code = code; message = message });
    status = status;
  }

  -- `validation_error` of install_handlers
  abbrev pub invalid_request : Response A
  invalid_request = failure validation_error "Invalid request" 422

  -- `internal_error` of install_handlers
  abbrev pub internal_failure : Response A
  internal_failure = failure internal_error "Internal error" 500

  -- The three handlers of install_handlers, and `ok` where nothing was raised.
  unfoldable pub respond : ℕ → Result A → Response A
  respond status (ok a) = success_response a status
  respond status (raise (app e)) = failure e.code e.message e.status_code
  respond status (raise request_validation) = invalid_request
  respond status (raise _) = internal_failure

-- An endpoint: from a world to an answer and the world that is left.
abbrev pub Endpoint : Type 0 → Type 0
Endpoint A = World → Response A × World

-- The answer of a handler.
unfoldable pub answered : {A : Type 0} → ℕ → Action A → Endpoint A
unfolding respond
answered status m w = let (r, w') = m w in (respond status r, w')
