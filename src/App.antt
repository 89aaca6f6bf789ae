-- ===== src/App.antt =====
-- app/main.py and app/config.py: the start and the stop of the process, the limit on the size of
-- a request, and a request's way from the middleware to its answer.
pub mod Limits
pub mod Startup
pub mod Accounts
pub mod Secrets
mod Tests
use mini_vault.Base.{
  ℕ, ◌+◌, ◌*◌, Bool, true, false, Option, none, some, [], ◌∷◌, Text, Bytes, text, ltb,
  if◌then◌else◌,
}
use mini_vault.Errors.{Result, ok, raise, validation_error}
use mini_vault.Platform.{Platform}
use mini_vault.PyInt.{int}
use mini_vault.Db.{Time, World, Action, lift, pure, ◌>>=◌, ◌>>◌, with_session}
use mini_vault.Http.{Endpoint, answered, failure}
use mini_vault.Schemas.{
  EmailStr, InitRequest, UnlockRequest, RegisterRequest, LoginRequest, init_request, unlock_request,
  register_request, login_request,
}
use mini_vault.Vault
use mini_vault.Vault.{Status, LockStatus}
use mini_vault.Audit.{ensure_schema}
use mini_vault.Auth.{LoginAnswer, register, login}

-- `class Settings`; the URL of the database is left out.
pub record Settings : Type 0 where
  pub session_ttl_seconds : ℕ
  pub max_request_bytes : ℕ

abbrev pub default_settings : Settings
default_settings = record { session_ttl_seconds = 1800; max_request_bytes = 1048576 }

module _ (p : Platform) where
  -- `lifespan` before its `yield`; `columns` is what `ensure_schema` finds of the audit table
  unfoldable pub start_up : Option (Bool × Bool) → World → World
  unfolding Vault.lock
  start_up columns w =
      let db = record w.stored { audit_logs = ensure_schema p columns w.stored.audit_logs } in
      (Vault.lock (record w { stored = db; work = db })).1

  -- `lifespan` after it
  unfoldable pub shut_down : World → World
  unfolding Vault.lock
  shut_down w = (Vault.lock w).1

  -- `too_large` of request_size_limit, of the header content-length; its test on a text that is
  -- not empty
  unfoldable pub over_limit : Settings → Text → Bool
  over_limit st length = elim (int p length) [
    | none ↦ true
    | some (true, n) ↦ false
    | some (false, n) ↦ ltb (st.max_request_bytes + 8192) n
  ]

  unfoldable pub too_large : Settings → Option Text → Bool
  unfolding over_limit
  too_large st none = false
  too_large st (some []) = false
  too_large st (some (c ∷ s)) = over_limit st (c ∷ s)

  -- request_size_limit
  unfoldable pub request_size_limit :
      {A : Type 0} → Settings → Option Text → Endpoint A → Endpoint A
  unfolding too_large
  request_size_limit st length call_next w =
      if too_large st length
      then (failure validation_error "Request is too large" 413, w)
      else call_next w

  -- A request to an endpoint of the router: the middleware, the handler, the answer.
  unfoldable pub serve : {A : Type 0} → Settings → Option Text → ℕ → Action A → Endpoint A
  unfolding request_size_limit answered
  serve st header status handler = request_size_limit st header (answered status handler)
