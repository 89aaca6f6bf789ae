-- ===== src/Auth.antt =====
-- app/auth/service.py, and `current_principal` of app/dependencies.py.
pub mod Lockout
pub mod LockState
pub mod Sessions
pub mod Unlocking
pub mod Registration
mod Tests
use mini_vault.Base.{
  ℕ, ◌+◌, ◌*◌, Bool, true, false, not, ◌&&◌, ◌||◌, Option, none, some, List, [], ◌∷◌, ◌++◌, Text,
  Bytes, ⊤, text, length, ltb, leb, ◌==◌, same, find?, update, if◌then◌else◌,
}
use mini_vault.Errors.{
  Result, ok, raise, Exc, verify_mismatch, integrity_error, app_error, raise_if, validation_error,
  email_already_exists, account_locked, invalid_credentials, unauthenticated, token_expired,
  ◌>>=◌ as and_then,
}
use mini_vault.Platform.{Platform}
use mini_vault.PyInt.{strip}
use mini_vault.Utils.{validate_passphrase}
use mini_vault.Db.{
  Time, World, Db, User, Session, Action, pure, lift, reads, ◌>>=◌, ◌>>◌, change, commit, next_id,
  add_row,
}

-- timedelta(seconds=1), in microseconds
abbrev pub second : Time
second = 1000000

-- timedelta(minutes=5)
abbrev pub lockout_time : Time
lockout_time = 300 * second

abbrev pub max_failures : ℕ
max_failures = 5

pub record LoginAnswer : Type 0 where
  pub access_token : Text
  pub token_type : Text
  pub expires_in : ℕ

pub record Principal : Type 0 where
  pub user : User
  pub session : Session

-- `select(User).where(User.email == email)`
unfoldable pub user_of : Text → List User → Option User
user_of email = find? (λ u. same u.email email)

-- db.add(User(...)) under UNIQUE(email)
unfoldable pub add_user : User → Action ⊤
add_user row w = elim (add_row (λ u. same u.email row.email) row w.work.users) [
  | none ↦ (raise integrity_error, w)
  | some rows ↦ (ok tt, record w { work = record w.work { users = rows } })
]

-- db.add(Session(...)) under UNIQUE(token_hash)
unfoldable pub add_session : Session → Action ⊤
add_session row w = elim (add_row (λ s. same s.token_hash row.token_hash) row w.work.sessions) [
  | none ↦ (raise integrity_error, w)
  | some rows ↦ (ok tt, record w { work = record w.work { sessions = rows } })
]

-- `user.failed_login_attempts, user.locked_until = ...`
unfoldable pub set_lockout : ℕ → ℕ → Option Time → Action ⊤
set_lockout id attempts until = change (λ db. record db {
  users =
      update (λ u. u.id == id)
        (λ u. record u { failed_login_attempts = attempts; locked_until = until }) db.users;
})

-- `if locked_until > now: raise`
abbrev pub check_lock : Time → Option Time → Result ⊤
check_lock now none = ok tt
check_lock now (some until) =
    raise_if (ltb now until) account_locked "Account is temporarily locked" 423

-- The attempts and the lock that the rest of `login` goes on from: a lock that has run out is
-- taken away.
abbrev pub after_lock : User → ℕ
after_lock user = elim user.locked_until [ none ↦ user.failed_login_attempts | some _ ↦ 0 ]

-- `locked_until` after one more failure.
abbrev pub lock_after : Time → ℕ → Option Time
lock_after now attempts = if leb max_failures attempts then some (now + lockout_time) else none

module _ (p : Platform) where
  -- `email.strip().lower()`
  unfoldable pub normalized : Text → Text
  normalized email = p.lower (strip p email)

  -- token_digest
  unfoldable pub token_digest : Text → Text
  token_digest token = p.sha256_hex (p.encode token)

  -- AuthService.register; `salt` is what the hasher drew
  unfoldable pub register : Bytes → Text → Text → Text → Action Text
  unfolding add_user
  register salt email password confirmation = do
    let address = normalized email
    lift (
        raise_if (not (same password confirmation)) validation_error "Passphrases do not match" 400)
    lift (validate_passphrase p password)
    reads (λ w. elim (user_of address w.work.users) [
      | none ↦ ok tt
      | some _ ↦ app_error email_already_exists "Email already exists" 409
    ])
    row ← reads (λ w. ok (record {
      id = next_id (λ (u : User). u.id) w.work.users;
      email = address;
      password_hash = p.hash_password salt password;
      failed_login_attempts = 0;
      locked_until = none;
    }))
    add_user row
    commit
    pure address

  -- `hasher.verify(...)` with `except VerifyMismatchError: valid = False`
  unfoldable pub password_matches : Text → Text → Result Bool
  password_matches hash password = elim (p.verify_password hash password) [
    | ok b ↦ ok b
    | raise verify_mismatch ↦ ok false
    | raise e ↦ raise e
  ]

  -- the branch of a wrong password
  unfoldable pub fail_login : Time → User → Action LoginAnswer
  unfolding set_lockout
  fail_login now user = do
    let attempts = after_lock user + 1
    set_lockout user.id attempts (lock_after now attempts)
    commit
    lift (app_error invalid_credentials "Invalid credentials" 401)

  -- the branch of the right password; `entropy` is what secrets.token_urlsafe drew
  unfoldable pub open_session : ℕ → Bytes → Time → User → Action LoginAnswer
  unfolding set_lockout add_session
  open_session ttl entropy now user = do
    let token = p.token_urlsafe entropy
    set_lockout user.id 0 none
    row ← reads (λ w. ok (record {
      id = next_id (λ (s : Session). s.id) w.work.sessions;
      user_id = user.id;
      token_hash = token_digest token;
      expires_at = now + ttl * second;
      revoked_at = none;
    }))
    add_session row
    commit
    pure (record { access_token = token; token_type = text "Bearer"; expires_in = ttl })

  -- the reset of an expired lock, pending until a commit
  abbrev pub lift_lock : User → Action ⊤
  lift_lock user = elim user.locked_until [ none ↦ pure tt | some _ ↦ set_lockout user.id 0 none ]

  -- `login` for a user that is there
  unfoldable pub login_user : ℕ → Bytes → Time → Text → User → Action LoginAnswer
  unfolding set_lockout
  login_user ttl entropy now password user = do
    lift (check_lock now user.locked_until)
    lift_lock user
    matches ← lift (password_matches user.password_hash password)
    if matches then open_session ttl entropy now user else fail_login now user

  -- AuthService.login; `ttl` is settings.session_ttl_seconds
  unfoldable pub login : ℕ → Bytes → Time → Text → Text → Action LoginAnswer
  login ttl entropy now email password w = elim (user_of (normalized email) w.work.users) [
    | none ↦ (app_error invalid_credentials "Invalid credentials" 401, w)
    | some user ↦ login_user ttl entropy now password user w
  ]

  -- the tests of `current_principal` on the session that the digest found
  unfoldable pub check_session : Time → Option Session → World → Result Principal
  check_session now none w = app_error unauthenticated "Invalid session" 401
  check_session now (some session) w = elim session.revoked_at [
    | some _ ↦ app_error unauthenticated "Invalid session" 401
    | none ↦
        if leb session.expires_at now
        then app_error token_expired "Session expired" 401
        else elim (find? (λ (u : User). u.id == session.user_id) w.work.users) [
          | none ↦ app_error unauthenticated "Invalid session" 401
          | some user ↦ ok (record { user = user; session = session })
        ]
  ]

  -- `current_principal`: the credentials are the scheme and the token of the header
  unfoldable pub current_principal : Time → Option (Text × Text) → World → Result Principal
  current_principal now none w = app_error unauthenticated "Authentication required" 401
  current_principal now (some (scheme, token)) w =
      if not (same (p.lower scheme) (text "bearer")) || length token == 0
      then app_error unauthenticated "Authentication required" 401
      else check_session now
          (find? (λ (s : Session). same s.token_hash (token_digest token)) w.work.sessions) w

-- AuthService.logout
unfoldable pub logout : Time → Session → Action ⊤
logout now session = do
  change (λ db. record db {
    sessions =
        update (λ s. s.id == session.id) (λ s. record s { revoked_at = some now }) db.sessions;
  })
  commit
