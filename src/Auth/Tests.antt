-- ===== src/Auth/Tests.antt =====
-- The theorems on accounts and sessions at concrete inputs.
use mini_vault.Base.{
  ◌+◌, ◌*◌, ◌<◌, ◌==◌, find?, ◌≡◌, refl, none, some, List, [], ◌∷◌, All, Text, text, same, ltb,
  if◌then◌else◌, arith,
}
use mini_vault.Errors.{ok, app_error, account_locked, token_expired, unauthenticated}
use mini_vault.Platform.Sample.{sample, sample-IsSound}
use mini_vault.PyInt.{strip}
use mini_vault.Db.{Time, World, User, Session}
use mini_vault.Auth.{
  Principal, second, user_of, normalized, token_digest, password_matches, login, register,
  current_principal, check_session, logout,
}
use mini_vault.Auth.Lockout.{run, failed, five_failures_lock}
use mini_vault.Auth.LockState.{HasLockState, login-HasLockState}
use mini_vault.Auth.Unlocking.{login-lock_ends}
use mini_vault.Auth.Sessions.{session_row, principal-login, current_principal_sound, logout_revokes}
use mini_vault.Auth.Registration.{login-register}
use mini_vault.Utils.{validate_passphrase}
use mini_vault.Samples.{empty_world, alice, alice_user, auth_world, key_bytes}

abbrev wrong : Text
wrong = text "WrongPassword@123"

abbrev wrongs : List (Time × Text)
wrongs = (1, wrong) ∷ (2, wrong) ∷ (3, wrong) ∷ (4, wrong) ∷ []

abbrev right : Text
right = text "StrongPassword@123"

five_failures_lock_example :
    let w' = (login sample 60 [] 5 alice wrong (run sample 60 [] alice wrongs auth_world)).1 in
    login sample 60 [] 9 alice right w'
    ≡ (app_error account_locked "Account is temporarily locked" 423, w')
unfolding user_of normalized strip same password_matches
five_failures_lock_example =
    five_failures_lock sample 60 [] alice alice_user wrongs 5 9 wrong right auth_world refl
      (refl, (refl, (refl, (refl, tt)))) refl refl (omega arith)

login-lock_ends_example :
    let w' = (login sample 60 [] 5 alice wrong (run sample 60 [] alice wrongs auth_world)).1 in
    let (r, w'') = login sample 60 key_bytes 300000005 alice right w' in
    (r
      ≡ ok (record {
        access_token = (sample).token_urlsafe key_bytes;
        token_type = text "Bearer";
        expires_in = 60;
      }))
    × (user_of (normalized sample alice) w''.stored.users
        ≡ some (failed sample 60 [] alice alice_user 0))
unfolding user_of normalized strip same password_matches
login-lock_ends_example =
    login-lock_ends sample 60 [] key_bytes alice alice_user wrongs 5 300000005 wrong right
      auth_world refl (refl, (refl, (refl, (refl, tt)))) refl refl refl (omega arith) refl

abbrev locked_user : User
locked_user = record alice_user { failed_login_attempts = 5; locked_until = some 100 }

abbrev locked_world : World
locked_world = record auth_world { work = record (auth_world).work { users = locked_user ∷ [] } }

login-HasLockState_example :
    All HasLockState (login sample 60 [] 9 alice wrong auth_world).1.work.users
login-HasLockState_example = login-HasLockState sample 60 [] 9 alice wrong auth_world (omega arith)

principal-login_example :
    let (r, w') = login sample 60 key_bytes 7 alice right auth_world in
    (r ≡ ok (record { access_token = key_bytes; token_type = text "Bearer"; expires_in = 60 }))
    × (current_principal sample 8 (some (text "Bearer", key_bytes)) w' ≡ (
        if ltb 8 (7 + 60 * second)
        then ok (record {
          user = record alice_user { failed_login_attempts = 0; locked_until = none };
          session = session_row sample 60 key_bytes 7 1 (auth_world).work;
        })
        else app_error token_expired "Session expired" 401))
unfolding user_of normalized strip same password_matches
principal-login_example =
    principal-login sample sample-IsSound 60 key_bytes 7 8 alice right (text "Bearer") alice_user
      auth_world (tt, tt) refl refl refl refl refl refl

abbrev session : Session
session = record {
  id = 4;
  user_id = 1;
  token_hash = text "token";
  expires_at = 900;
  revoked_at = none;
}

abbrev session_world : World
session_world = record auth_world { work = record (auth_world).work { sessions = session ∷ [] } }

abbrev who : Principal
who = record { user = alice_user; session = session }

authenticated :
    current_principal sample 8 (some (text "Bearer", text "token")) session_world ≡ ok who
unfolding current_principal check_session token_digest same
authenticated = refl

current_principal_sound_example :
    (find? (λ (s : Session). same s.token_hash (token_digest sample (text "token"))) (session ∷ [])
      ≡ some session)
    × ((session).token_hash ≡ token_digest sample (text "token"))
    × ((session).revoked_at ≡ none)
    × (8 < (session).expires_at)
    × (find? (λ (x : User). x.id == (session).user_id) (alice_user ∷ []) ≡ some alice_user)
current_principal_sound_example =
    current_principal_sound sample 8 (text "Bearer") (text "token") who session_world authenticated

logout_revokes_example :
    current_principal sample 9
      (some (text "BEARER", text "token"))
      (logout 8 session session_world).1
    ≡ app_error unauthenticated "Invalid session" 401
logout_revokes_example =
    logout_revokes sample 8 9 (text "Bearer") (text "token") (text "BEARER") who session_world
      authenticated refl

login-register_example :
    let (r, w') = register sample key_bytes alice right right empty_world in
    (r ≡ ok (normalized sample alice))
    × (w'.stored ≡ w'.work)
    × ((login sample 60 key_bytes 7 alice right w').0
        ≡ ok (record { access_token = key_bytes; token_type = text "Bearer"; expires_in = 60 }))
unfolding validate_passphrase user_of
login-register_example =
    login-register sample sample-IsSound key_bytes key_bytes 60 7 alice right empty_world refl refl
      refl
