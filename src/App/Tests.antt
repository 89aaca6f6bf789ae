-- ===== src/App/Tests.antt =====
-- The application at concrete inputs.
use mini_vault.Base.{
  same, sym, starts_with, contains, ◌≡◌, refl, true, none, some, [], Text, text, arith, show, ◌∷◌,
  false,
}
use mini_vault.Errors.{ok, app_error, vault_locked, validation_error}
use mini_vault.Platform.Sample.{sample, sample-IsSound}
use mini_vault.PyInt.{int, strip}
use mini_vault.Db.{World}
use mini_vault.Http.{Endpoint, failure, success_response}
use mini_vault.Schemas.{EmailStr, normalize_email}
use mini_vault.Utils.{validate_path, validate_passphrase}
use mini_vault.Vault.{unlocked, unlock, require_dek, init, locked}
use mini_vault.Vault.Lifecycle.{unlock-init}
use mini_vault.Audit.{valid, audit_verify}
use mini_vault.Auth.{current_principal, check_session, token_digest, normalized, user_of}
use mini_vault.Router.{kv_write, user_register, user_login}
use mini_vault.App.{default_settings, request_size_limit, start_up, shut_down, too_large, serve}
use mini_vault.App.Limits.{request_size_limit_bounds}
use mini_vault.App.Startup.{start_up_ready, unlock-start_up}
use mini_vault.App.Accounts.{login-register_served}
use mini_vault.App.Secrets.{ServedBack, kv_read-kv_write}
use mini_vault.Kv.Valid.{IsKvValid}
use mini_vault.Samples.{
  codec, path, signed_world, signed_request, alice_principal, empty_world, alice, key_bytes, salt,
  nonce, master,
}

abbrev done : Endpoint Text
done w = (success_response (text "done") 200, w)

request_size_limit_bounds_example :
    (request_size_limit sample default_settings (some (show 1056769)) done empty_world
      ≡ (failure validation_error "Request is too large" 413, empty_world))
    × (request_size_limit sample default_settings (some (text "ten")) done empty_world
        ≡ (failure validation_error "Request is too large" 413, empty_world))
    × (request_size_limit sample default_settings (some (b'-' ∷ show 1056769)) done empty_world
        ≡ done empty_world)
    × (request_size_limit sample default_settings (some []) done empty_world ≡ done empty_world)
    × (request_size_limit sample default_settings none done empty_world ≡ done empty_world)
unfolding show int
request_size_limit_bounds_example =
    request_size_limit_bounds sample sample-IsSound default_settings 1056769 (text "ten") done
      empty_world (omega arith) refl (omega arith)

-- A separator of U+001C is white space for `strip` and not for `int`; a blank is for both.
int_separator :
    (strip sample (28 ∷ text "5") ≡ text "5")
    × (int sample (28 ∷ text "5") ≡ none)
    × (int sample (text " 5 ") ≡ some (false, 5))
unfolding strip int
int_separator = (refl, refl, refl)

start_up_ready_example :
    let u = start_up sample (some (true, true)) empty_world in
    (require_dek u ≡ app_error vault_locked "Vault is locked" 423)
    × (audit_verify sample u.stored.audit_logs ≡ valid)
    × (u.work ≡ u.stored)
    × (record u.stored { audit_logs = [] } ≡ record (empty_world).stored { audit_logs = [] })
start_up_ready_example = start_up_ready sample true true empty_world tt (λ e. (tt, tt))

-- pydantic's check, taken as passing every address.
abbrev any_address : EmailStr
any_address = record { parse = λ s. some s }

abbrev right : Text
right = text "StrongPassword@123"

abbrev initialized : World
initialized = (init sample salt key_bytes nonce master master empty_world).1

initialized_opens :
    let (r, w') = init sample salt key_bytes nonce master master empty_world in
    let (s, w'') = unlock sample master w' in
    (r ≡ ok (record { initialized = true; status = locked }))
    × (w'.dek ≡ none)
    × (w'.stored ≡ w'.work)
    × (s ≡ ok unlocked)
    × (require_dek w'' ≡ ok key_bytes)
unfolding validate_passphrase
initialized_opens =
    unlock-init sample sample-IsSound salt key_bytes nonce master empty_world refl refl refl refl
      refl

unlock-start_up_example :
    let u = (unlock sample master initialized).1 in
    let restarted = start_up sample none (shut_down sample u) in
    (require_dek restarted ≡ app_error vault_locked "Vault is locked" 423)
    × ((unlock sample master restarted).0 ≡ ok unlocked)
    × (require_dek (unlock sample master restarted).1 ≡ require_dek u)
unlock-start_up_example =
    unlock-start_up sample master none initialized (initialized_opens).2 (initialized_opens).3

login-register_served_example :
    let (r, w') =
      serve sample default_settings none 201
        (user_register sample any_address key_bytes
          (record { email = text " A@x.io"; passphrase = right; confirm_passphrase = right }))
        empty_world in
    (r ≡ success_response (normalized sample (normalize_email sample alice)) 201)
    × ((serve sample default_settings none 200
          (user_login sample any_address 1800 key_bytes 7
            (record { email = alice; passphrase = right }))
          w').0
        ≡ success_response
            (record {
              access_token = (sample).token_urlsafe key_bytes;
              token_type = text "Bearer";
              expires_in = 1800;
            })
            200)
unfolding validate_passphrase user_of normalize_email strip too_large
login-register_served_example =
    login-register_served sample sample-IsSound any_address default_settings none key_bytes
      key_bytes 7 (text " A@x.io") alice (normalize_email sample alice) right empty_world refl refl
      refl refl (omega arith) refl refl

signed :
    current_principal sample 8 (some (text "Bearer", text "token")) signed_world
    ≡ ok alice_principal
unfolding current_principal check_session token_digest same
signed = refl

signed-IsKvValid : IsKvValid (signed_world).stored
signed-IsKvValid = record {
  unique_ids = tt;
  unique_paths = tt;
  owned = tt;
  started = tt;
  numbered = λ id. tt;
  adopted = λ id unused. refl;
}

kv_read-kv_write_example :
    ServedBack sample codec default_settings none signed_request path (text "{}") (
      serve sample default_settings none 200
        (kv_write sample codec signed_request nonce 5 path (text "{}"))
        signed_world)
unfolding require_dek too_large validate_path starts_with contains
kv_read-kv_write_example =
    kv_read-kv_write sample sample-IsSound codec (record { json-round = λ v b e. sym e })
      default_settings none signed_request signed_request alice_principal nonce key_bytes
      (text "{}") 5 path (text "{}") signed_world refl signed signed signed-IsKvValid
      (text "a", text "x.io", refl, omega arith, omega arith) refl refl refl (omega arith) refl refl
