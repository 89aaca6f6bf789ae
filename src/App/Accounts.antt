-- ===== src/App/Accounts.antt =====
-- Registration and login, from the bodies to the answers.
use mini_vault.Base.{
  text, ℕ, ◌≡◌, ◌≤◌, refl, ap, false, Option, none, some, Text, Bytes, arith, length,
}
use mini_vault.Errors.{ok}
use mini_vault.Platform.{Platform, IsSound}
use mini_vault.Db.{World, Action, Time, with_session}
use mini_vault.Http.{respond, success_response, answered}
use mini_vault.Schemas.{EmailStr, normalize_email, max_passphrase, register_request, login_request}
use mini_vault.Utils.{validate_passphrase}
use mini_vault.Auth.{user_of, normalized}
use mini_vault.Auth.Registration.{register-new, login-register}
use mini_vault.Auth.Sessions.{FreshToken}
use mini_vault.Router.{user_register, user_login}
use mini_vault.App.{Settings, too_large, request_size_limit, serve}

module _ (p : Platform) (m : EmailStr) where
  pub register_request-ok :
      (email address password : Text)
      → m.parse (normalize_email p email) ≡ some address
      → length password ≤ max_passphrase
      → register_request p m
          (record { email = email; passphrase = password; confirm_passphrase = password })
        ≡ ok (record { email = address; passphrase = password; confirm_passphrase = password })
  unfolding register_request normalize_email
  register_request-ok email address password parsed short = ground arith

  pub login_request-ok :
      (email address password : Text)
      → m.parse (normalize_email p email) ≡ some address
      → length password ≤ max_passphrase
      → login_request p m (record { email = email; passphrase = password })
        ≡ ok (record { email = address; passphrase = password })
  unfolding login_request normalize_email
  login_request-ok email address password parsed short = ground arith

pub passed :
    (p : Platform) {A : Type 0} (st : Settings) (header : Option Text) (status : ℕ) (m : Action A)
    (w : World)
    → too_large p st header ≡ false
    → serve p st header status m w ≡ answered status m w
unfolding serve request_size_limit
passed p st header status m w passes = rw (request_size_limit, passes) refl

-- Two requests within the size limit, for two spellings of an address with one normal form, with
-- a passphrase of at most 1024 characters that passes the checks, an address that is not
-- registered, and no session of the token's digest: registering answers 201 with the address,
-- and logging in after it, under the other spelling, answers 200 with the token.
pub login-register_served :
    (p : Platform)
    → IsSound p
    → (m : EmailStr) (st : Settings) (header : Option Text) (salt entropy : Bytes) (now : Time)
      (email other address password : Text) (w : World)
    → too_large p st header ≡ false
    → m.parse (normalize_email p email) ≡ some address
    → normalize_email p other ≡ normalize_email p email
    → validate_passphrase p password ≡ ok tt
    → length password ≤ max_passphrase
    → user_of (normalized p address) w.stored.users ≡ none
    → FreshToken p entropy w.stored
    → let (r, w') =
        serve p st header 201
          (user_register p m salt
            (record { email = email; passphrase = password; confirm_passphrase = password }))
          w in
      (r ≡ success_response (normalized p address) 201)
      × ((serve p st header 200
            (user_login p m st.session_ttl_seconds entropy now
              (record { email = other; passphrase = password }))
            w').0
          ≡ success_response
              (record {
                access_token = p.token_urlsafe entropy;
                token_type = text "Bearer";
                expires_in = st.session_ttl_seconds;
              })
              200)
unfolding answered respond with_session user_register user_login
login-register_served p sound m st header salt entropy now email other address password w passes
      parsed alike strong short absent fresh =
    let o : World = record w { work = w.stored } in
    let done = register-new p salt address password o strong absent in
    let (_, _, entered) =
      login-register p sound salt entropy st.session_ttl_seconds now address password o strong
        absent fresh in
    rw
      (
        passed p st header 201 _ w passes,
        passed p st header 200 _ _ passes,
        register_request-ok p m email address password parsed short,
        login_request-ok p m other address password (rw alike parsed) short,
        done,
      )
      (refl, ap (respond 200) (rw done at entered))
