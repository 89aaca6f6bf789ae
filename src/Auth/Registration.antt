-- ===== src/Auth/Registration.antt =====
-- AuthService.register: a registered user can log in, and an address is registered once.
use mini_vault.Base.{
  text, ◌≡◌, refl, true, none, some, [], ◌∷◌, ◌++◌, Text, Bytes, arith, ℕ, same, same_refl,
  find?-append-none, find?-none-any,
}
use mini_vault.Errors.{ok}
use mini_vault.Platform.{Platform, IsSound}
use mini_vault.Utils.{validate_passphrase}
use mini_vault.Db.{Time, World, Db, User, next_id}
use mini_vault.Auth.{user_of, normalized, password_matches, register, login}
use mini_vault.Auth.Lockout.{committed}
use mini_vault.Auth.Sessions.{FreshToken, login-right}

abbrev pub user_row : Platform → Bytes → Text → Text → Db → User
user_row p salt email password db = record {
  id = next_id (λ (u : User). u.id) db.users;
  email = normalized p email;
  password_hash = p.hash_password salt password;
  failed_login_attempts = 0;
  locked_until = none;
}

abbrev pub registered : Platform → Bytes → Text → Text → Db → Db
registered p salt email password db = record db {
  users = db.users ++ user_row p salt email password db ∷ [];
}

module _ (p : Platform) (salt : Bytes) (email password : Text) (w : World) where
  pub register-new :
      validate_passphrase p password ≡ ok tt
      → user_of (normalized p email) w.work.users ≡ none
      → register p salt email password password w
        ≡ (ok (normalized p email), committed w (registered p salt email password w.work))
  unfolding register user_of
  register-new strong absent =
      let unclashed =
        find?-none-any (λ (u : User). same u.email (normalized p email)) w.work.users absent in
      ground (arith, unclashed, same_refl password)

  registered-user :
      user_of (normalized p email) w.work.users ≡ none
      → user_of (normalized p email) (registered p salt email password w.work).users
        ≡ some (user_row p salt email password w.work)
  unfolding user_of
  registered-user absent =
      let last =
        find?-append-none (λ (u : User). same u.email (normalized p email)) w.work.users
          (user_row p salt email password w.work ∷ []) absent in
      ground (arith, last, same_refl (normalized p email))

  pub matches-registered :
      IsSound p → password_matches p (p.hash_password salt password) password ≡ ok true
  unfolding password_matches
  matches-registered sound = rw (password_matches, sound.password-round salt password) refl

-- A passphrase that passes the checks, an address that is not registered, and no session of the
-- token's digest: `register` succeeds and is committed, and logging in with that passphrase
-- then succeeds and answers the token.
pub login-register :
    (p : Platform)
    → IsSound p
    → (salt entropy : Bytes) (ttl : ℕ) (now : Time) (email password : Text) (w : World)
    → validate_passphrase p password ≡ ok tt
    → user_of (normalized p email) w.work.users ≡ none
    → FreshToken p entropy w.work
    → let (r, w') = register p salt email password password w in
      (r ≡ ok (normalized p email))
      × (w'.stored ≡ w'.work)
      × ((login p ttl entropy now email password w').0
          ≡ ok (record {
            access_token = p.token_urlsafe entropy;
            token_type = text "Bearer";
            expires_in = ttl;
          }))
login-register p sound salt entropy ttl now email password w strong absent fresh =
    let done = register-new p salt email password w strong absent in
    let row = user_row p salt email password w.work in
    let w' = committed w (registered p salt email password w.work) in
    let entered =
      login-right p ttl entropy now email password row w'
        (registered-user p salt email password w absent) refl
        (matches-registered p salt email password w sound) fresh in
    rw done (refl, refl, rw entered refl)

-- Whatever passphrase and confirmation come with it, registering an address that is registered
-- changes nothing.
pub register_once :
    (p : Platform) (salt : Bytes) (email password again : Text) (u : User) (w : World)
    → user_of (normalized p email) w.work.users ≡ some u
    → (register p salt email password again w).1 ≡ w
unfolding register
register_once p salt email password again u w taken = ground arith
