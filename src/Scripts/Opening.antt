-- ===== src/Scripts/Opening.antt =====
-- The requests that set the vault up and open it, and those that register a user and log one in.
use mini_vault.Base.{
  ◌≤◌, ◌≡◌, refl, Bool, true, false, not, some, none, [], ◌∷◌, ◌++◌, Text, Bytes, arith, text,
  length, IsDigit, same_refl, any, ltb, ℕ,
}
use mini_vault.Errors.{ok}
use mini_vault.Platform.{Platform, IsSound, default_params}
use mini_vault.PyInt.{strip}
use mini_vault.Utils.{validate_passphrase, is_digit, is_upper, is_lower, is_alnum}
use mini_vault.Db.{World, Db, Time, User, next_id, VaultConfig, with_session}
use mini_vault.Schemas.{EmailStr, max_passphrase, normalize_email}
use mini_vault.Vault.{locked, unlocked, init, unwrap_dek, dek_aad}
use mini_vault.Vault.Lifecycle.{unlock_opens}
use mini_vault.Auth.{normalized, user_of, password_matches}
use mini_vault.Auth.Lockout.{committed}
use mini_vault.Auth.Registration.{register-new}
use mini_vault.Auth.Sessions.{FreshToken, logged_in, login-right}
use mini_vault.Kv.{JsonCodec}
use mini_vault.Router.{vault_init, vault_unlock, user_register, user_login}
use mini_vault.App.Accounts.{register_request-ok, login_request-ok}
use mini_vault.Scripts.{Fields, Run, new_process, new_database, master, alice_pw, bob_pw}
use mini_vault.Scripts.Setting.{IsRun, alice_user, bob_user}

any-middle : (f : ℕ → Bool) (s t : Text) (c : ℕ) → f c ≡ true → any f (s ++ c ∷ t) ≡ true
any-middle f [] t c hit = rw hit refl
any-middle f (x ∷ s) t c hit = ground (arith, any-middle f s t c hit)

-- A passphrase with a digit in its place, whatever else is a digit in Unicode.
strong :
    (p : Platform)
    → IsSound p
    → (before after : Text) (c : ℕ) → IsDigit c
    → let pw = before ++ c ∷ after in
      ltb (length pw) 12 ≡ false
      → any is_upper pw ≡ true
      → any is_lower pw ≡ true
      → any (λ c. not (is_alnum c)) pw ≡ true
      → validate_passphrase p pw ≡ ok tt
unfolding validate_passphrase
strong p sound before after c digit long upper lower special =
    let value = sound.decimal_ascii c digit in
    let digits = any-middle (is_digit p) before after c (rw (is_digit, value) refl) in
    rw (long, upper, lower, digits, special) refl

module _ (p : Platform) (sound : IsSound p) where
  pub master-strong : validate_passphrase p master ≡ ok tt
  master-strong =
      strong p sound (text "Sample-Master-Passphrase-") (text "026!") b'2' (omega arith) refl refl
        refl refl

  pub alice_pw-strong : validate_passphrase p alice_pw ≡ ok tt
  alice_pw-strong =
      strong p sound (text "AliceSample@") (text "026") b'2' (omega arith) refl refl refl refl

  pub bob_pw-strong : validate_passphrase p bob_pw ≡ ok tt
  bob_pw-strong =
      strong p sound (text "BobSample@") (text "026!!") b'2' (omega arith) refl refl refl refl

  init-new :
      (salt dek nonce : Bytes) (pw : Text) (w : World)
      → w.work.vault_config ≡ []
      → validate_passphrase p pw ≡ ok tt
      → length salt ≡ 16
      → length dek ≡ 32
      → length nonce ≡ 12
      → (config : VaultConfig) × (init p salt dek nonce pw pw w ≡ (
        ok (record { initialized = true; status = locked }),
        record w {
          stored = record w.work { vault_config = config ∷ [] };
          work = record w.work { vault_config = config ∷ [] };
          dek = none;
        },
      ))
        × (unwrap_dek p config pw ≡ ok dek)
  unfolding init unwrap_dek
  init-new salt dek nonce pw w fresh strong_pw hs hd hn =
      let (k, ek, lk) = sound.argon2-length (p.encode pw) salt hs in
      let (c, ec, dc, lc) = sound.aes-round k nonce dek dek_aad lk hn (omega arith) (omega arith) in
      (
        record {
          id = 1;
          kdf_algorithm = text "ARGON2ID";
          kdf_salt_b64 = p.b64encode salt;
          kdf_parameters_json = p.dumps_params default_params;
          encrypted_dek_b64 = p.b64encode c;
          dek_nonce_b64 = p.b64encode nonce;
        },
        ground (arith, same_refl pw),
        ground (
          arith,
          sound.b64-round salt,
          sound.b64-round nonce,
          sound.b64-round c,
          sound.params-round default_params,
        ),
      )

module _ (p : Platform) (run : Run) where
  abbrev pub prepared : VaultConfig → World
  prepared config =
      let db : Db = record new_database {
        vault_config = config ∷ [];
        users = alice_user p run ∷ bob_user p run ∷ [];
      } in
      record { stored = db; work = db; dek = some (run.random 0 32) }

  abbrev pub initialized : VaultConfig → World
  initialized config =
      let db : Db = record new_database { vault_config = config ∷ [] } in
      record { stored = db; work = db; dek = none }

module _ (p : Platform) (sound : IsSound p) (m : EmailStr) (j : JsonCodec Fields) (run : Run)
    (suits : IsRun p m j run) where
  pub vault_init-new :
      (config : VaultConfig) × (vault_init p
          (run.random 0 16)
          (run.random 0 32)
          (run.random 0 12)
          (record { master_passphrase = master; confirm_master_passphrase = master })
          new_process
        ≡ (ok (record { initialized = true; status = locked }), initialized p run config))
      × (unwrap_dek p config master ≡ ok (run.random 0 32))
  unfolding vault_init with_session
  vault_init-new =
      let (config, done, opens) =
        init-new p sound (run.random 0 16) (run.random 0 32) (run.random 0 12) master new_process
          refl (master-strong p sound) (suits.drawn 0 16) (suits.drawn 0 32) (suits.drawn 0 12) in
      (config, rw done refl, opens)

  pub vault_unlock-new :
      (config : VaultConfig)
      → unwrap_dek p config master ≡ ok (run.random 0 32)
      → vault_unlock p (record { master_passphrase = master }) (initialized p run config)
        ≡ (ok unlocked, record (initialized p run config) { dek = some (run.random 0 32) })
  unfolding vault_unlock with_session
  vault_unlock-new config opens =
      rw (unlock_opens p master (initialized p run config) config [] (run.random 0 32) refl opens)
        refl

module _ (p : Platform) (m : EmailStr) (email pw : Text) (normal : p.lower (strip p email) ≡ email)
    (parsed : m.parse email ≡ some email) (short : length pw ≤ max_passphrase) (w : World) where
  abbrev pub new_user : Bytes → User
  new_user salt = record {
    id = next_id (λ (u : User). u.id) w.stored.users;
    email = email;
    password_hash = p.hash_password salt pw;
    failed_login_attempts = 0;
    locked_until = none;
  }

  pub user_register-new :
      (salt : Bytes)
      → validate_passphrase p pw ≡ ok tt
      → user_of email w.stored.users ≡ none
      → user_register p m salt
          (record { email = email; passphrase = pw; confirm_passphrase = pw })
          w
        ≡ (ok email, committed w (record w.stored { users = w.stored.users ++ new_user salt ∷ [] }))
  unfolding user_register with_session normalized normalize_email
  user_register-new salt strong_pw absent =
      let done =
        register-new p salt email pw (record w { work = w.stored }) strong_pw (rw normal absent) in
      rw
        (
          register_request-ok p m email email pw (rw (normalize_email, normal) parsed) short,
          rw (normalized, normal) at done,
        )
        refl

  pub user_login-right :
      (ttl : ℕ) (entropy : Bytes) (now : Time) (u : User)
      → user_of email w.stored.users ≡ some u
      → u.locked_until ≡ none
      → password_matches p u.password_hash pw ≡ ok true
      → FreshToken p entropy w.stored
      → user_login p m ttl entropy now (record { email = email; passphrase = pw }) w ≡ (
        ok (record {
          access_token = p.token_urlsafe entropy;
          token_type = text "Bearer";
          expires_in = ttl;
        }),
        committed w (logged_in p ttl entropy now u w.stored),
      )
  unfolding user_login with_session normalized normalize_email
  user_login-right ttl entropy now u found free right fresh =
      let done =
        login-right p ttl entropy now email pw u (record w { work = w.stored }) (rw normal found)
          free right fresh in
      rw (login_request-ok p m email email pw (rw (normalize_email, normal) parsed) short, done)
        refl
