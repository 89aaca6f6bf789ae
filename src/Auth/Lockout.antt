-- ===== src/Auth/Lockout.antt =====
-- Five wrong passwords in a row lock the account for five minutes (AuthService.login).
use mini_vault.Base.{
  ℕ, suc, ◌+◌, ◌≤◌, ◌<◌, ◌≡◌, refl, sym, ◌∙◌, ap, subst, false, Option, none, some, List, [], ◌∷◌,
  Text, Bytes, arith, length, ◌==◌, same, update, All, find?-update,
}
use mini_vault.Errors.{Result, ok, app_error, account_locked, invalid_credentials}
use mini_vault.Platform.{Platform}
use mini_vault.Db.{Time, World, Db, User}
use mini_vault.Auth.{
  LoginAnswer, user_of, normalized, lock_after, lockout_time, max_failures, password_matches,
  fail_login, login_user, login,
}

-- A world with the lockout columns of one user assigned, all committed.
abbrev pub with_lockout : ℕ → ℕ → Option Time → Db → Db
with_lockout id attempts until db = record db {
  users =
      update (λ u. u.id == id)
        (λ u. record u { failed_login_attempts = attempts; locked_until = until }) db.users;
}

abbrev pub committed : World → Db → World
committed w db = record w { stored = db; work = db }

module _ (p : Platform) (ttl : ℕ) (entropy : Bytes) (email : Text) where
  -- While the lock holds, a login is refused whatever the password, and changes nothing.
  pub login-locked :
      (now until : Time) (password : Text) (u : User) (w : World)
      → user_of (normalized p email) w.work.users ≡ some u
      → u.locked_until ≡ some until
      → now < until
      → login p ttl entropy now email password w
        ≡ (app_error account_locked "Account is temporarily locked" 423, w)
  unfolding login login_user
  login-locked now until password u w found locked early = ground arith

  -- A wrong password on an account that is not locked.
  pub login-wrong :
      (now : Time) (password : Text) (u : User) (w : World)
      → user_of (normalized p email) w.work.users ≡ some u
      → u.locked_until ≡ none
      → password_matches p u.password_hash password ≡ ok false
      → login p ttl entropy now email password w ≡ (
        app_error invalid_credentials "Invalid credentials" 401,
        committed w (
            with_lockout u.id
              (u.failed_login_attempts + 1)
              (lock_after now (u.failed_login_attempts + 1))
              w.work),
      )
  unfolding login login_user fail_login
  login-wrong now password u w found unlocked wrong = ground arith

  pub user_of-with_lockout :
      (attempts : ℕ) (until : Option Time) (u : User) (db : Db)
      → user_of (normalized p email) db.users ≡ some u
      → user_of (normalized p email) (with_lockout u.id attempts until db).users
        ≡ some (record u { failed_login_attempts = attempts; locked_until = until })
  unfolding user_of
  user_of-with_lockout attempts until u db found = ground (
    arith,
    find?-update (λ (x : User). same x.email (normalized p email)) (λ x. x.id == u.id)
        (λ x. record x { failed_login_attempts = attempts; locked_until = until }) (λ x. refl)
        db.users u found,
  )

  -- The world after a run of logins, each at its time with its password.
  abbrev pub run : List (Time × Text) → World → World
  run [] w = w
  run ((now, password) ∷ rest) w = run rest (login p ttl entropy now email password w).1

  abbrev pub AllWrong : Text → List (Time × Text) → Type 0
  AllWrong hash = All (λ (a : Time × Text). password_matches p hash a.1 ≡ ok false)

  abbrev pub failed : User → ℕ → User
  failed u n = record u { failed_login_attempts = n; locked_until = none }

  pub below_limit : (now : Time) (n : ℕ) → n < max_failures → lock_after now n ≡ none
  below_limit now n h = ground arith

  -- From `n` failures, wrong passwords that leave the count below five only raise the count.
  pub run-counts :
      (u : User) (n : ℕ) (xs : List (Time × Text)) (w : World)
      → user_of (normalized p email) w.work.users ≡ some (failed u n)
      → AllWrong u.password_hash xs
      → n + length xs < max_failures
      → user_of (normalized p email) (run xs w).work.users ≡ some (failed u (n + length xs))
  run-counts u n [] w found wrong few = found ∙ ap (λ m. some (failed u m)) (omega arith)
  run-counts u n ((now, password) ∷ xs) w found wrong few =
      let step = login-wrong now password (failed u n) w found refl wrong.0 in
      let none_yet = below_limit now (n + 1) (omega arith) in
      let there = user_of-with_lockout (n + 1) none (failed u n) w.work found in
      let rest =
        run-counts u (n + 1) xs (committed w (with_lockout u.id (n + 1) none w.work)) there wrong.1
          (omega arith) in
      let step' = rw none_yet at step in
      subst
        (λ (r : Result LoginAnswer × World).
          user_of (normalized p email) (run xs r.1).work.users
          ≡ some (failed u (n + suc (length xs))))
        (sym step') (rest ∙ ap (λ m. some (failed u m)) (omega arith))

  -- From an account with no failures and no lock: after four wrong passwords in a row and a
  -- fifth at `now`, every login before `now` plus five minutes is refused as locked, whatever
  -- its password, and changes nothing.
  pub five_failures_lock :
      (u : User) (xs : List (Time × Text)) (now later : Time) (fifth any_password : Text)
      (w : World)
      → user_of (normalized p email) w.work.users ≡ some (failed u 0)
      → AllWrong u.password_hash xs
      → length xs ≡ 4
      → password_matches p u.password_hash fifth ≡ ok false
      → later < now + lockout_time
      → let w' = (login p ttl entropy now email fifth (run xs w)).1 in
        login p ttl entropy later email any_password w'
        ≡ (app_error account_locked "Account is temporarily locked" 423, w')
  five_failures_lock u xs now later fifth any_password w found wrong four fifth_wrong early =
      let counted = run-counts u 0 xs w found wrong (omega arith) in
      let at_four : user_of (normalized p email) (run xs w).work.users ≡ some (failed u 4) =
        counted ∙ ap (λ m. some (failed u m)) (omega arith) in
      let step = login-wrong now fifth (failed u 4) (run xs w) at_four refl fifth_wrong in
      let there =
        user_of-with_lockout 5 (some (now + lockout_time)) (failed u 4) (run xs w).work at_four in
      rw step (login-locked later (now + lockout_time) any_password _ _ there refl early)

  -- Once the lock has run out, a wrong password counts as the first of a new row: it leaves one
  -- failure and no lock, and this is committed.
  pub login-expired_wrong :
      (now until : Time) (password : Text) (u : User) (w : World)
      → user_of (normalized p email) w.work.users ≡ some u
      → u.locked_until ≡ some until
      → until ≤ now
      → password_matches p u.password_hash password ≡ ok false
      → let (r, w') = login p ttl entropy now email password w in
        (r ≡ app_error invalid_credentials "Invalid credentials" 401)
        × (user_of (normalized p email) w'.stored.users ≡ some (failed u 1))
  unfolding login login_user fail_login
  login-expired_wrong now until password u w found locked late wrong =
      let reset = with_lockout u.id 0 none w.work in
      let once = user_of-with_lockout 0 none u w.work found in
      let again = user_of-with_lockout 1 none (failed u 0) reset once in ground arith
