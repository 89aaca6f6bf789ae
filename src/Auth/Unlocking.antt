-- ===== src/Auth/Unlocking.antt =====
-- AuthService.login: a lock ends.
use mini_vault.Base.{
  text, ℕ, ◌+◌, ◌≤◌, ◌<◌, ◌≡◌, refl, sym, ◌∙◌, ap, subst, false, true, none, some, List, [], ◌∷◌,
  Text, Bytes, arith, length, same, find?-none-any,
}
use mini_vault.Errors.{Result, ok}
use mini_vault.Platform.{Platform}
use mini_vault.Db.{Time, World, User, Session}
use mini_vault.Auth.{
  LoginAnswer, lockout_time, max_failures, user_of, normalized, password_matches, token_digest,
  open_session, login_user, login,
}
use mini_vault.Auth.Lockout.{
  with_lockout, committed, run, failed, AllWrong, login-wrong, below_limit, user_of-with_lockout,
  run-counts,
}
use mini_vault.Auth.Sessions.{FreshToken}

module _ (p : Platform) (ttl : ℕ) (entropy : Bytes) (email : Text) where
  -- A run of wrong passwords that stays below the limit opens no session.
  run-sessions :
      (u : User) (n : ℕ) (xs : List (Time × Text)) (w : World)
      → user_of (normalized p email) w.work.users ≡ some (failed p ttl entropy email u n)
      → AllWrong p ttl entropy email u.password_hash xs
      → n + length xs < max_failures
      → (run p ttl entropy email xs w).work.sessions ≡ w.work.sessions
  run-sessions u n [] w found wrong few = refl
  run-sessions u n ((now, password) ∷ xs) w found wrong few =
      let step =
        login-wrong p ttl entropy email now password (failed p ttl entropy email u n) w found refl
          wrong.0 in
      let there =
        user_of-with_lockout p ttl entropy email (n + 1) none (failed p ttl entropy email u n)
          w.work found in
      let rest =
        run-sessions u (n + 1) xs (committed w (with_lockout u.id (n + 1) none w.work)) there
          wrong.1 (omega arith) in
      let step' = rw (below_limit p ttl entropy email now (n + 1) (omega arith)) at step in
      subst
        (λ (r : Result LoginAnswer × World).
          (run p ttl entropy email xs r.1).work.sessions ≡ w.work.sessions)
        (sym step') rest

  -- The right password, once the lock has run out.
  login-expired_right :
      (now until : Time) (password : Text) (u : User) (w : World)
      → user_of (normalized p email) w.work.users ≡ some u
      → u.locked_until ≡ some until
      → until ≤ now
      → password_matches p u.password_hash password ≡ ok true
      → FreshToken p entropy w.work
      → let (r, w') = login p ttl entropy now email password w in
        (r
          ≡ ok (record {
            access_token = p.token_urlsafe entropy;
            token_type = text "Bearer";
            expires_in = ttl;
          }))
        × (user_of (normalized p email) w'.stored.users
            ≡ some (record u { failed_login_attempts = 0; locked_until = none }))
  unfolding login login_user open_session
  login-expired_right now until password u w found locked late right fresh =
      let unclashed =
        find?-none-any
          (λ (s : Session). same s.token_hash (token_digest p (p.token_urlsafe entropy)))
          w.work.sessions fresh in
      let reset = with_lockout u.id 0 none w.work in
      let once = user_of-with_lockout p ttl entropy email 0 none u w.work found in
      let again =
        user_of-with_lockout p ttl entropy email 0 none
          (record u { failed_login_attempts = 0; locked_until = none }) reset once in
      ground (arith, unclashed)

-- From an account with no failures and no lock, four wrong passwords in a row and a fifth at
-- `now`, which lock it: at any time from five minutes after `now` on, the right password, with no
-- session of its token's digest, is answered with the token, and the account has no failures and
-- no lock.
pub login-lock_ends :
    (p : Platform) (ttl : ℕ) (drawn entropy : Bytes) (email : Text) (u : User)
    (xs : List (Time × Text)) (now later : Time) (fifth password : Text) (w : World)
    → user_of (normalized p email) w.work.users ≡ some (failed p ttl drawn email u 0)
    → AllWrong p ttl drawn email u.password_hash xs
    → length xs ≡ 4
    → password_matches p u.password_hash fifth ≡ ok false
    → password_matches p u.password_hash password ≡ ok true
    → now + lockout_time ≤ later
    → FreshToken p entropy w.work
    → let w' = (login p ttl drawn now email fifth (run p ttl drawn email xs w)).1 in
      let (r, w'') = login p ttl entropy later email password w' in
      (r
        ≡ ok (record {
          access_token = p.token_urlsafe entropy;
          token_type = text "Bearer";
          expires_in = ttl;
        }))
      × (user_of (normalized p email) w''.stored.users ≡ some (failed p ttl drawn email u 0))
login-lock_ends p ttl drawn entropy email u xs now later fifth password w found wrong four
      fifth_wrong right late fresh =
    let w4 = run p ttl drawn email xs w in
    let counted = run-counts p ttl drawn email u 0 xs w found wrong (omega arith) in
    let at_four : user_of (normalized p email) (w4).work.users
        ≡ some (failed p ttl drawn email u 4) =
      counted ∙ ap (λ m. some (failed p ttl drawn email u m)) (omega arith) in
    let step =
      login-wrong p ttl drawn email now fifth (failed p ttl drawn email u 4) w4 at_four refl
        fifth_wrong in
    let there =
      user_of-with_lockout p ttl drawn email 5 (some (now + lockout_time))
        (failed p ttl drawn email u 4) (w4).work at_four in
    let sessions = run-sessions p ttl drawn email u 0 xs w found wrong (omega arith) in
    rw step (
      login-expired_right p ttl entropy email later (now + lockout_time) password _ _ there refl
        late right (rw sessions fresh))
