-- ===== src/Auth/LockState.antt =====
-- AuthService.login: the two lockout columns of every user stay in step.
use mini_vault.Base.{
  ℕ, ◌+◌, ◌<◌, ◌≡◌, refl, Option, none, some, Text, Bytes, arith, leb, ◌==◌, same, All, All-update,
  ◌⊎◌, inl, inr, Bool-cases, Option-cases, find?-All,
}
use mini_vault.Errors.{app_error, invalid_credentials, Result-cases}
use mini_vault.Platform.{Platform}
use mini_vault.Db.{Time, World, Db, User}
use mini_vault.Auth.{
  user_of, normalized, set_lockout, check_lock, after_lock, lock_after, max_failures,
  password_matches, fail_login, open_session, login_user, login, lift_lock,
}
use mini_vault.Auth.Lockout.{with_lockout}

-- What the two lockout columns of a user may be: fewer than five failures and no lock, or five
-- and a lock.
abbrev pub IsLockState : ℕ → Option Time → Type 0
IsLockState attempts none = attempts < max_failures
IsLockState attempts (some until) = attempts ≡ max_failures

abbrev pub HasLockState : User → Type 0
HasLockState u = IsLockState u.failed_login_attempts u.locked_until

with_lockout-HasLockState :
    (id attempts : ℕ) (until : Option Time) (db : Db)
    → IsLockState attempts until
    → All HasLockState db.users
    → All HasLockState (with_lockout id attempts until db).users
with_lockout-HasLockState id attempts until db fits h =
    All-update (λ u. u.id == id)
      (λ u. record u { failed_login_attempts = attempts; locked_until = until }) HasLockState
      (λ u _. fits) db.users h

next-IsLockState :
    (now : Time) (n : ℕ) → n < max_failures → IsLockState (n + 1) (lock_after now (n + 1))
next-IsLockState now n h = elim (Bool-cases (leb max_failures (n + 1))) [
  | inl full ↦ rw full (ground arith)
  | inr more ↦ rw more (ground arith)
]

after_lock-lt : (u : User) → HasLockState u → after_lock u < max_failures
after_lock-lt u h = elim (Option-cases u.locked_until) [
  | inl free ↦ rw free (rw free at h)
  | inr (until, locked) ↦ rw locked (omega arith)
]

module _ (p : Platform) where
  open_session-users :
      (ttl : ℕ) (entropy : Bytes) (now : Time) (u : User) (w : World)
      → (open_session p ttl entropy now u w).1.work.users ≡ (with_lockout u.id 0 none w.work).users
  unfolding open_session
  open_session-users ttl entropy now u w = ground arith

  fail_login-users :
      (now : Time) (u : User) (w : World)
      → (fail_login p now u w).1.work.users
        ≡ (with_lockout u.id (after_lock u + 1) (lock_after now (after_lock u + 1)) w.work).users
  unfolding fail_login
  fail_login-users now u w = refl

  lift_lock-HasLockState :
      (u : User) (w : World)
      → All HasLockState w.work.users
      → All HasLockState (lift_lock p u w).1.work.users
  unfolding set_lockout
  lift_lock-HasLockState u w h = elim (Option-cases u.locked_until) [
    | inl free ↦ rw free h
    | inr (until, locked) ↦
        rw locked (with_lockout-HasLockState u.id 0 none w.work (ground arith) h)
  ]

  module _ (ttl : ℕ) (entropy : Bytes) (now : Time) (password : Text) (u : User) (w : World) where
    -- How `login` of a user that is there can end.
    login_user_cases :
        ((login_user p ttl entropy now password u w).1 ≡ w)
        ⊎ ((login_user p ttl entropy now password u w).1 ≡ (lift_lock p u w).1)
        ⊎ ((login_user p ttl entropy now password u w).1
            ≡ (open_session p ttl entropy now u (lift_lock p u w).1).1)
        ⊎ ((login_user p ttl entropy now password u w).1
            ≡ (fail_login p now u (lift_lock p u w).1).1)
    unfolding login_user
    login_user_cases = elim (Result-cases (check_lock now u.locked_until)) [
      | inr (e, locked) ↦ inl (ground arith)
      | inl (_, free) ↦ elim (Result-cases (password_matches p u.password_hash password)) [
        | inr (e, broken) ↦ inr (inl (ground arith))
        | inl (right, matched) ↦ elim (Bool-cases right) [
          | inl yes_right ↦ inr (inr (inl (ground arith)))
          | inr wrong ↦ inr (inr (inr (ground arith)))
        ]
      ]
    ]

    login_user-HasLockState :
        HasLockState u
        → All HasLockState w.work.users
        → All HasLockState (login_user p ttl entropy now password u w).1.work.users
    login_user-HasLockState hu h =
        let lifted = lift_lock-HasLockState u w h in
        let opened =
          with_lockout-HasLockState u.id 0 none (lift_lock p u w).1.work (ground arith) lifted in
        let counted =
          with_lockout-HasLockState u.id (after_lock u + 1) (lock_after now (after_lock u + 1))
            (lift_lock p u w).1.work (next-IsLockState now (after_lock u) (after_lock-lt u hu))
            lifted in
        elim login_user_cases [
          | inl e ↦ rw e h
          | inr (inl e) ↦ rw e lifted
          | inr (inr (inl e)) ↦ rw (e, open_session-users) opened
          | inr (inr (inr e)) ↦ rw (e, fail_login-users) counted
        ]

  login-found :
      (ttl : ℕ) (entropy : Bytes) (now : Time) (email password : Text) (u : User) (w : World)
      → user_of (normalized p email) w.work.users ≡ some u
      → login p ttl entropy now email password w ≡ login_user p ttl entropy now password u w
  unfolding login
  login-found ttl entropy now email password u w found = ground arith

  login-unknown :
      (ttl : ℕ) (entropy : Bytes) (now : Time) (email password : Text) (w : World)
      → user_of (normalized p email) w.work.users ≡ none
      → login p ttl entropy now email password w
        ≡ (app_error invalid_credentials "Invalid credentials" 401, w)
  unfolding login
  login-unknown ttl entropy now email password w absent = ground arith

  -- Every login, however it ends, keeps this: each account has fewer than five failures and no
  -- lock, or exactly five and a lock.
  pub login-HasLockState :
      (ttl : ℕ) (entropy : Bytes) (now : Time) (email password : Text) (w : World)
      → All HasLockState w.work.users
      → All HasLockState (login p ttl entropy now email password w).1.work.users
  unfolding user_of
  login-HasLockState ttl entropy now email password w h =
      elim (Option-cases (user_of (normalized p email) w.work.users)) [
        | inl absent ↦ rw (login-unknown ttl entropy now email password w absent) h
        | inr (u, found) ↦ rw (login-found ttl entropy now email password u w found) (
            login_user-HasLockState ttl entropy now password u w
              (find?-All (λ (x : User). same x.email (normalized p email)) HasLockState w.work.users
                u found h)
              h)
      ]
