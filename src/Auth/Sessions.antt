-- ===== src/Auth/Sessions.antt =====
-- A login gives a token that authenticates until it expires or is revoked.
use mini_vault.Base.{
  ℕ, ◌+◌, ◌*◌, ◌<◌, ◌≡◌, refl, true, none, some, [], ◌∷◌, ◌++◌, Text, Bytes, arith, length, text,
  ltb, ◌==◌, same, same_refl, same_sound, find?, find?-update, find?-append-none, find?-none-any,
  find?-sound, find?-by_key, UniqueBy, inl, inr, Option-cases, if◌then◌else◌,
}
use mini_vault.Errors.{ok, app_error, unauthenticated, token_expired}
use mini_vault.Platform.{Platform, IsSound}
use mini_vault.Db.{Time, World, Db, User, Session, next_id}
use mini_vault.Auth.{
  Principal, second, user_of, normalized, token_digest, password_matches, open_session, login_user,
  login, check_session, current_principal, logout,
}
use mini_vault.Auth.Lockout.{with_lockout, committed}

abbrev pub session_row : Platform → ℕ → Bytes → Time → ℕ → Db → Session
session_row p ttl entropy now user db = record {
  id = next_id (λ (s : Session). s.id) db.sessions;
  user_id = user;
  token_hash = token_digest p (p.token_urlsafe entropy);
  expires_at = now + ttl * second;
  revoked_at = none;
}

-- The tables after a login: the lockout columns reset, and a session more.
abbrev pub logged_in : Platform → ℕ → Bytes → Time → User → Db → Db
logged_in p ttl entropy now u db = record (with_lockout u.id 0 none db) {
  sessions = db.sessions ++ session_row p ttl entropy now u.id db ∷ [];
}

-- No session has the digest of this token yet.
abbrev pub FreshToken : Platform → Bytes → Db → Type 0
FreshToken p entropy db =
    find? (λ (s : Session). same s.token_hash (token_digest p (p.token_urlsafe entropy)))
      db.sessions
    ≡ none

module _ (p : Platform) (ttl : ℕ) (entropy : Bytes) (now : Time) (email password : Text) (u : User)
    (w : World) where
  pub login-right :
      user_of (normalized p email) w.work.users ≡ some u
      → u.locked_until ≡ none
      → password_matches p u.password_hash password ≡ ok true
      → FreshToken p entropy w.work
      → login p ttl entropy now email password w ≡ (
        ok (record {
          access_token = p.token_urlsafe entropy;
          token_type = text "Bearer";
          expires_in = ttl;
        }),
        committed w (logged_in p ttl entropy now u w.work),
      )
  unfolding login login_user open_session
  login-right found free right fresh =
      let unclashed =
        find?-none-any
          (λ (s : Session). same s.token_hash (token_digest p (p.token_urlsafe entropy)))
          w.work.sessions fresh in
      ground (arith, unclashed)

-- The right password on an account with no lock, with 32 random bytes, no session of the same
-- digest and the ids of the users distinct: `login` answers a token, and under the scheme
-- "Bearer", in any case,
-- that token is accepted at `later` exactly while `later` is before `now` plus the time to live,
-- for this user, with the failures reset; from then on it is refused as expired.
pub principal-login :
    (p : Platform)
    → IsSound p
    → (ttl : ℕ) (entropy : Bytes) (now later : Time) (email password scheme : Text) (u : User)
      (w : World)
    → UniqueBy (λ (x : User). x.id) w.work.users
    → user_of (normalized p email) w.work.users ≡ some u
    → u.locked_until ≡ none
    → password_matches p u.password_hash password ≡ ok true
    → FreshToken p entropy w.work
    → length entropy ≡ 32
    → p.lower scheme ≡ text "bearer"
    → let (r, w') = login p ttl entropy now email password w in
      (r
        ≡ ok (record {
          access_token = p.token_urlsafe entropy;
          token_type = text "Bearer";
          expires_in = ttl;
        }))
      × (current_principal p later (some (scheme, p.token_urlsafe entropy)) w' ≡ (
          if ltb later (now + ttl * second)
          then ok (record {
            user = record u { failed_login_attempts = 0; locked_until = none };
            session = session_row p ttl entropy now u.id w.work;
          })
          else app_error token_expired "Session expired" 401))
unfolding current_principal check_session user_of
principal-login p sound ttl entropy now later email password scheme u w unique found free right
      fresh he hs =
    let step = login-right p ttl entropy now email password u w found free right fresh in
    let nonempty = sound.token-nonempty entropy he in
    let here =
      find?-append-none
        (λ (s : Session). same s.token_hash (token_digest p (p.token_urlsafe entropy)))
        w.work.sessions (session_row p ttl entropy now u.id w.work ∷ []) fresh in
    let owner =
      find?-by_key (λ (x : User). x.id) (λ x. same x.email (normalized p email)) w.work.users u
        unique found in
    let owner' =
      find?-update (λ (x : User). x.id == u.id) (λ x. x.id == u.id)
        (λ x. record x { failed_login_attempts = 0; locked_until = none }) (λ x. refl) w.work.users
        u owner in
    rw step (
      refl,
      ground (
        arith,
        here,
        owner',
        same_refl (token_digest p (p.token_urlsafe entropy)),
        same_refl (text "bearer"),
      ),
    )

-- Whoever is authenticated holds a session that is there under the digest of the token, is not
-- revoked and has not run out, and is the user that the session names.
pub current_principal_sound :
    (p : Platform) (now : Time) (scheme token : Text) (who : Principal) (w : World)
    → current_principal p now (some (scheme, token)) w ≡ ok who
    → (find? (λ (s : Session). same s.token_hash (token_digest p token)) w.work.sessions
        ≡ some who.session)
      × (who.session.token_hash ≡ token_digest p token)
      × (who.session.revoked_at ≡ none)
      × (now < who.session.expires_at)
      × (find? (λ (x : User). x.id == who.session.user_id) w.work.users ≡ some who.user)
unfolding current_principal check_session
current_principal_sound p now scheme token who w h =
    elim (Option-cases
      (find? (λ (s : Session). same s.token_hash (token_digest p token)) w.work.sessions)) [
        | inl absent ↦ absurd (ground arith)
        | inr (s, found) ↦
            let is_token = same_sound _ _ (
              find?-sound (λ (x : Session). same x.token_hash (token_digest p token))
                w.work.sessions s found) in
            ground arith
      ]

-- After the logout of a token that was accepted, the token is refused, at any time, under the
-- scheme "Bearer" in any case.
pub logout_revokes :
    (p : Platform) (now later : Time) (scheme token other : Text) (who : Principal) (w : World)
    → current_principal p now (some (scheme, token)) w ≡ ok who
    → p.lower other ≡ text "bearer"
    → current_principal p later (some (other, token)) (logout now who.session w).1
      ≡ app_error unauthenticated "Invalid session" 401
unfolding logout current_principal check_session
logout_revokes p now later scheme token other who w h bearer =
    let (found, _, _, _, _) = current_principal_sound p now scheme token who w h in
    let revoked =
      find?-update (λ (s : Session). same s.token_hash (token_digest p token))
        (λ s. s.id == who.session.id) (λ s. record s { revoked_at = some now }) (λ s. refl)
        w.work.sessions who.session found in
    ground (arith, revoked, same_refl (text "bearer"))
