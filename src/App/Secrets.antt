-- ===== src/App/Secrets.antt =====
-- A secret written and read back, from the requests to the answers.
use mini_vault.Base.{◌≡◌, ◌≤◌, refl, ◌∙◌, ap, false, Option, none, some, Text, Bytes, text, length}
use mini_vault.Errors.{ok, raise}
use mini_vault.Platform.{Platform, IsSound}
use mini_vault.Db.{World, Action, Time, Session, reads, try_except, lift, ◌>>◌}
use mini_vault.Http.{Response, respond, success_response, answered}
use mini_vault.Utils.{validate_path}
use mini_vault.Utils.Namespace.{IsEmail}
use mini_vault.Vault.{require_dek}
use mini_vault.Auth.{Principal, check_session, current_principal}
use mini_vault.Kv.{JsonCodec, IsJson, WriteAnswer, ReadAnswer, max_secret, read, write}
use mini_vault.Kv.Valid.{IsKvValid}
use mini_vault.Kv.Frame.{Framed, write-Framed}
use mini_vault.Kv.Read.{read-write}
use mini_vault.Router.{Request, denied_audit, audited_call, kv_write, kv_read}
use mini_vault.Router.Denied.{opened, closed, authenticated-closed}
use mini_vault.App.{Settings, too_large, serve}
use mini_vault.App.Accounts.{passed}

module _ (p : Platform) (now : Time) where
  check_session-users :
      (found : Option Session) (w u : World)
      → u.work.users ≡ w.work.users
      → check_session p now found u ≡ check_session p now found w
  unfolding check_session
  check_session-users none w u users = refl
  check_session-users (some s) w u users =
      ap (λ us. check_session p now (some s) (record w { work = record w.work { users = us } }))
        users

  -- Who a header authenticates depends on the users and the sessions only.
  principal-Framed :
      (header : Option (Text × Text)) (w u : World)
      → Framed w u
      → current_principal p now header u ≡ current_principal p now header w
  unfolding current_principal
  principal-Framed none w u framed = refl
  principal-Framed (some (scheme, token)) w u (_, users, sessions) =
      rw (check_session-users _ w u users, sessions) refl

-- A call that does not raise leaves no row in the audit log.
pub audited_call-ok :
    {A : Type 0} (p : Platform) (req : Request) (who : Principal) (action kind identifier : Text)
    (m : Action A) (w u : World) (a : A)
    → m w ≡ (ok a, u)
    → audited_call p req who action kind identifier m w ≡ (ok a, u)
unfolding audited_call
audited_call-ok p req who action kind identifier m w u a done =
    ap
      (λ r.
        try_except (λ _. r) (λ e. denied_audit p req who action kind identifier e >> lift (raise e))
          w)
      done

module _ (p : Platform) {J : Type 0} (j : JsonCodec J) (req : Request) (who : Principal)
    (path : Text) where
  pub kv_write-ok :
      (nonce : Bytes) (now : Time) (value : J) (w u : World) (a : WriteAnswer)
      → current_principal p req.arrived req.credentials (opened p req who w) ≡ ok who
      → write p j nonce now path who.user.email value (opened p req who w) ≡ (ok a, u)
      → kv_write p j req nonce now path value w ≡ (ok a, opened p req who u)
  unfolding kv_write
  kv_write-ok nonce now value w u a signed done =
      authenticated-closed p req who _ w signed
      ∙ ap (closed p req who) (
          audited_call-ok p req who (text "WRITE") (text "KV_SECRET") path
            (write p j nonce now path who.user.email value) (opened p req who w) u a done)

  kv_read-ok :
      (w : World) (a : ReadAnswer J)
      → current_principal p req.arrived req.credentials (opened p req who w) ≡ ok who
      → read p j path who.user.email none (opened p req who w) ≡ ok a
      → kv_read p j req path none w ≡ (ok a, opened p req who w)
  unfolding kv_read
  kv_read-ok w a signed done =
      authenticated-closed p req who
        (λ x.
          audited_call p req x (text "READ") (text "KV_SECRET") path
            (reads (read p j path x.user.email none)))
        w signed
      ∙ ap (closed p req who) (
          audited_call-ok p req who (text "READ") (text "KV_SECRET") path
            (reads (read p j path who.user.email none)) (opened p req who w) (opened p req who w) a
            (ap (λ r. (r, opened p req who w)) done))

-- The write is answered with 200 and the path, and the read after it with 200 and the value, under
-- the version of the first answer.
abbrev pub ServedBack :
    (p : Platform) {J : Type 0} (j : JsonCodec J) (st : Settings) (header : Option Text)
    (to_read : Request) (path : Text) (value : J)
    → Response WriteAnswer × World
    → Type 0
ServedBack p {J} j st header to_read path value (r, w') =
    (a : WriteAnswer) × (r ≡ success_response a 200)
    × (a.path ≡ path)
    × ((serve p st header 200 (kv_read p j to_read path none) w').0
        ≡ success_response (record { path = path; version = a.version; value = value }) 200)

-- Two requests within the size limit, each of which authenticates, in an open vault with a 32-byte
-- key, a user with an address of one `@` and no slash in the domain, on committed tables that are
-- valid, with a path of the user's namespace, a value whose JSON takes at most 1 MiB and a 12-byte
-- nonce: the write is answered with 200 and the path, and the read after it with 200 and the
-- value, under the version of the first answer.
pub kv_read-kv_write :
    (p : Platform)
    → IsSound p
    → {J : Type 0} (j : JsonCodec J) → IsJson j
    → (st : Settings) (header : Option Text) (to_write to_read : Request) (who : Principal)
      (nonce dek raw : Bytes) (now : Time) (path : Text) (value : J) (w : World)
    → too_large p st header ≡ false
    → current_principal p to_write.arrived to_write.credentials (opened p to_write who w) ≡ ok who
    → current_principal p to_read.arrived to_read.credentials (opened p to_read who w) ≡ ok who
    → IsKvValid w.stored
    → IsEmail who.user.email
    → validate_path path who.user.email ≡ ok tt
    → require_dek w ≡ ok dek
    → j.dumps value ≡ some raw
    → length raw ≤ max_secret
    → length dek ≡ 32
    → length nonce ≡ 12
    → ServedBack p j st header to_read path value
        (serve p st header 200 (kv_write p j to_write nonce now path value) w)
unfolding answered respond require_dek
kv_read-kv_write p sound j json st header to_write to_read who nonce dek raw now path value w passes
      signed signed' valid he allowed open_vault dumped small hd hn =
    let o = opened p to_write who w in
    let email = who.user.email in
    let u = (write p j nonce now path email value o).1 in
    let (a, answer, same_path, latest, _) =
      read-write p sound j json nonce dek raw now path email value o valid he allowed open_vault
        dumped small hd hn in
    let (committed, users, sessions) = write-Framed p j nonce now path email value o valid refl in
    let done : write p j nonce now path email value o ≡ (ok a, u) = ap (λ r. (r, u)) answer in
    let written = kv_write-ok p j to_write who path nonce now value w u a signed done in
    let c = opened p to_write who u in
    let same_world : opened p to_read who c ≡ u = ap (λ db. record u { work = db }) committed in
    let read_back =
      kv_read-ok p j to_read who path c (record { path = path; version = a.version; value = value })
        (rw same_world (
          principal-Framed p to_read.arrived to_read.credentials o u (committed, users, sessions)
          ∙ signed'))
        (rw same_world latest) in
    rw (passed p st header 200 _ w passes, written)
      (a, refl, same_path, rw (passed p st header 200 _ c passes, read_back) refl)
