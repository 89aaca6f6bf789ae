-- ===== src/Router/Denied.antt =====
-- What a denied request leaves behind.
use mini_vault.Base.{subst, sym, ◌≡◌, ap, refl, [], ◌∷◌, ◌++◌, Text, Bytes, text, arith, ℕ, Option}
use mini_vault.Errors.{Result, ok, raise, AppError, app, permission_denied}
use mini_vault.Platform.{Platform}
use mini_vault.Utils.{validate_path}
use mini_vault.Db.{World, try_except, lift, ◌>>◌, ◌>>=◌, Time, Action, reads, with_session}
use mini_vault.Audit.{new_log, audit}
use mini_vault.Audit.Chain.{IsIntact, audit-IsIntact}
use mini_vault.Auth.{Principal, current_principal}
use mini_vault.Kv
use mini_vault.Kv.{JsonCodec}
use mini_vault.Schemas.{version_query}
use mini_vault.Router.{
  Request, denied_audit, audited_call, authenticated, kv_write, kv_read, kv_versions, kv_delete,
}

-- `raise AppError("PERMISSION_DENIED", "Permission denied", 403)`
abbrev pub denial : AppError
denial = record { code = permission_denied; message = "Permission denied"; status_code = 403 }

module _ (p : Platform) (req : Request) (who : Principal) where
  -- The request is refused, and what it commits is one more row of the audit log, which is intact.
  abbrev pub IsDenied : {A : Type 0} → Text → Text → Text → World → Result A × World → Type 0
  IsDenied action kind identifier w (r, w') =
      (r ≡ raise (app denial))
      × (w'.stored ≡ record w.stored {
        audit_logs =
            w.stored.audit_logs
            ++ new_log p w.stored.audit_logs who.user.email action kind identifier (text "DENIED")
                req.client_ip req.audited
              ∷ [];
      })
      × (w'.dek ≡ w.dek)
      × IsIntact p w'.stored.audit_logs

  -- the world in which a handler starts
  abbrev pub opened : World → World
  opened w = record w { work = w.stored }

  -- the session is closed, and what was not committed is dropped
  abbrev pub closed : {A : Type 0} → Result A × World → Result A × World
  closed (r, w) = (r, record w { work = w.stored })

  pub authenticated-closed :
      {A : Type 0} (handler : Principal → Action A) (w : World)
      → current_principal p req.arrived req.credentials (opened w) ≡ ok who
      → authenticated p req handler w ≡ closed (handler who (opened w))
  unfolding authenticated with_session
  authenticated-closed handler w signed =
      ap (λ r. closed (elim r [ ok a ↦ handler a (opened w) | raise e ↦ (raise e, opened w) ]))
        signed

  audited_call-denied :
      {A : Type 0} (action kind identifier : Text) (m : Action A) (w : World)
      → m w ≡ (raise (app denial), w)
      → audited_call p req who action kind identifier m w ≡ (
        raise (app denial),
        (audit p who.user.email action kind identifier
            (text "DENIED")
            req.client_ip
            req.audited
            w).1,
      )
  unfolding audited_call denied_audit audit
  audited_call-denied action kind identifier m w denied =
      ap
        (λ r.
          try_except (λ _. r)
            (λ e. denied_audit p req who action kind identifier e >> lift (raise e)) w)
        denied

  pub authenticated-IsDenied :
      {A : Type 0} (action kind identifier : Text) (m : Principal → Action A) (w : World)
      → current_principal p req.arrived req.credentials (opened w) ≡ ok who
      → m who (opened w) ≡ (raise (app denial), opened w)
      → IsIntact p w.stored.audit_logs
      → IsDenied action kind identifier w
          (authenticated p req (λ x. audited_call p req x action kind identifier (m x)) w)
  unfolding audit
  authenticated-IsDenied action kind identifier m w signed denied intact =
      let (_, row, chain) =
        audit-IsIntact p who.user.email action kind identifier (text "DENIED") req.client_ip
          req.audited (opened w) intact in
      rw
        (
          authenticated-closed (λ x. audited_call p req x action kind identifier (m x)) w signed,
          audited_call-denied action kind identifier (m who) (opened w) denied,
        )
        (refl, refl, refl, chain)

-- A handler that checks what it is sent is, for what is admitted, the handler behind the check.
pub authenticated-admitted :
    {A B : Type 0} (p : Platform) (req : Request) (r : Result B) (b : B)
    (k : Principal → B → Action A) (w : World)
    → r ≡ ok b
    → authenticated p req (λ who. lift r >>= λ x. k who x) w
      ≡ authenticated p req (λ who. k who b) w
authenticated-admitted p req r b k w e =
    ap (λ s. authenticated p req (λ who. lift s >>= λ x. k who x) w) e

module _ (p : Platform) {J : Type 0} (j : JsonCodec J) (path email : Text) (w : World) where
  write-denied :
      (nonce : Bytes) (now : Time) (value : J)
      → validate_path path email ≡ raise (app denial)
      → Kv.write p j nonce now path email value w ≡ (raise (app denial), w)
  unfolding Kv.write
  write-denied nonce now value h = ground arith

  read-denied :
      (version : Option ℕ)
      → validate_path path email ≡ raise (app denial)
      → Kv.read p j path email version w ≡ raise (app denial)
  unfolding Kv.read
  read-denied version h = ground arith

  versions-denied :
      validate_path path email ≡ raise (app denial)
      → Kv.versions p path email w ≡ raise (app denial)
  unfolding Kv.versions
  versions-denied h = ground arith

  delete-denied :
      validate_path path email ≡ raise (app denial)
      → Kv.delete path email w ≡ (raise (app denial), w)
  unfolding Kv.delete
  delete-denied h = ground arith

-- A request for a path outside the caller's namespace, authenticated, on an intact audit log:
-- writing, reading (the last version or one from 1 on), listing the versions and deleting are all refused with PERMISSION_DENIED, and
-- each commits exactly one more row of the log, for the caller, with "DENIED", and nothing else;
-- the log stays intact.
pub kv-IsDenied :
    (p : Platform) {J : Type 0} (j : JsonCodec J) (req : Request) (who : Principal) (path : Text)
    (nonce : Bytes) (now : Time) (value : J) (version : Option ℕ) (w : World)
    → current_principal p req.arrived req.credentials (opened p req who w) ≡ ok who
    → validate_path path who.user.email ≡ raise (app denial)
    → IsIntact p w.stored.audit_logs
    → version_query version ≡ ok version
    → let kind = text "KV_SECRET" in
      IsDenied p req who (text "WRITE") kind path w (kv_write p j req nonce now path value w)
      × IsDenied p req who (text "READ") kind path w (kv_read p j req path version w)
      × IsDenied p req who (text "LIST_VERSIONS") kind path w (kv_versions p req path w)
      × IsDenied p req who (text "DELETE") kind path w (kv_delete p req path w)
unfolding kv_write kv_read kv_versions kv_delete
kv-IsDenied p j req who path nonce now value version w signed denied intact asked =
    let kind = text "KV_SECRET" in
    let w' = opened p req who w in
    let email = who.user.email in
    (
      authenticated-IsDenied p req who (text "WRITE") kind path
          (λ x. Kv.write p j nonce now path x.user.email value) w signed
          (write-denied p j path email w' nonce now value denied) intact,
      subst (IsDenied p req who (text "READ") kind path w)
          (sym (authenticated-admitted p req (version_query version) version _ w asked))
          (authenticated-IsDenied p req who (text "READ") kind path
            (λ x. reads (Kv.read p j path x.user.email version)) w signed
            (ap (λ r. (r, w')) (read-denied p j path email w' version denied)) intact),
      authenticated-IsDenied p req who (text "LIST_VERSIONS") kind path
          (λ x. reads (Kv.versions p path x.user.email)) w signed
          (ap (λ r. (r, w')) (versions-denied p j path email w' denied)) intact,
      authenticated-IsDenied p req who (text "DELETE") kind path (λ x. Kv.delete path x.user.email)
          w signed (delete-denied p j path email w' denied) intact,
    )
