-- ===== src/Scripts/Keeping.antt =====
-- The script's requests for secrets: two that Alice keeps, and one that Bob may not read.
use mini_vault.Base.{
  ◌≡◌, ◌≤◌, refl, ◌∙◌, ap, arith, ◌∷◌, [], ◌++◌, none, some, List, Text, text, Bytes, subst, sym,
  length, starts_with, contains, ℕ,
}
use mini_vault.Errors.{ok, raise, app}
use mini_vault.Platform.{Platform, IsSound}
use mini_vault.Db.{World, Db, Action, TransitKey, TransitKeyVersion, AuditLog}
use mini_vault.Utils.{validate_path}
use mini_vault.Utils.Namespace.{IsEmail}
use mini_vault.Schemas.{EmailStr}
use mini_vault.Audit.{new_log}
use mini_vault.Kv.{JsonCodec, IsJson, WriteAnswer, ReadAnswer, max_secret, write}
use mini_vault.Kv.Valid.{IsKvValid}
use mini_vault.Audit.Chain.{IsIntact}
use mini_vault.Kv.Frame.{write-Framed, write-Apart}
use mini_vault.Kv.Read.{read-write}
use mini_vault.Kv.Write.{write-IsKvValid}
use mini_vault.Router.{kv_write, kv_read}
use mini_vault.Router.Denied.{opened, denial, kv-IsDenied}
use mini_vault.App.Secrets.{kv_write-ok}
use mini_vault.Scripts.{
  Fields, Run, bearer, alice, bob, database_path, gateway_path, db_secret, api_secret, keep_secrets,
}
use mini_vault.Scripts.Setting.{IsRun, IsAt, alice_token, bob_token, alice_principal, bob_principal}
use mini_vault.Scripts.Steps.{then_expect-ok, expect-refused}
use mini_vault.Scripts.Callers.{alice-signed, bob-signed, dek_of, denied-IsAt}

alice-IsEmail : IsEmail alice
alice-IsEmail = (text "alice", text "example.com", refl, omega arith, omega arith)

database_path-allowed : validate_path database_path alice ≡ ok tt
unfolding validate_path starts_with contains
database_path-allowed = refl

gateway_path-allowed : validate_path gateway_path alice ≡ ok tt
unfolding validate_path starts_with contains
gateway_path-allowed = refl

database_path-denied : validate_path database_path bob ≡ raise (app denial)
unfolding validate_path starts_with contains
database_path-denied = refl

module _ (p : Platform) (sound : IsSound p) (m : EmailStr) (j : JsonCodec Fields) (json : IsJson j)
    (run : Run) (suits : IsRun p m j run) (keys : List TransitKey)
    (versions : List TransitKeyVersion) (log : List AuditLog) where
  -- A secret of Alice's is written.
  put-IsAt :
      (n : ℕ) (path : Text) (value : Fields) (raw : Bytes) (w : World)
      → IsAt p run keys versions log w
      → validate_path path alice ≡ ok tt
      → j.dumps value ≡ some raw
      → length raw ≤ max_secret
      → (a : WriteAnswer) × (u : World) × (kv_write p j
            (bearer p m j run n (alice_token p run))
            (run.random n 12)
            (run.written n)
            path
            value
            w
          ≡ (ok a, u))
        × IsAt p run keys versions log u
  put-IsAt n path value raw w at_w allowed dumped small =
      let nonce = run.random n 12 in
      let who = alice_principal p run in
      let req = bearer p m j run n (alice_token p run) in
      let o = opened p req who w in
      let u = (write p j nonce (run.written n) path alice value o).1 in
      let (a, answer, _, _, _) =
        read-write p sound j json nonce (run.random 0 32) raw (run.written n) path alice value o
          at_w.valid alice-IsEmail allowed (dek_of p run keys versions log w at_w o refl) dumped
          small (suits.drawn 0 32) (suits.drawn n 12) in
      let (committed, users, sessions) =
        write-Framed p j nonce (run.written n) path alice value o at_w.valid refl in
      let (ks, vs, logs, memory) =
        write-Apart p j nonce (run.written n) path alice value o at_w.valid in
      (
        a,
        opened p req who u,
        kv_write-ok p j req who path nonce (run.written n) value w u a
            (alice-signed p sound m j run suits keys versions log w at_w n)
            (ap (λ r. (r, u)) answer),
        record {
          is_open = memory ∙ at_w.is_open;
          users = ap (λ (db : Db). db.users) committed ∙ (users ∙ at_w.users);
          sessions = ap (λ (db : Db). db.sessions) committed ∙ (sessions ∙ at_w.sessions);
          valid = subst IsKvValid (sym committed) (
              write-IsKvValid p j nonce (run.written n) path alice value o at_w.valid
                alice-IsEmail);
          keys_at = ap (λ (db : Db). db.transit_keys) committed ∙ (ks ∙ at_w.keys_at);
          versions_at = ap (λ (db : Db). db.transit_versions) committed ∙ (vs ∙ at_w.versions_at);
          log_at = ap (λ (db : Db). db.audit_logs) committed ∙ (logs ∙ at_w.log_at);
          intact =
              subst (λ (ls : List AuditLog). IsIntact p ls)
                (sym (ap (λ (db : Db). db.audit_logs) committed ∙ logs)) at_w.intact;
        },
      )

  -- The row of Bob's request.
  abbrev pub read_row : AuditLog
  read_row =
      new_log p log bob (text "READ") (text "KV_SECRET") database_path (text "DENIED") run.client_ip
        (run.written 8)

  pub keep_secrets-IsAt :
      (w : World)
      → IsAt p run keys versions log w
      → (u : World) × (keep_secrets p m j run (alice_token p run) (bob_token p run) w
          ≡ (some tt, u))
        × IsAt p run keys versions (log ++ read_row ∷ []) u
  unfolding keep_secrets
  keep_secrets-IsAt w at_w =
      let a = alice_token p run in
      let b = bob_token p run in
      let (raw, dumped, small) = suits.db_dumped in
      let (raw', dumped', small') = suits.api_dumped in
      let (wa, w1, wrote, at_1) =
        put-IsAt 6 database_path db_secret raw w at_w database_path-allowed dumped small in
      let (wa', w2, wrote', at_2) =
        put-IsAt 7 gateway_path api_secret raw' w1 at_1 gateway_path-allowed dumped' small' in
      let to_put : Action WriteAnswer =
        kv_write p j (bearer p m j run 6 a) (run.random 6 12) (run.written 6) database_path
          db_secret in
      let to_put' : Action WriteAnswer =
        kv_write p j (bearer p m j run 7 a) (run.random 7 12) (run.written 7) gateway_path
          api_secret in
      let req = bearer p m j run 8 b in
      let who = bob_principal p run in
      let to_get : Action (ReadAnswer Fields) = kv_read p j req database_path none in
      let (_, denied, _, _) =
        kv-IsDenied p j req who database_path [] 0 db_secret none w2
          (bob-signed p sound m j run suits keys versions log w2 at_2 8) database_path-denied
          at_2.intact refl in
      let w3 = (to_get w2).1 in
      (
        w3,
        then_expect-ok p (run.content_length 6) 200 to_put w w1 (suits.admitted 6) _ wa wrote
            ∙ (then_expect-ok p (run.content_length 7) 200 to_put' w1 w2 (suits.admitted 7) _ wa'
                  wrote'
                ∙ expect-refused p (run.content_length 8) 200 to_get w2 w3 (suits.admitted 8) denial
                    (ap (λ r. (r, w3)) denied.0)),
        denied-IsAt p run keys versions log w2 at_2 req who (text "READ") (text "KV_SECRET")
            database_path (to_get w2) denied,
      )
