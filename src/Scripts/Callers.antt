-- ===== src/Scripts/Callers.antt =====
-- Alice and Bob, logged in, as the requests of the script find them.
use mini_vault.Base.{
  ◌≡◌, refl, ◌∙◌, ap, arith, ◌∷◌, [], ◌++◌, some, List, Text, text, same_refl, ℕ, sym, subst,
}
use mini_vault.Errors.{ok, Result}
use mini_vault.Platform.{Platform, IsSound}
use mini_vault.Db.{World, Db, VaultConfig, TransitKey, TransitKeyVersion, AuditLog}
use mini_vault.Schemas.{EmailStr}
use mini_vault.Vault.{require_dek}
use mini_vault.Audit.{new_log}
use mini_vault.Auth.{Principal, current_principal, check_session, token_digest}
use mini_vault.Kv.{JsonCodec}
use mini_vault.Kv.Valid.{IsKvValid}
use mini_vault.Router.{Request}
use mini_vault.Router.Denied.{IsDenied}
use mini_vault.Scripts.{Fields, Run}
use mini_vault.Scripts.Setting.{IsRun, IsAt, alice_token, bob_token, alice_principal, bob_principal}
use mini_vault.Scripts.Entering.{entered}

module _ (p : Platform) (sound : IsSound p) (m : EmailStr) (j : JsonCodec Fields) (run : Run)
    (suits : IsRun p m j run) where
  pub entered-IsAt :
      (config : VaultConfig) → IsAt p run [] [] [] (entered p sound m j run suits config)
  entered-IsAt config = record {
    is_open = refl;
    users = refl;
    sessions = refl;
    valid = record {
      unique_ids = tt;
      unique_paths = tt;
      owned = tt;
      started = tt;
      numbered = λ id. tt;
      adopted = λ id unused. refl;
    };
    keys_at = refl;
    versions_at = refl;
    log_at = refl;
    intact = (tt, tt);
  }

  module _ (keys : List TransitKey) (versions : List TransitKeyVersion) (log : List AuditLog)
      (w : World) (at_w : IsAt p run keys versions log w) where
    pub alice-signed :
        (n : ℕ)
        → current_principal p
            (run.arrived n)
            (some (text "Bearer", alice_token p run))
            (record w { work = w.stored })
          ≡ ok (alice_principal p run)
    unfolding current_principal check_session
    alice-signed n =
        let nonempty = sound.token-nonempty (run.random 4 32) (suits.drawn 4 32) in
        let early = suits.in_time n 4 in
        let all_users = at_w.users in
        let all_sessions = at_w.sessions in
        let scheme = suits.scheme in
        let distinct = suits.distinct in
        ground (arith, same_refl (text "bearer"), same_refl (token_digest p (alice_token p run)))

    pub bob-signed :
        (n : ℕ)
        → current_principal p
            (run.arrived n)
            (some (text "Bearer", bob_token p run))
            (record w { work = w.stored })
          ≡ ok (bob_principal p run)
    unfolding current_principal check_session
    bob-signed n =
        let nonempty = sound.token-nonempty (run.random 5 32) (suits.drawn 5 32) in
        let early = suits.in_time n 5 in
        let all_users = at_w.users in
        let all_sessions = at_w.sessions in
        let scheme = suits.scheme in
        let distinct = suits.distinct in
        ground (arith, same_refl (text "bearer"), same_refl (token_digest p (bob_token p run)))

module _ (p : Platform) (run : Run) (keys : List TransitKey) (versions : List TransitKeyVersion)
    (log : List AuditLog) (w : World) (at_w : IsAt p run keys versions log w) where
  pub dek_of : (u : World) → u.dek ≡ w.dek → require_dek u ≡ ok (run.random 0 32)
  unfolding require_dek
  dek_of u same_key = rw (same_key, at_w.is_open) refl

  -- A request that is denied adds its row to the log.
  pub denied-IsAt :
      {A : Type 0} (req : Request) (who : Principal) (action kind identifier : Text)
      (done : Result A × World)
      → IsDenied p req who action kind identifier w done
      → IsAt p run keys versions
          (log
            ++ new_log p log who.user.email action kind identifier
                (text "DENIED")
                req.client_ip
                req.audited
              ∷ [])
          done.1
  denied-IsAt req who action kind identifier done (refused, tables, memory, chain) = record {
    is_open = memory ∙ at_w.is_open;
    users = ap (λ (db : Db). db.users) tables ∙ at_w.users;
    sessions = ap (λ (db : Db). db.sessions) tables ∙ at_w.sessions;
    valid = subst IsKvValid (sym tables) at_w.valid;
    keys_at = ap (λ (db : Db). db.transit_keys) tables ∙ at_w.keys_at;
    versions_at = ap (λ (db : Db). db.transit_versions) tables ∙ at_w.versions_at;
    log_at = ap (λ (db : Db). db.audit_logs) tables ∙ rw at_w.log_at refl;
    intact = chain;
  }
