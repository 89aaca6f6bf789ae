-- ===== src/Scripts/Entering.antt =====
-- The first six requests of the script: the vault is set up and opened, Alice and Bob register and
-- log in.
use mini_vault.Base.{◌≡◌, refl, ◌∙◌, arith, ◌∷◌, [], some, Text, same}
use mini_vault.Platform.{Platform, IsSound}
use mini_vault.Db.{World, Db, VaultConfig, Action}
use mini_vault.Schemas.{EmailStr}
use mini_vault.Vault.{Status, LockStatus}
use mini_vault.Auth.{LoginAnswer, user_of}
use mini_vault.Auth.Registration.{matches-registered}
use mini_vault.Kv.{JsonCodec}
use mini_vault.Router.{vault_init, vault_unlock, user_register, user_login}
use mini_vault.Scripts.{
  Fields, Run, new_process, master, alice, alice_pw, bob, bob_pw, pure, prepare, enter,
}
use mini_vault.Scripts.Setting.{
  IsRun, alice_user, bob_user, alice_session, alice_token, bob_token, entered_db,
}
use mini_vault.Scripts.Steps.{expect-ok, then_expect-ok, then_payload-ok}
use mini_vault.Scripts.Opening.{
  initialized, prepared, vault_init-new, vault_unlock-new, user_register-new, user_login-right,
  alice_pw-strong, bob_pw-strong,
}

module _ (p : Platform) (sound : IsSound p) (m : EmailStr) (j : JsonCodec Fields) (run : Run)
    (suits : IsRun p m j run) where
  -- The vault is open, and both are registered.
  pub prepare-opens :
      (config : VaultConfig) × (prepare p m j run new_process ≡ (some tt, prepared p run config))
  unfolding prepare user_of same
  prepare-opens =
      let (config, made, opens) = vault_init-new p sound m j run suits in
      let w1 = initialized p run config in
      let w2 : World = record w1 { dek = some (run.random 0 32) } in
      let db : Db = record w1.stored { users = alice_user p run ∷ [] } in
      let w3 : World = record w2 { stored = db; work = db } in
      let to_init : Action Status =
        vault_init p (run.random 0 16) (run.random 0 32) (run.random 0 12)
          (record { master_passphrase = master; confirm_master_passphrase = master }) in
      let to_unlock : Action LockStatus = vault_unlock p (record { master_passphrase = master }) in
      let to_register : Action Text =
        user_register p m (run.random 2 16)
          (record { email = alice; passphrase = alice_pw; confirm_passphrase = alice_pw }) in
      let to_register_bob : Action Text =
        user_register p m (run.random 3 16)
          (record { email = bob; passphrase = bob_pw; confirm_passphrase = bob_pw }) in
      (
        config,
        then_expect-ok p (run.content_length 0) 201 to_init new_process w1 (suits.admitted 0) _ _
              made
            ∙ (then_expect-ok p (run.content_length 1) 200 to_unlock w1 w2 (suits.admitted 1) _ _
                  (vault_unlock-new p sound m j run suits config opens)
                ∙ (then_expect-ok p (run.content_length 2) 201 to_register w2 w3 (suits.admitted 2)
                      _ _
                      (user_register-new p m alice alice_pw suits.alice_normal suits.alice_parsed
                        (omega arith) w2 (run.random 2 16) (alice_pw-strong p sound) refl)
                    ∙ expect-ok p (run.content_length 3) 201 to_register_bob w3
                        (prepared p run config) (suits.admitted 3) _
                        (user_register-new p m bob bob_pw suits.bob_normal suits.bob_parsed
                          (omega arith) w3 (run.random 3 16) (bob_pw-strong p sound) refl))),
      )

  abbrev pub entered : VaultConfig → World
  entered config = record {
    stored = entered_db p run config;
    work = entered_db p run config;
    dek = some (run.random 0 32);
  }

  abbrev pub half_entered : VaultConfig → World
  half_entered config =
      let db : Db = record (entered_db p run config) { sessions = alice_session p run ∷ [] } in
      record { stored = db; work = db; dek = some (run.random 0 32) }

  pub enter-alice :
      (config : VaultConfig)
      → enter p m j run 4 alice alice_pw (prepared p run config)
        ≡ (some (alice_token p run), half_entered config)
  unfolding enter pure user_of same
  enter-alice config =
      let to_login : Action LoginAnswer =
        user_login p m 1800 (run.random 4 32) (run.written 4)
          (record { email = alice; passphrase = alice_pw }) in
      then_payload-ok p (run.content_length 4) 200 to_login (prepared p run config)
        (half_entered config) (suits.admitted 4) _ _
        (user_login-right p m alice alice_pw suits.alice_normal suits.alice_parsed (omega arith)
          (prepared p run config) 1800 (run.random 4 32) (run.written 4) (alice_user p run) refl
          refl (matches-registered p (run.random 2 16) alice alice_pw new_process sound) refl)

  pub enter-bob :
      (config : VaultConfig)
      → enter p m j run 5 bob bob_pw (half_entered config)
        ≡ (some (bob_token p run), entered config)
  unfolding enter pure user_of same
  enter-bob config =
      let to_login : Action LoginAnswer =
        user_login p m 1800 (run.random 5 32) (run.written 5)
          (record { email = bob; passphrase = bob_pw }) in
      then_payload-ok p (run.content_length 5) 200 to_login (half_entered config) (entered config)
        (suits.admitted 5) _ _
        (user_login-right p m bob bob_pw suits.bob_normal suits.bob_parsed (omega arith)
          (half_entered config) 1800 (run.random 5 32) (run.written 5) (bob_user p run) refl refl
          (matches-registered p (run.random 3 16) bob bob_pw new_process sound)
          (rw suits.distinct refl))
