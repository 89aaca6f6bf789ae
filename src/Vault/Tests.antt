-- ===== src/Vault/Tests.antt =====
-- The theorems on the vault at concrete inputs.
use mini_vault.Base.{◌≡◌, refl, true, none, [], ◌∷◌, text}
use mini_vault.Errors.{ok}
use mini_vault.Platform.Sample.{sample, sample-IsSound}
use mini_vault.Utils.{validate_passphrase}
use mini_vault.Db.{World, VaultConfig}
use mini_vault.Vault.{locked, unlocked, init, unlock, require_dek}
use mini_vault.Vault.Lifecycle.{unlock-init, unlock-Unlocks, Unlocks}
use mini_vault.Vault.Reach.{
  Reach, here, next, init_step, unlock_step, IsConsistent, Reach-IsConsistent, config_permanent,
}
use mini_vault.Samples.{empty_world, master, salt, nonce, key_bytes}

unlock-init_example :
    let (r, w') = init sample salt key_bytes nonce master master empty_world in
    let (s, w'') = unlock sample master w' in
    (r ≡ ok (record { initialized = true; status = locked }))
    × (w'.dek ≡ none)
    × (w'.stored ≡ w'.work)
    × (s ≡ ok unlocked)
    × (require_dek w'' ≡ ok key_bytes)
unfolding validate_passphrase
unlock-init_example =
    unlock-init sample sample-IsSound salt key_bytes nonce master empty_world refl refl refl refl
      refl

abbrev initialized : World
initialized = (init sample salt key_bytes nonce master master empty_world).1

abbrev reopened : World
reopened = (unlock sample master initialized).1

unlock-Unlocks_example :
    Unlocks sample
      (text "wrong")
      initialized
      (unlock sample (text "wrong") initialized).0
      (unlock sample (text "wrong") initialized).1
unlock-Unlocks_example = unlock-Unlocks sample (text "wrong") initialized

empty-IsConsistent : IsConsistent sample empty_world
empty-IsConsistent = record { committed = refl; single = tt; key = tt }

to_reopened : Reach sample empty_world reopened
to_reopened =
    next (next here (init_step salt key_bytes nonce master master refl)) (unlock_step master refl)

Reach-IsConsistent_example : IsConsistent sample reopened
Reach-IsConsistent_example = Reach-IsConsistent sample empty-IsConsistent to_reopened

abbrev config : VaultConfig
config = record {
  id = 1;
  kdf_algorithm = text "ARGON2ID";
  kdf_salt_b64 = [];
  kdf_parameters_json = [];
  encrypted_dek_b64 = [];
  dek_nonce_b64 = [];
}

abbrev configured : World
configured = record empty_world { work = record (empty_world).work { vault_config = config ∷ [] } }

abbrev after_init : World
after_init = (init sample salt key_bytes nonce master master configured).1

config_permanent_example : (after_init).work.vault_config ≡ config ∷ []
config_permanent_example =
    config_permanent sample config [] refl
      (next here (init_step salt key_bytes nonce master master refl))
