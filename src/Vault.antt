-- ===== src/Vault.antt =====
-- app/core: the plaintext key in memory (vault_state.py), AES-GCM with a fresh nonce
-- (crypto_service.py), the key derivation, and the life of the vault (vault_service.py).
pub mod Lifecycle
pub mod Reach
mod Tests
use mini_vault.Base.{
  Bool, true, false, not, none, some, [], ◌∷◌, Text, Bytes, ⊤, text, same, ◌++◌, if◌then◌else◌,
}
use mini_vault.Errors.{
  Result, ok, raise, Exc, app, invalid_tag, value_error, app_error, raise_if, catch, AppError,
  validation_error, vault_already_initialized, vault_not_initialized, invalid_master_passphrase,
  vault_locked,
}
use mini_vault.Errors
use mini_vault.Platform.{Platform, KdfParams, default_params}
use mini_vault.Utils.{validate_passphrase, b64e, b64d}
use mini_vault.Db.{
  World, VaultConfig, Action, pure, lift, gets, reads, ◌>>=◌, ◌>>◌, change, commit, set_dek,
  next_id,
}

-- `VaultState.unlocked`, `unlock`, `lock` and `require_dek`.
unfoldable pub is_unlocked : World → Bool
is_unlocked w = elim w.dek [ none ↦ false | some _ ↦ true ]

unfoldable pub unlock_state : Bytes → Action ⊤
unlock_state dek = set_dek (some dek)

unfoldable pub lock : Action ⊤
lock = set_dek none

unfoldable pub require_dek : World → Result Bytes
require_dek w = elim w.dek [ none ↦ app_error vault_locked "Vault is locked" 423 | some d ↦ ok d ]

-- `b"mini-vault-dek-v1"`
abbrev pub dek_aad : Bytes
dek_aad = text "mini-vault-dek-v1"

-- The `"status"` of an answer.
pub data LockStatus : Type 0 where
  locked unlocked : LockStatus

-- The answer of `init` and `status`.
pub record Status : Type 0 where
  pub initialized : Bool
  pub status : LockStatus

module _ (p : Platform) where
  -- crypto_service.encrypt with the nonce that os.urandom(12) gave
  unfoldable pub encrypt : Bytes → Bytes → Bytes → Bytes → Result (Bytes × Bytes)
  encrypt nonce key plaintext aad = elim (p.aes_encrypt key nonce plaintext aad) [
    | ok c ↦ ok (nonce, c)
    | raise e ↦ raise e
  ]

  -- crypto_service.decrypt
  unfoldable pub decrypt : Bytes → Bytes → Bytes → Bytes → Result Bytes
  decrypt key nonce ciphertext aad = p.aes_decrypt key nonce ciphertext aad

  -- key_derivation.derive_key
  unfoldable pub derive_key : Text → Bytes → KdfParams → Result Bytes
  derive_key passphrase salt params = p.argon2_raw (p.encode passphrase) salt params

  -- VaultService.init; `salt`, `dek` and `nonce` are what os.urandom gave
  unfoldable pub init : Bytes → Bytes → Bytes → Text → Text → Action Status
  unfolding derive_key encrypt b64e lock
  init salt dek nonce passphrase confirmation w = elim w.work.vault_config [
    | config ∷ _ ↦ (app_error vault_already_initialized "Vault is already initialized" 409, w)
    | [] ↦
        (do
          lift (
              raise_if (not (same passphrase confirmation)) validation_error
                "Passphrases do not match" 400)
          lift (validate_passphrase p passphrase)
          derived ← lift (derive_key passphrase salt default_params)
          wrapped ← lift (encrypt nonce derived dek dek_aad)
          change (λ db. record db {
            vault_config =
                db.vault_config
                ++ record {
                  id = next_id (λ (c : VaultConfig). c.id) db.vault_config;
                  kdf_algorithm = text "ARGON2ID";
                  kdf_salt_b64 = b64e p salt;
                  kdf_parameters_json = p.dumps_params default_params;
                  encrypted_dek_b64 = b64e p wrapped.1;
                  dek_nonce_b64 = b64e p wrapped.0;
                }
                  ∷ [];
          })
          commit
          lock
          pure (record { initialized = true; status = locked }))
          w
  ]

  -- the `except (InvalidTag, ValueError, TypeError)` of `unlock`
  abbrev pub bad_passphrase : {A : Type 0} → Exc → Result A
  bad_passphrase invalid_tag = app_error invalid_master_passphrase "Invalid master passphrase" 401
  bad_passphrase value_error = app_error invalid_master_passphrase "Invalid master passphrase" 401
  bad_passphrase e = raise e

  abbrev pub load_params : Text → Result KdfParams
  load_params s = elim (p.loads_params s) [ none ↦ raise value_error | some k ↦ ok k ]

  -- the body of the `try` of `unlock`
  unfoldable pub unwrap_dek : VaultConfig → Text → Result Bytes
  unfolding derive_key decrypt b64d
  unwrap_dek config passphrase = Errors.◌>>=◌ (b64d p config.kdf_salt_b64 validation_error) λ salt.
      Errors.◌>>=◌ (load_params config.kdf_parameters_json) λ params.
        Errors.◌>>=◌ (derive_key passphrase salt params) λ derived.
          Errors.◌>>=◌ (b64d p config.dek_nonce_b64 validation_error) λ nonce.
            Errors.◌>>=◌ (b64d p config.encrypted_dek_b64 validation_error)
              λ wrapped. decrypt derived nonce wrapped dek_aad

  -- VaultService.unlock
  unfoldable pub unlock : Text → Action LockStatus
  unfolding unlock_state
  unlock passphrase w = elim w.work.vault_config [
    | [] ↦ (app_error vault_not_initialized "Vault is not initialized" 400, w)
    | config ∷ _ ↦
        (do
          dek ← lift (catch (unwrap_dek config passphrase) bad_passphrase)
          unlock_state dek
          pure unlocked)
          w
  ]

-- VaultService.status
unfoldable pub status : World → Status
unfolding is_unlocked
status w = record {
  initialized = elim w.work.vault_config [ [] ↦ false | _ ∷ _ ↦ true ];
  status = if is_unlocked w then unlocked else locked;
}
