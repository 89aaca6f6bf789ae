-- ===== src/Vault/Lifecycle.antt =====
-- The life of the vault: init, unlock and lock (app/core/vault_service.py).
use mini_vault.Base.{
  ◌≡◌, refl, true, none, some, List, [], ◌∷◌, Text, Bytes, length, arith, same_refl,
}
use mini_vault.Errors.{
  Result, ok, raise, Exc, invalid_tag, value_error, app_error, vault_already_initialized,
  vault_not_initialized,
}
use mini_vault.Platform.{Platform, IsSound, default_params}
use mini_vault.Utils.{validate_passphrase}
use mini_vault.Db.{World, VaultConfig}
use mini_vault.Vault.{
  LockStatus, locked, unlocked, init, unlock, unwrap_dek, dek_aad, require_dek, bad_passphrase,
}

-- With a 16-byte salt, a 32-byte key and a 12-byte nonce, initialising an empty vault under a
-- passphrase that passes the checks succeeds and leaves it locked, with the record committed;
-- unlocking with that passphrase then succeeds, and the key in memory is the one that was drawn.
pub unlock-init :
    (p : Platform)
    → IsSound p
    → (salt dek nonce : Bytes) (pw : Text) (w : World) → w.work.vault_config ≡ []
    → validate_passphrase p pw ≡ ok tt
    → length salt ≡ 16
    → length dek ≡ 32
    → length nonce ≡ 12
    → let (r, w') = init p salt dek nonce pw pw w in
      let (s, w'') = unlock p pw w' in
      (r ≡ ok (record { initialized = true; status = locked }))
      × (w'.dek ≡ none)
      × (w'.stored ≡ w'.work)
      × (s ≡ ok unlocked)
      × (require_dek w'' ≡ ok dek)
unfolding init unlock unwrap_dek require_dek
unlock-init p sound salt dek nonce pw w fresh strong hs hd hn =
    let (k, ek, lk) = sound.argon2-length (p.encode pw) salt hs in
    let (c, ec, dc, lc) = sound.aes-round k nonce dek dek_aad lk hn (omega arith) (omega arith) in
    ground (
      arith,
      same_refl pw,
      sound.b64-round salt,
      sound.b64-round nonce,
      sound.b64-round c,
      sound.params-round default_params,
    )

-- A second `init` is refused, whatever is asked, and changes nothing.
pub init_once :
    (p : Platform) (salt dek nonce : Bytes) (pw again : Text) (c : VaultConfig)
    (cs : List VaultConfig) (w : World)
    → w.work.vault_config ≡ c ∷ cs
    → init p salt dek nonce pw again w
      ≡ (app_error vault_already_initialized "Vault is already initialized" 409, w)
unfolding init
init_once p salt dek nonce pw again c cs w e = ground arith

-- The two outcomes of `unlock`.
abbrev pub Unlocks : Platform → Text → World → Result LockStatus → World → Type 0
Unlocks p pw w (ok s) w' =
    (c : VaultConfig) × (cs : List VaultConfig) × (d : Bytes) × (w.work.vault_config ≡ c ∷ cs)
    × (unwrap_dek p c pw ≡ ok d)
    × (w' ≡ record w { dek = some d })
Unlocks p pw w (raise e) w' = w' ≡ w

pub unlock_opens :
    (p : Platform) (pw : Text) (w : World) (c : VaultConfig) (cs : List VaultConfig) (d : Bytes)
    → w.work.vault_config ≡ c ∷ cs
    → unwrap_dek p c pw ≡ ok d
    → unlock p pw w ≡ (ok unlocked, record w { dek = some d })
unfolding unlock
unlock_opens p pw w c cs d e ed = ground arith

unlock_fails :
    (p : Platform) (pw : Text) (w : World) (c : VaultConfig) (cs : List VaultConfig) (x : Exc)
    → w.work.vault_config ≡ c ∷ cs
    → unwrap_dek p c pw ≡ raise x
    → unlock p pw w ≡ (bad_passphrase p x, w)
unfolding unlock
unlock_fails p pw w c cs x e ed = ground arith

pub unlock_uninitialized :
    (p : Platform) (pw : Text) (w : World)
    → w.work.vault_config ≡ []
    → unlock p pw w ≡ (app_error vault_not_initialized "Vault is not initialized" 400, w)
unfolding unlock
unlock_uninitialized p pw w e = ground arith

Unlocks-raise :
    (p : Platform) (pw : Text) (w : World) (x : Exc) → Unlocks p pw w (bad_passphrase p x) w
Unlocks-raise p pw w invalid_tag = refl
Unlocks-raise p pw w value_error = refl
Unlocks-raise p pw w _ = refl

-- For every passphrase and state: when `unlock` succeeds, the key that unwraps from the stored
-- record is in memory and nothing else has changed; when it fails, nothing has changed.
pub unlock-Unlocks :
    (p : Platform) (pw : Text) (w : World) → Unlocks p pw w (unlock p pw w).0 (unlock p pw w).1
unlock-Unlocks p pw w = by_config w.work.vault_config refl
  where
    by_key :
        (c : VaultConfig) (cs : List VaultConfig) (r : Result Bytes)
        → w.work.vault_config ≡ c ∷ cs
        → unwrap_dek p c pw ≡ r
        → Unlocks p pw w (unlock p pw w).0 (unlock p pw w).1
    by_key c cs (ok d) e ed = rw (unlock_opens p pw w c cs d e ed) (c, cs, d, e, ed, refl)
    by_key c cs (raise x) e ed = rw (unlock_fails p pw w c cs x e ed) (Unlocks-raise p pw w x)

    by_config :
        (cs : List VaultConfig)
        → w.work.vault_config ≡ cs
        → Unlocks p pw w (unlock p pw w).0 (unlock p pw w).1
    by_config [] e = rw (unlock_uninitialized p pw w e) refl
    by_config (c ∷ cs) e = by_key c cs (unwrap_dek p c pw) e refl
