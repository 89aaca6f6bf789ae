-- ===== src/Vault/Reach.antt =====
-- The vault as a state machine: any sequence of the vault's endpoints after the process starts.
use mini_vault.Base.{◌≡◌, refl, none, some, Option, List, [], ◌∷◌, Text, Bytes, arith, ◌∙◌}
use mini_vault.Errors.{Result, ok, raise}
use mini_vault.Platform.{Platform}
use mini_vault.Db.{World, VaultConfig}
use mini_vault.Vault.{LockStatus, init, unlock, lock, unwrap_dek}
use mini_vault.Vault.Lifecycle.{Unlocks, unlock-Unlocks, init_once}

module _ (p : Platform) where
  -- One call of `init`, `unlock` or `lock`, whatever it is given and however it ends.
  pub data VaultStep (w u : World) : Type 0 where
    init_step :
        (salt dek nonce : Bytes) (pw again : Text)
        → u ≡ (init p salt dek nonce pw again w).1
        → VaultStep w u
    unlock_step : (pw : Text) → u ≡ (unlock p pw w).1 → VaultStep w u
    lock_step : u ≡ (lock w).1 → VaultStep w u

  pub data Reach (s : World) : World → Type 0 where
    here : Reach s s
    next : {t u : World} → Reach s t → VaultStep t u → Reach s u

  -- The key in memory, if there is one, unwraps from the stored record.
  abbrev pub KeyFrom : Option Bytes → List VaultConfig → Type 0
  KeyFrom none cs = Unit
  KeyFrom (some d) [] = ⊥
  KeyFrom (some d) (c ∷ cs) = (pw : Text) × (unwrap_dek p c pw ≡ ok d)

  -- At most one record.
  abbrev pub AtMostOne : List VaultConfig → Type 0
  AtMostOne [] = Unit
  AtMostOne (c ∷ []) = Unit
  AtMostOne (c ∷ d ∷ cs) = ⊥

  pub record IsConsistent (w : World) : Type 0 where
    pub committed : w.work ≡ w.stored
    pub single : AtMostOne w.work.vault_config
    pub key : KeyFrom w.dek w.work.vault_config

  -- A first `init` that fails changes nothing; one that succeeds leaves one record and no key.
  init-fresh-IsConsistent :
      (salt dek nonce : Bytes) (pw again : Text) (w : World)
      → w.work.vault_config ≡ []
      → IsConsistent w
      → IsConsistent (init p salt dek nonce pw again w).1
  unfolding init
  init-fresh-IsConsistent salt dek nonce pw again w e h = ground (arith, h.committed, h.key)

  init-IsConsistent :
      (salt dek nonce : Bytes) (pw again : Text) (w : World)
      → IsConsistent w
      → IsConsistent (init p salt dek nonce pw again w).1
  init-IsConsistent salt dek nonce pw again w h = by_config w.work.vault_config refl
    where
      by_config :
          (cs : List VaultConfig)
          → w.work.vault_config ≡ cs
          → IsConsistent (init p salt dek nonce pw again w).1
      by_config [] e = init-fresh-IsConsistent salt dek nonce pw again w e h
      by_config (c ∷ cs) e = rw (init_once p salt dek nonce pw again c cs w e) h

  Unlocks-IsConsistent :
      (pw : Text) (w u : World) (r : Result LockStatus)
      → Unlocks p pw w r u
      → IsConsistent w
      → IsConsistent u
  Unlocks-IsConsistent pw w u (raise e) same h = rw same h
  Unlocks-IsConsistent pw w u (ok s) (c, cs, d, e, ed, changed) h =
      rw changed (record { committed = h.committed; single = h.single; key = rw e (pw, ed) })

  pub VaultStep-IsConsistent : (w u : World) → VaultStep w u → IsConsistent w → IsConsistent u
  unfolding lock
  VaultStep-IsConsistent w u (init_step salt dek nonce pw again e) h =
      rw e (init-IsConsistent salt dek nonce pw again w h)
  VaultStep-IsConsistent w u (unlock_step pw e) h =
      rw e (Unlocks-IsConsistent pw w _ _ (unlock-Unlocks p pw w) h)
  VaultStep-IsConsistent w u (lock_step e) h =
      rw e (record { committed = h.committed; single = h.single; key = tt })

  -- From a consistent state with no key in memory, as the process starts, whatever calls of the
  -- vault's endpoints follow: there is at most one record, all is committed, and a key in memory
  -- is one that unwraps from that record with some passphrase.
  pub Reach-IsConsistent : {s u : World} → IsConsistent s → Reach s u → IsConsistent u
  Reach-IsConsistent h here = h
  Reach-IsConsistent h (next r st) = VaultStep-IsConsistent _ _ st (Reach-IsConsistent h r)

  init_keeps_config :
      (salt dek nonce : Bytes) (pw again : Text) (w : World) (c : VaultConfig)
      (cs : List VaultConfig)
      → w.work.vault_config ≡ c ∷ cs
      → (init p salt dek nonce pw again w).1.work.vault_config ≡ c ∷ cs
  init_keeps_config salt dek nonce pw again w c cs e =
      rw (init_once p salt dek nonce pw again c cs w e) e

  Unlocks-keeps_config :
      (pw : Text) (w u : World) (r : Result LockStatus)
      → Unlocks p pw w r u
      → u.work.vault_config ≡ w.work.vault_config
  Unlocks-keeps_config pw w u (raise e) same = rw same
  Unlocks-keeps_config pw w u (ok s) (c, cs, d, e, ed, changed) = rw changed

  -- Once there is a record, no sequence of calls of `init`, `unlock` and `lock`, whatever they are
  -- given, changes it.
  pub config_permanent :
      {s u : World} (c : VaultConfig) (cs : List VaultConfig)
      → s.work.vault_config ≡ c ∷ cs
      → Reach s u
      → u.work.vault_config ≡ c ∷ cs
  unfolding lock
  config_permanent c cs e here = e
  config_permanent c cs e (next {t = t} r (init_step salt dek nonce pw again eu)) =
      rw eu (init_keeps_config salt dek nonce pw again t c cs (config_permanent c cs e r))
  config_permanent c cs e (next {t = t} r (unlock_step pw eu)) =
      rw eu (Unlocks-keeps_config pw t _ _ (unlock-Unlocks p pw t) ∙ config_permanent c cs e r)
  config_permanent c cs e (next r (lock_step eu)) = rw eu (config_permanent c cs e r)
