-- ===== src/Kv/Frame.antt =====
-- KVService.write: what it leaves alone.
use mini_vault.Base.{◌≡◌, refl, Text, Bytes, inl, inr, Option-cases}
use mini_vault.Platform.{Platform}
use mini_vault.Db.{Time, World}
use mini_vault.Kv.{JsonCodec, by_path, save, write}
use mini_vault.Kv.Valid.{IsKvValid}
use mini_vault.Kv.Write.{save-old, save-new, write_cases}

-- What is visible is committed, and users and sessions are as they were.
abbrev pub Framed : World → World → Type 0
Framed w u =
    (u.stored ≡ u.work) × (u.work.users ≡ w.work.users) × (u.work.sessions ≡ w.work.sessions)

save-Framed :
    (p : Platform) (path email n c : Text) (now : Time) (w : World)
    → IsKvValid w.work
    → Framed w (save p path email n c now w).1
save-Framed p path email n c now w valid = elim (Option-cases (by_path path w.work.kv_secrets)) [
  | inl absent ↦ rw (save-new p path email n c now w valid absent) (refl, refl, refl)
  | inr (item, found) ↦ rw (save-old p path email n c now w valid item found) (refl, refl, refl)
]

pub write-Framed :
    (p : Platform) {J : Type 0} (j : JsonCodec J) (nonce : Bytes) (now : Time) (path email : Text)
    (value : J) (w : World)
    → IsKvValid w.work
    → w.stored ≡ w.work
    → Framed w (write p j nonce now path email value w).1
write-Framed p j nonce now path email value w valid committed =
    elim (write_cases p j nonce now path email value w) [
      | inl same_world ↦ rw same_world (committed, refl, refl)
      | inr (n, c, _, saved) ↦ rw saved (save-Framed p path email n c now w valid)
    ]

-- The named keys, the audit log and the key in memory are as they were.
abbrev pub Apart : World → World → Type 0
Apart w u =
    (u.work.transit_keys ≡ w.work.transit_keys)
    × (u.work.transit_versions ≡ w.work.transit_versions)
    × (u.work.audit_logs ≡ w.work.audit_logs)
    × (u.dek ≡ w.dek)

save-Apart :
    (p : Platform) (path email n c : Text) (now : Time) (w : World)
    → IsKvValid w.work
    → Apart w (save p path email n c now w).1
save-Apart p path email n c now w valid = elim (Option-cases (by_path path w.work.kv_secrets)) [
  | inl absent ↦ rw (save-new p path email n c now w valid absent) (refl, refl, refl, refl)
  | inr (item, found) ↦
      rw (save-old p path email n c now w valid item found) (refl, refl, refl, refl)
]

pub write-Apart :
    (p : Platform) {J : Type 0} (j : JsonCodec J) (nonce : Bytes) (now : Time) (path email : Text)
    (value : J) (w : World)
    → IsKvValid w.work
    → Apart w (write p j nonce now path email value w).1
write-Apart p j nonce now path email value w valid =
    elim (write_cases p j nonce now path email value w) [
      | inl same_world ↦ rw same_world (refl, refl, refl, refl)
      | inr (n, c, _, saved) ↦ rw saved (save-Apart p path email n c now w valid)
    ]
