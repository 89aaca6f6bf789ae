-- ===== src/Kv/History.antt =====
-- KVService.write and KVService.read: what was written stays readable under its version.
use mini_vault.Base.{
  ℕ, ◌≡◌, refl, ◌∙◌, Bool, false, ◌&&◌, some, Text, Bytes, arith, ◌==◌, same, find?, inl, inr, ltb,
  find?-update, find?-append-some, Bool-cases, Option-cases, if◌then◌else◌,
}
use mini_vault.Errors.{ok}
use mini_vault.Platform.{Platform}
use mini_vault.Db.{Db, World, Time, KvSecret, KvSecretVersion}
use mini_vault.Vault.{require_dek}
use mini_vault.Kv.{JsonCodec, ReadAnswer, by_owner, by_path, pick_version, read, write}
use mini_vault.Kv.Valid.{IsKvValid}
use mini_vault.Kv.Write.{
  committed, overwrite, old_saved, new_saved, save-old, save-new, write_cases,
}

abbrev pub has_version : ℕ → ℕ → KvSecretVersion → Bool
has_version id n v = v.kv_secret_id == id && v.version == n

-- Every secret is there, under its id, path and owner, and every version row.
pub record Extends (db db' : Db) : Type 0 where
  pub secrets :
      (path email : Text) (item : KvSecret)
      → by_owner path email db.kv_secrets ≡ some item
      → (item' : KvSecret) × (by_owner path email db'.kv_secrets ≡ some item')
        × (item'.id ≡ item.id)
  pub rows :
      (id n : ℕ) (row : KvSecretVersion)
      → find? (has_version id n) db.kv_versions ≡ some row
      → find? (has_version id n) db'.kv_versions ≡ some row

module _ (p : Platform) {J : Type 0} (j : JsonCodec J) (path email : Text) (n : ℕ) where
  pick-row :
      (db : Db) (item : KvSecret) (row : KvSecretVersion)
      → ltb n 1 ≡ false
      → find? (has_version item.id n) db.kv_versions ≡ some row
      → pick_version p j db item (some n) ≡ ok (some row)
  unfolding pick_version
  pick-row db item row low here = ground arith

  read-picked :
      (w u : World) (item item' : KvSecret) (row : KvSecretVersion)
      → require_dek u ≡ require_dek w
      → by_owner path email w.work.kv_secrets ≡ some item
      → by_owner path email u.work.kv_secrets ≡ some item'
      → pick_version p j w.work item (some n) ≡ ok (some row)
      → pick_version p j u.work item' (some n) ≡ ok (some row)
      → read p j path email (some n) u ≡ read p j path email (some n) w
  unfolding read
  read-picked w u item item' row dek here here' picked picked' = ground arith

  read-absent :
      (w : World) (a : ReadAnswer J)
      → read p j path email (some n) w ≡ ok a
      → (item : KvSecret) × (row : KvSecretVersion) × (by_owner path email w.work.kv_secrets
          ≡ some item)
        × (ltb n 1 ≡ false)
        × (find? (has_version item.id n) w.work.kv_versions ≡ some row)
  unfolding read pick_version
  read-absent w a answered = elim (Option-cases (by_owner path email w.work.kv_secrets)) [
    | inl absent ↦ absurd (ground arith)
    | inr (item, here) ↦ elim (Bool-cases (ltb n 1)) [
      | inl low ↦ absurd (ground arith)
      | inr high ↦ elim (Option-cases (find? (has_version item.id n) w.work.kv_versions)) [
        | inl missing ↦ absurd (ground arith)
        | inr (row, there) ↦ (item, row, here, high, there)
      ]
    ]
  ]

  -- On tables that only grow, an answer to a numbered read stays the answer.
  read-Extends :
      (w u : World) (a : ReadAnswer J)
      → require_dek u ≡ require_dek w
      → Extends w.work u.work
      → read p j path email (some n) w ≡ ok a
      → read p j path email (some n) u ≡ ok a
  read-Extends w u a dek more answered =
      let (item, row, here, high, there) = read-absent w a answered in
      let (item', here', same_id) = more.secrets path email item here in
      let there' : find? (has_version item'.id n) u.work.kv_versions ≡ some row =
        rw same_id (more.rows item.id n row there) in
      read-picked w u item item' row dek here here' (pick-row w.work item row high there)
        (pick-row u.work item' row high there')
      ∙ answered

old_saved-Extends :
    (db : Db) (item : KvSecret) (n c : Text) (now : Time) → Extends db (old_saved db item n c now)
old_saved-Extends db item n c now = record {
  secrets = λ path email found here. (
    if found.id == item.id then overwrite n c now found else found,
    find?-update (λ s. same s.path path && same s.owner_email email) (λ s. s.id == item.id)
        (overwrite n c now) (λ s. refl) db.kv_secrets found here,
    ground arith,
  );
  rows = λ id k row there. find?-append-some (has_version id k) db.kv_versions _ row there;
}

new_saved-Extends :
    (db : Db) (path email n c : Text) (now : Time) → Extends db (new_saved db path email n c now)
new_saved-Extends db path email n c now = record {
  secrets = λ at owner found here. (
    found,
    find?-append-some (λ s. same s.path at && same s.owner_email owner) db.kv_secrets _ found here,
    refl,
  );
  rows = λ id k row there. find?-append-some (has_version id k) db.kv_versions _ row there;
}

-- On valid tables, a write of any path by any user, however it ends, loses no version: a read of
-- any path, by any user, under a version number that answered before gives the same answer after.
pub read-write_older :
    (p : Platform) {J : Type 0} (j : JsonCodec J) (nonce : Bytes) (now : Time) (path email : Text)
    (value : J) (at reader : Text) (n : ℕ) (a : ReadAnswer J) (w : World)
    → IsKvValid w.work
    → read p j at reader (some n) w ≡ ok a
    → read p j at reader (some n) (write p j nonce now path email value w).1 ≡ ok a
unfolding require_dek
read-write_older p j nonce now path email value at reader n a w valid answered =
    elim (write_cases p j nonce now path email value w) [
      | inl same_world ↦ rw same_world answered
      | inr (nonce_b64, c, allowed, saved) ↦ elim (Option-cases (by_path path w.work.kv_secrets)) [
        | inr (item, found) ↦
            rw (saved, save-old p path email nonce_b64 c now w valid item found)
              (read-Extends p j at reader n w (committed w (old_saved w.work item nonce_b64 c now))
                a refl (old_saved-Extends w.work item nonce_b64 c now) answered)
        | inl absent ↦
            rw (saved, save-new p path email nonce_b64 c now w valid absent)
              (read-Extends p j at reader n w
                (committed w (new_saved w.work path email nonce_b64 c now)) a refl
                (new_saved-Extends w.work path email nonce_b64 c now) answered)
      ]
    ]
