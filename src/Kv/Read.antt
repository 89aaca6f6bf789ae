-- ===== src/Kv/Read.antt =====
-- KVService.read behind KVService.write: the value comes back under the version that was answered.
use mini_vault.Base.{
  tests, ℕ, suc, ◌+◌, ◌≤◌, ◌≡◌, refl, ◌&&◌, none, some, List, [], ◌∷◌, ◌++◌, Text, Bytes, arith,
  ◌==◌, same, same_refl, length, find?, inl, inr, Option-cases, find?-append-none, find?-update,
}
use mini_vault.Errors.{Result, ok}
use mini_vault.Platform.{Platform, IsSound}
use mini_vault.Utils.{validate_path, b64e}
use mini_vault.Utils.Namespace.{IsEmail, validate_path_sound}
use mini_vault.Vault.{require_dek, encrypt}
use mini_vault.Db.{Time, World, Db, KvSecret, KvSecretVersion, next_id}
use mini_vault.Kv.{
  JsonCodec, IsJson, by_path, by_owner, versions_of, current_version, save, write, read,
  open_secret, pick_version, WriteAnswer, ReadAnswer, max_secret,
}
use mini_vault.Kv.Rows.{Numbered, greatest-next, find?-version}
use mini_vault.Kv.Valid.{IsKvValid, versions_of-append}
use mini_vault.Kv.Write.{
  save-old, save-new, item_of_caller, old_saved, new_saved, version_row, overwrite, committed,
  unused_id, secret_row,
}

module _ (p : Platform) (sound : IsSound p) {J : Type 0} (j : JsonCodec J) (json : IsJson j) where
  -- The conditions under which nothing of `write` raises before `save`.
  pub write-save :
      (nonce dek raw : Bytes) (now : Time) (path email : Text) (value : J) (w : World)
      → validate_path path email ≡ ok tt
      → require_dek w ≡ ok dek
      → j.dumps value ≡ some raw
      → length raw ≤ max_secret
      → length dek ≡ 32
      → length nonce ≡ 12
      → (c : Bytes) × (write p j nonce now path email value w
          ≡ save p path email (b64e p nonce) (b64e p c) now w)
        × (open_secret p j dek (b64e p nonce) (b64e p c) path ≡ ok value)
  unfolding write open_secret b64e encrypt
  write-save nonce dek raw now path email value w allowed open_vault dumped small hd hn =
      let short = (validate_path_sound path email allowed).0 in
      let (c, ec, dc, lc) =
        sound.aes-round dek nonce raw (p.encode path) hd hn (omega arith)
          (omega (arith, sound.encode-length path)) in
      let back = json.json-round value raw dumped in
      (c, ground arith, ground (arith, sound.b64-round nonce, sound.b64-round c))

-- Of the secrets under a path, that of the caller is the one.
pub by_owner-by_path :
    (path email : Text) (ss : List KvSecret) (item : KvSecret)
    → by_path path ss ≡ some item
    → item.owner_email ≡ email
    → by_owner path email ss ≡ some item
by_owner-by_path path email [] item found own = cc
by_owner-by_path path email (s ∷ ss) item found own =
    grind (tests, by_owner-by_path path email ss item)

pub by_owner-none :
    (path email : Text) (ss : List KvSecret)
    → by_path path ss ≡ none
    → by_owner path email ss ≡ none
by_owner-none path email [] h = refl
by_owner-none path email (s ∷ ss) h = ground (arith, by_owner-none path email ss)

-- A secret whose version rows end in one numbered next.
record Latest (db : Db) (path email : Text) (item : KvSecret) (v : KvSecretVersion) : Type 0 where
  vs : List KvSecretVersion
  owned : by_owner path email db.kv_secrets ≡ some item
  rows : versions_of item.id db.kv_versions ≡ vs ++ v ∷ []
  numbered : Numbered 0 vs
  next : v.version ≡ suc (length vs)

find?-last :
    (k : ℕ) (vs : List KvSecretVersion) (v : KvSecretVersion)
    → Numbered k vs
    → v.version ≡ suc (k + length vs)
    → find? (λ x. x.version == v.version) (vs ++ v ∷ []) ≡ some v
find?-last k [] v h e = ground arith
find?-last k (x ∷ xs) v h e = ground (arith, find?-last (suc k) xs v h.1 (omega arith))

module _ (p : Platform) {J : Type 0} (j : JsonCodec J) (w : World) (path email : Text)
    (item : KvSecret) (v : KvSecretVersion) (latest : Latest w.work path email item v) where
  pick-latest : pick_version p j w.work item none ≡ ok (some v)
  unfolding pick_version current_version
  pick-latest =
      rw (latest.rows, greatest-next 0 latest.vs v latest.numbered (omega (arith, latest.next)))

  pick-number : pick_version p j w.work item (some v.version) ≡ ok (some v)
  unfolding pick_version
  pick-number =
      let at_v = find?-last 0 latest.vs v latest.numbered (omega (arith, latest.next)) in
      rw (find?-version item.id v.version w.work.kv_versions, latest.rows, at_v)
        (ground (arith, latest.next))

  -- What `read` answers, by the last version or by its number.
  read-latest :
      (dek : Bytes) (value : J)
      → validate_path path email ≡ ok tt
      → require_dek w ≡ ok dek
      → open_secret p j dek v.nonce_b64 v.ciphertext_b64 path ≡ ok value
      → let answer : Result (ReadAnswer J) =
          ok (record { path = path; version = v.version; value = value }) in
        (read p j path email none w ≡ answer) × (read p j path email (some v.version) w ≡ answer)
  unfolding read
  read-latest dek value allowed open_vault opened =
      (ground (arith, latest.owned, pick-latest), ground (arith, latest.owned, pick-number))

module _ (path email n c : Text) (now : Time) (w : World) (valid : IsKvValid w.work) where
  old-Latest :
      (item : KvSecret)
      → by_path path w.work.kv_secrets ≡ some item
      → item.owner_email ≡ email
      → Latest
          (old_saved w.work item n c now)
          path
          email
          (overwrite n c now item)
          (version_row w.work item.id (length (versions_of item.id w.work.kv_versions) + 1) n c now)
  old-Latest item found own = record {
    vs = versions_of item.id w.work.kv_versions;
    owned = ground (
      arith,
      by_owner-by_path path email w.work.kv_secrets item found own,
      find?-update (λ (s : KvSecret). same s.path path && same s.owner_email email)
          (λ s. s.id == item.id) (overwrite n c now) (λ s. refl) w.work.kv_secrets item,
    );
    rows = rw versions_of-append (ground arith);
    numbered = valid.numbered item.id;
    next = omega arith;
  }

  new-Latest :
      by_path path w.work.kv_secrets ≡ none
      → Latest
          (new_saved w.work path email n c now)
          path
          email
          (secret_row w.work path email n c now)
          (version_row w.work (next_id (λ (s : KvSecret). s.id) w.work.kv_secrets) 1 n c now)
  new-Latest absent = record {
    vs = [];
    owned = ground (
      arith,
      by_owner-none path email w.work.kv_secrets absent,
      find?-append-none (λ (s : KvSecret). same s.path path && same s.owner_email email)
          w.work.kv_secrets (secret_row w.work path email n c now ∷ []),
      same_refl path,
      same_refl email,
    );
    rows = rw (versions_of-append, valid.adopted _ (unused_id w.work.kv_secrets)) (ground arith);
    numbered = tt;
    next = refl;
  }

-- `write` succeeded with this answer, and reading the path back, for the latest version or for
-- the version of the answer, gives the value under that version.
abbrev pub WrittenAndRead :
    (p : Platform) {J : Type 0} (j : JsonCodec J) (path email : Text) (value : J)
    → Result WriteAnswer × World
    → Type 0
WrittenAndRead p {J} j path email value (r, w') =
    (a : WriteAnswer) × (r ≡ ok a)
    × (a.path ≡ path)
    × (read p j path email none w'
        ≡ ok (record { path = path; version = a.version; value = value }))
    × (read p j path email (some a.version) w'
        ≡ ok (record { path = path; version = a.version; value = value }))

module _ (p : Platform) {J : Type 0} (j : JsonCodec J) (path email n c : Text) (now : Time)
    (w : World) (valid : IsKvValid w.work) where
  save-WrittenAndRead :
      (dek : Bytes) (value : J)
      → IsEmail email
      → validate_path path email ≡ ok tt
      → require_dek w ≡ ok dek
      → open_secret p j dek n c path ≡ ok value
      → WrittenAndRead p j path email value (save p path email n c now w)
  unfolding require_dek
  save-WrittenAndRead dek value he allowed open_vault opened =
      elim (Option-cases (by_path path w.work.kv_secrets)) [
        | inl absent ↦
            let w' = committed w (new_saved w.work path email n c now) in
            let (latest, numbered) =
              read-latest p j w' path email _ _ (new-Latest path email n c now w valid absent) dek
                value allowed open_vault opened in
            rw (save-new p path email n c now w valid absent) (_, refl, refl, latest, numbered)
        | inr (item, found) ↦
            let (same_path, own) =
              item_of_caller p path email n c now w valid item found he allowed in
            let w' = committed w (old_saved w.work item n c now) in
            let (latest, numbered) =
              read-latest p j w' path email _ _
                (old-Latest path email n c now w valid item found own) dek value allowed open_vault
                opened in
            rw (save-old p path email n c now w valid item found)
              (_, refl, same_path, latest, numbered)
      ]

-- On valid tables, in an open vault, for a caller with an address of one `@` and no slash in the
-- domain, with a path of the caller's namespace, a value whose JSON
-- takes at most 1 MiB, a 32-byte key and a 12-byte nonce, `write` succeeds, and reading the path
-- back, for the latest version or for the version of the answer, gives the value that was
-- written.
pub read-write :
    (p : Platform)
    → IsSound p
    → {J : Type 0} (j : JsonCodec J) → IsJson j
    → (nonce dek raw : Bytes) (now : Time) (path email : Text) (value : J) (w : World)
    → IsKvValid w.work
    → IsEmail email
    → validate_path path email ≡ ok tt
    → require_dek w ≡ ok dek
    → j.dumps value ≡ some raw
    → length raw ≤ max_secret
    → length dek ≡ 32
    → length nonce ≡ 12
    → WrittenAndRead p j path email value (write p j nonce now path email value w)
read-write p sound j json nonce dek raw now path email value w valid he allowed open_vault dumped
      small hd hn =
    let (c, saved, opened) =
      write-save p sound j json nonce dek raw now path email value w allowed open_vault dumped small
        hd hn in
    rw saved (
      save-WrittenAndRead p j path email (b64e p nonce) (b64e p c) now w valid dek value he allowed
        open_vault opened)
