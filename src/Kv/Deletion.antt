-- ===== src/Kv/Deletion.antt =====
-- KVService.delete: what is deleted is not there any more.
use mini_vault.Base.{
  ◌≡◌, refl, subst, false, ◌&&◌, none, some, Option, List, [], ◌∷◌, map, Text, Bytes, arith, ◌==◌,
  ℕ, same, same_sound, discard, All, inl, inr, Bool-cases, Option-cases,
}
use mini_vault.Errors.{ok, raise, app, Exc, not_found, Result-cases}
use mini_vault.Platform.{Platform}
use mini_vault.Db.{World, KvSecret}
use mini_vault.Utils.{validate_path}
use mini_vault.Vault.{require_dek}
use mini_vault.Kv.{JsonCodec, by_owner, read, versions, delete}
use mini_vault.Kv.Valid.{Key, key, UniquePaths, IsKvValid}
use mini_vault.Kv.Write.{committed, deleted}

-- `AppError("NOT_FOUND", "Secret not found", 404)`
abbrev pub absent : Exc
absent = app (record { code = not_found; message = "Secret not found"; status_code = 404 })

module _ (path email : Text) where
  apart-discard :
      (id : ℕ) (ss : List KvSecret)
      → All (λ (k : Key). same k.1 path ≡ false) (map key ss)
      → by_owner path email (discard (λ s. s.id == id) ss) ≡ none
  apart-discard id [] h = refl
  apart-discard id (s ∷ ss) h = ground (arith, h.0, apart-discard id ss h.1)

  by_owner-discard :
      (item : KvSecret) (ss : List KvSecret)
      → UniquePaths (map key ss)
      → by_owner path email ss ≡ some item
      → by_owner path email (discard (λ s. s.id == item.id) ss) ≡ none
  by_owner-discard item [] unique found = cc
  by_owner-discard item (s ∷ ss) unique found =
      elim (Bool-cases (same s.path path && same s.owner_email email)) [
        | inl hit ↦
            let there : s ≡ item = (let h = rw hit at found in cc) in
            let same_path = same_sound s.path path (ground arith) in
            let others =
              subst (λ t. All (λ (k : Key). same k.1 t ≡ false) (map key ss)) same_path unique.0 in
            subst (λ x. by_owner path email (discard (λ y. y.id == x.id) (s ∷ ss)) ≡ none) there
              (ground (arith, apart-discard s.id ss others))
        | inr miss ↦
            let later = by_owner-discard item ss unique.1 (rw miss at found) in
            ground (arith, miss, later)
      ]

  -- What a deletion that succeeds went through.
  delete-ok :
      (w : World)
      → (delete path email w).0 ≡ ok tt
      → (validate_path path email ≡ ok tt)
        × (d : Bytes) × (require_dek w ≡ ok d)
        × (item : KvSecret) × (by_owner path email w.work.kv_secrets ≡ some item)
        × (delete path email w ≡ (ok tt, committed w (deleted w.work item)))
  unfolding delete
  delete-ok w done = elim (Result-cases (validate_path path email)) [
    | inr (e, refused) ↦ absurd (ground arith)
    | inl (_, allowed) ↦ elim (Result-cases (require_dek w)) [
      | inr (e, locked) ↦ absurd (ground arith)
      | inl (d, open_vault) ↦ elim (Option-cases (by_owner path email w.work.kv_secrets)) [
        | inl none_here ↦ absurd (ground arith)
        | inr (item, found) ↦ (allowed, d, open_vault, item, found, ground arith)
      ]
    ]
  ]

  module _ (p : Platform) {J : Type 0} (j : JsonCodec J) (w : World) (d : Bytes)
      (allowed : validate_path path email ≡ ok tt) (open_vault : require_dek w ≡ ok d)
      (gone : by_owner path email w.work.kv_secrets ≡ none) where
    read-gone : (version : Option ℕ) → read p j path email version w ≡ raise absent
    unfolding read
    read-gone version = ground arith

    versions-gone : versions p path email w ≡ raise absent
    unfolding versions
    versions-gone = ground arith

    delete-gone : delete path email w ≡ (raise absent, w)
    unfolding delete
    delete-gone = ground arith

-- On valid tables, after a deletion that succeeds, which is committed, reading the path under any
-- version, listing its versions and deleting it again are refused with NOT_FOUND.
pub read-delete :
    (p : Platform) {J : Type 0} (j : JsonCodec J) (path email : Text) (version : Option ℕ)
    (w : World)
    → IsKvValid w.work
    → (delete path email w).0 ≡ ok tt
    → let w' = (delete path email w).1 in
      (w'.stored ≡ w'.work)
      × (read p j path email version w' ≡ raise absent)
      × (versions p path email w' ≡ raise absent)
      × (delete path email w' ≡ (raise absent, w'))
unfolding require_dek
read-delete p j path email version w valid done =
    let (allowed, d, open_vault, item, found, e) = delete-ok path email w done in
    let w' = committed w (deleted w.work item) in
    let gone = by_owner-discard path email item w.work.kv_secrets valid.unique_paths found in
    rw e (
      refl,
      read-gone path email p j w' d allowed open_vault gone version,
      versions-gone path email p j w' d allowed open_vault gone,
      delete-gone path email p j w' d allowed open_vault gone,
    )
