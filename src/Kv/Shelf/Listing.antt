-- ===== src/Kv/Shelf/Listing.antt =====
-- KVService.versions against the shelf.
use mini_vault.Base.{
  ℕ, suc, ◌<◌, ◌≡◌, refl, none, some, List, [], ◌∷◌, map, Text, Bytes, arith, length, leb, inl, inr,
  sort_by, Option-cases,
}
use mini_vault.Errors.{Result, ok, app_error, not_found, ◌>>=◌ as and_then}
use mini_vault.Platform.{Platform}
use mini_vault.Db.{World, KvSecret, KvSecretVersion}
use mini_vault.Utils.{validate_path}
use mini_vault.Utils.Namespace.{IsEmail}
use mini_vault.Vault.{require_dek}
use mini_vault.Kv.{JsonCodec, VersionEntry, by_path, by_owner, versions_of, versions}
use mini_vault.Kv.Rows.{Numbered}
use mini_vault.Kv.Valid.{find?-key}
use mini_vault.Kv.Write.{item_of_caller}
use mini_vault.Kv.Read.{by_owner-by_path, by_owner-none}
use mini_vault.Kv.Shelf.{Shelf, numbers, shelf_versions, opened_row, Holds}
use mini_vault.Kv.Shelf.Tables.{rows_at-some}
use mini_vault.Kv.Shelf.Opened.{empty_shelf, length-opened}

-- Numbered rows are in the order of their numbers.
sort_by-Numbered :
    (k : ℕ) (rs : List KvSecretVersion)
    → Numbered k rs
    → sort_by (λ a b. leb a.version b.version) rs ≡ rs
sort_by-Numbered k [] h = refl
sort_by-Numbered k (r ∷ []) h = refl
sort_by-Numbered k (r ∷ x ∷ xs) h =
    rw (sort_by-Numbered (suc k) (x ∷ xs) h.1) (ground (arith, h.0, h.1))

-- The numbers of an answer, without the times.
abbrev pub numbers_of : Result (List VersionEntry) → Result (List ℕ)
numbers_of r = and_then r λ es. ok (map (λ (e : VersionEntry). e.version) es)

entries-Numbered :
    {J : Type 0} (p : Platform) (k : ℕ) (rs : List KvSecretVersion) (vs : List J)
    → Numbered k rs
    → length rs ≡ length vs
    → map
        (λ (e : VersionEntry). e.version)
        (map
          (λ (v : KvSecretVersion). record {
            version = v.version;
            created_at = p.isoformat_stored v.created_at;
          })
          rs)
      ≡ numbers k vs
entries-Numbered p k [] [] h many = refl
entries-Numbered p k [] (v ∷ vs) h many = absurd (omega arith)
entries-Numbered p k (r ∷ rs) [] h many = absurd (omega arith)
entries-Numbered p k (r ∷ rs) (v ∷ vs) h many =
    rw (h.0, entries-Numbered p (suc k) rs vs h.1 (omega arith)) refl

module _ (p : Platform) {J : Type 0} (j : JsonCodec J) (dek : Bytes) (path email : Text) (w : World)
    (allowed : validate_path path email ≡ ok tt) (open_vault : require_dek w ≡ ok dek) where
  versions-nothing :
      by_owner path email w.work.kv_secrets ≡ none
      → versions p path email w ≡ app_error not_found "Secret not found" 404
  unfolding versions
  versions-nothing nowhere = ground arith

  versions-rows :
      (item : KvSecret) (r : KvSecretVersion) (rs : List KvSecretVersion)
      → by_owner path email w.work.kv_secrets ≡ some item
      → sort_by (λ a b. leb a.version b.version) (versions_of item.id w.work.kv_versions) ≡ r ∷ rs
      → versions p path email w
        ≡ ok (
            map
              (λ (v : KvSecretVersion). record {
                version = v.version;
                created_at = p.isoformat_stored v.created_at;
              })
              (r ∷ rs))
  unfolding versions
  versions-rows item r rs here rows = ground arith

  -- On tables that hold a shelf, `versions` answers the numbers of the values of the path.
  pub versions-Holds :
      (s : Shelf J)
      → Holds p j dek w.work s
      → IsEmail email
      → numbers_of (versions p path email w) ≡ shelf_versions (s path)
  versions-Holds s holds he = elim (Option-cases (by_path path w.work.kv_secrets)) [
    | inl absent ↦
        rw
          (
            empty_shelf p j dek path s w holds absent,
            versions-nothing (by_owner-none path email w.work.kv_secrets absent),
          )
          refl
    | inr (item, found) ↦
        let own = item_of_caller p path email [] [] 0 w holds.valid item found he allowed in
        let started = find?-key _ _ w.work.kv_secrets item found holds.valid.started in
        let opens = rw (rows_at-some path w.work item found) at (holds.values path) in
        listed item (by_owner-by_path path email w.work.kv_secrets item found own.1)
          (versions_of item.id w.work.kv_versions) refl (s path) (holds.valid.numbered item.id)
          started (length-opened (opened_row p j dek path) _ (s path) opens)
  ]
    where
      listed :
          (item : KvSecret)
          → by_owner path email w.work.kv_secrets ≡ some item
          → (rs : List KvSecretVersion) → versions_of item.id w.work.kv_versions ≡ rs
          → (vs : List J) → Numbered 0 rs
          → 0 < length rs
          → length rs ≡ length vs
          → numbers_of (versions p path email w) ≡ shelf_versions vs
      listed item here [] e vs h started many = absurd (omega arith)
      listed item here (r ∷ rs) e [] h started many = absurd (omega arith)
      listed item here (r ∷ rs) e (v ∷ vs) h started many =
          rw (versions-rows item r rs here (rw e (sort_by-Numbered 0 (r ∷ rs) h)))
            (rw (entries-Numbered p 0 (r ∷ rs) (v ∷ vs) h many) refl)
