-- ===== src/Kv/Shelf/Reading.antt =====
-- KVService.read against the shelf.
use mini_vault.Base.{
  ℕ, zero, suc, ◌<◌, ◌≡◌, refl, ◌∙◌, none, some, Option, List, [], ◌∷◌, map, Text, Bytes, arith,
  length, get_elem?, inl, inr, Option-cases,
}
use mini_vault.Errors.{ok, raise, Exc, app_error, not_found}
use mini_vault.Platform.{Platform}
use mini_vault.Db.{World, KvSecret, KvSecretVersion}
use mini_vault.Utils.{validate_path}
use mini_vault.Utils.Namespace.{IsEmail}
use mini_vault.Vault.{require_dek}
use mini_vault.Kv.{JsonCodec, by_path, by_owner, versions_of, current_version, pick_version, read}
use mini_vault.Kv.Rows.{Numbered, find?-version}
use mini_vault.Kv.Valid.{find?-key}
use mini_vault.Kv.Write.{item_of_caller}
use mini_vault.Kv.Read.{by_owner-by_path, by_owner-none}
use mini_vault.Kv.Shelf.{Shelf, shelf_read, opened_row, Holds}
use mini_vault.Kv.Shelf.Tables.{rows_at-some}
use mini_vault.Kv.Shelf.Opened.{
  find?-place, greatest-last, get-version, length-opened, get-opened, get-missing, get-length,
  empty_shelf,
}

module _ (p : Platform) {J : Type 0} (j : JsonCodec J) (dek : Bytes) (path email : Text) (w : World)
    (allowed : validate_path path email ≡ ok tt) (open_vault : require_dek w ≡ ok dek) where
  read-nothing :
      (version : Option ℕ)
      → by_owner path email w.work.kv_secrets ≡ none
      → read p j path email version w ≡ app_error not_found "Secret not found" 404
  unfolding read
  read-nothing version nowhere = ground arith

  module _ (item : KvSecret) (here : by_owner path email w.work.kv_secrets ≡ some item) where
    read-unpicked :
        (version : Option ℕ) (e : Exc)
        → pick_version p j w.work item version ≡ raise e
        → read p j path email version w ≡ raise e
    unfolding read
    read-unpicked version e refused = ground arith

    read-opened :
        (version : Option ℕ) (row : KvSecretVersion) (v : J)
        → pick_version p j w.work item version ≡ ok (some row)
        → opened_row p j dek path row ≡ ok v
        → read p j path email version w
          ≡ ok (record { path = path; version = row.version; value = v })
    unfolding read
    read-opened version row v picked opens = ground arith

    module _ (numbered : Numbered 0 (versions_of item.id w.work.kv_versions)) where
      -- A version from 1 on.
      read-number :
          (i : ℕ) (v : J) (vs : List J)
          → map (opened_row p j dek path) (versions_of item.id w.work.kv_versions) ≡ map ok (v ∷ vs)
          → read p j path email (some (suc i)) w ≡ shelf_read path (some (suc i)) (v ∷ vs)
      unfolding pick_version
      read-number i v vs opens =
          let rs = versions_of item.id w.work.kv_versions in
          let at_i = find?-version item.id (suc i) w.work.kv_versions ∙ find?-place i rs numbered in
          elim (Option-cases (get_elem? rs i)) [
            | inl missing ↦
                let missing' = get-missing (opened_row p j dek path) i rs (v ∷ vs) opens missing in
                rw missing' (read-unpicked (some (suc i)) _ (ground (arith, at_i)))
            | inr (row, there) ↦
                let (x, there', opened) =
                  get-opened (opened_row p j dek path) i rs (v ∷ vs) row opens there in
                let number = get-version 0 i rs row numbered there in
                rw there'
                  (read-opened (some (suc i)) row x (ground (arith, at_i)) opened ∙ ground arith)
          ]

      -- The last version.
      read-last :
          (v : J) (vs : List J)
          → map (opened_row p j dek path) (versions_of item.id w.work.kv_versions) ≡ map ok (v ∷ vs)
          → read p j path email none w ≡ shelf_read path none (v ∷ vs)
      unfolding pick_version current_version
      read-last v vs opens = by_rows (versions_of item.id w.work.kv_versions) refl
        where
          by_rows :
              (rs : List KvSecretVersion)
              → versions_of item.id w.work.kv_versions ≡ rs
              → read p j path email none w ≡ shelf_read path none (v ∷ vs)
          by_rows [] e = absurd (let h = rw e at opens in cc)
          by_rows (r ∷ rs) e =
              let opens' = rw e at opens in
              let numbered' = rw e at numbered in
              let many = length-opened (opened_row p j dek path) (r ∷ rs) (v ∷ vs) opens' in
              let last = greatest-last 0 r rs numbered' in
              let place : length rs ≡ length vs = omega arith in
              let (row, there) = get-length r rs in
              let (x, there', opened) =
                get-opened (opened_row p j dek path) (length rs) (r ∷ rs) (v ∷ vs) row opens'
                  there in
              let number = get-version 0 (length rs) (r ∷ rs) row numbered' there in
              rw (← place)
                (rw there' (read-opened none row x (ground (arith, e, last)) opened ∙ ground arith))

      -- On rows that there are, and that open to these values.
      read-values :
          (version : Option ℕ) (vs : List J)
          → 0 < length (versions_of item.id w.work.kv_versions)
          → map (opened_row p j dek path) (versions_of item.id w.work.kv_versions) ≡ map ok vs
          → read p j path email version w ≡ shelf_read path version vs
      unfolding pick_version
      read-values version [] started opens =
          let many =
            length-opened (opened_row p j dek path) (versions_of item.id w.work.kv_versions) []
              opens in
          absurd (omega arith)
      read-values none (v ∷ vs) started opens = read-last v vs opens
      read-values (some zero) (v ∷ vs) started opens = read-unpicked (some zero) _ refl
      read-values (some (suc i)) (v ∷ vs) started opens = read-number i v vs opens

  -- On tables that hold a shelf, `read` answers as the shelf does.
  pub read-Holds :
      (s : Shelf J) (version : Option ℕ)
      → Holds p j dek w.work s
      → IsEmail email
      → read p j path email version w ≡ shelf_read path version (s path)
  read-Holds s version holds he = elim (Option-cases (by_path path w.work.kv_secrets)) [
    | inl absent ↦
        rw (empty_shelf p j dek path s w holds absent)
          (read-nothing version (by_owner-none path email w.work.kv_secrets absent))
    | inr (item, found) ↦
        let own = item_of_caller p path email [] [] 0 w holds.valid item found he allowed in
        let started = find?-key _ _ w.work.kv_secrets item found holds.valid.started in
        let opens = rw (rows_at-some path w.work item found) at (holds.values path) in
        read-values item (by_owner-by_path path email w.work.kv_secrets item found own.1)
          (holds.valid.numbered item.id) version (s path) started opens
  ]
