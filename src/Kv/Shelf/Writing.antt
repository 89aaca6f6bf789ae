-- ===== src/Kv/Shelf/Writing.antt =====
-- KVService.write and KVService.delete against the shelf.
use mini_vault.Base.{
  suc, ◌≤◌, ◌<◌, ◌≡◌, refl, sym, ap, subst, none, some, List, [], ◌∷◌, ◌++◌, map, Text, Bytes,
  arith, length, same, same_iff, inl, inr, Option-cases, Bool-cases, if◌then◌else◌,
}
use mini_vault.Errors.{Result, ok, app_error, not_found}
use mini_vault.Platform.{Platform, IsSound}
use mini_vault.Db.{Db, World, Time, KvSecret, KvSecretVersion}
use mini_vault.Utils.{validate_path, b64e}
use mini_vault.Utils.Namespace.{IsEmail}
use mini_vault.Vault.{require_dek}
use mini_vault.Kv.{
  JsonCodec, IsJson, WriteAnswer, by_path, by_owner, versions_of, open_secret, max_secret, save,
  write, delete,
}
use mini_vault.Kv.Valid.{IsKvValid, find?-key}
use mini_vault.Kv.Valid.Discard.{IsValid-discard}
use mini_vault.Kv.Write.{
  save-old, save-new, item_of_caller, committed, old_saved, new_saved, deleted, old_saved-IsKvValid,
  new_saved-IsKvValid,
}
use mini_vault.Kv.Read.{by_owner-by_path, by_owner-none, write-save}
use mini_vault.Kv.Shelf.{Shelf, put, drop, rows_at, opened_row, Holds, shelf_delete}
use mini_vault.Kv.Shelf.Tables.{
  rows_at-some, rows_at-none, rows_at-old_saved, rows_at-new_saved, rows_at-deleted, old_row,
  new_row,
}
use mini_vault.Kv.Shelf.Opened.{length-opened, empty_shelf}

map-last :
    {A B : Type 0} (f : A → B) (xs : List A) (x : A) → map f (xs ++ x ∷ []) ≡ map f xs ++ f x ∷ []
map-last f [] x = refl
map-last f (y ∷ ys) x = ap (λ zs. f y ∷ zs) (map-last f ys x)

module _ (p : Platform) {J : Type 0} (j : JsonCodec J) (dek : Bytes) (path : Text) (s : Shelf J)
    (db db' : Db) (holds : Holds p j dek db s) (valid : IsKvValid db') where
  -- Tables with one more row under a path, and with none.
  put-Holds :
      (value : J) (row : KvSecretVersion)
      → ((at : Text)
          → rows_at at db' ≡ (if same at path then rows_at path db ++ row ∷ [] else rows_at at db))
      → opened_row p j dek path row ≡ ok value
      → Holds p j dek db' (put path value s)
  put-Holds value row rows opens = record { valid = valid; values = values }
    where
      values :
          (at : Text) → map (opened_row p j dek at) (rows_at at db') ≡ map ok (put path value s at)
      values at = elim (Bool-cases (same at path)) [
        | inl here ↦
            let e = (same_iff at path).0 here in
            rw (rows at, here)
              (subst
                (λ t.
                  map (opened_row p j dek t) (rows_at path db ++ row ∷ [])
                  ≡ map ok (s path ++ value ∷ []))
                (sym e)
                (rw
                  (
                    map-last (opened_row p j dek path) (rows_at path db) row,
                    map-last ok (s path) value,
                    holds.values path,
                    opens,
                  )
                  refl))
        | inr apart ↦ rw (rows at, apart) (holds.values at)
      ]

  drop-Holds :
      ((at : Text) → rows_at at db' ≡ (if same at path then [] else rows_at at db))
      → Holds p j dek db' (drop path s)
  drop-Holds rows = record { valid = valid; values = values }
    where
      values : (at : Text) → map (opened_row p j dek at) (rows_at at db') ≡ map ok (drop path s at)
      values at = elim (Bool-cases (same at path)) [
        | inl here ↦ rw (rows at, here) refl
        | inr apart ↦ rw (rows at, apart) (holds.values at)
      ]

module _ (path email : Text) (w : World) (dek : Bytes) (allowed : validate_path path email ≡ ok tt)
    (open_vault : require_dek w ≡ ok dek) where
  delete-nothing :
      by_owner path email w.work.kv_secrets ≡ none
      → delete path email w ≡ (app_error not_found "Secret not found" 404, w)
  unfolding delete
  delete-nothing absent = ground arith

  delete-item :
      (item : KvSecret)
      → by_owner path email w.work.kv_secrets ≡ some item
      → delete path email w ≡ (ok tt, committed w (deleted w.work item))
  unfolding delete
  delete-item item found = ground arith

rows_at-nothing :
    (path : Text) (db : Db)
    → by_path path db.kv_secrets ≡ none
    → (at : Text) → rows_at at db ≡ (if same at path then [] else rows_at at db)
rows_at-nothing path db absent at = elim (Bool-cases (same at path)) [
  | inl here ↦
      let e = (same_iff at path).0 here in
      rw here (subst (λ t. rows_at t db ≡ []) (sym e) (rows_at-none path db absent))
  | inr apart ↦ rw apart refl
]

shelf_delete-some : {J : Type 0} (vs : List J) → 0 < length vs → shelf_delete vs ≡ ok tt
shelf_delete-some [] some_there = absurd (omega arith)
shelf_delete-some (v ∷ vs) some_there = refl

-- An answer that names the next number of a path, from a world that holds the shelf with the value
-- at its end, under the same key.
abbrev pub PutBy :
    (p : Platform) {J : Type 0} (j : JsonCodec J) (dek : Bytes) (path : Text) (value : J)
    (s : Shelf J) (w : World)
    → Result WriteAnswer × World
    → Type 0
PutBy p j dek path value s w (r, w') =
    (a : WriteAnswer) × (r ≡ ok a)
    × (a.path ≡ path)
    × (a.version ≡ suc (length (s path)))
    × Holds p j dek w'.work (put path value s)
    × (w'.dek ≡ w.dek)

module _ (p : Platform) {J : Type 0} (j : JsonCodec J) (dek : Bytes) (path email : Text)
    (s : Shelf J) (w : World) (holds : Holds p j dek w.work s) where
  many_rows :
      (item : KvSecret)
      → by_path path w.work.kv_secrets ≡ some item
      → length (versions_of item.id w.work.kv_versions) ≡ length (s path)
  many_rows item found =
      length-opened (opened_row p j dek path) (versions_of item.id w.work.kv_versions) (s path)
        (rw (rows_at-some path w.work item found) at (holds.values path))

  module _ (he : IsEmail email) (allowed : validate_path path email ≡ ok tt) where
    save-PutBy :
        (n c : Text) (now : Time) (value : J)
        → open_secret p j dek n c path ≡ ok value
        → PutBy p j dek path value s w (save p path email n c now w)
    save-PutBy n c now value opens = elim (Option-cases (by_path path w.work.kv_secrets)) [
      | inl absent ↦
          let nothing = empty_shelf p j dek path s w holds absent in
          rw (save-new p path email n c now w holds.valid absent) (
            _,
            refl,
            refl,
            rw nothing refl,
            put-Holds p j dek path s w.work (new_saved w.work path email n c now) holds
                (new_saved-IsKvValid p path email n c now w holds.valid absent he allowed) value
                (new_row path n c now w.work holds.valid email absent)
                (rows_at-new_saved path n c now w.work holds.valid email absent) opens,
            refl,
          )
      | inr (item, found) ↦
          let (same_path, own) =
            item_of_caller p path email n c now w holds.valid item found he allowed in
          let many = many_rows item found in
          rw (save-old p path email n c now w holds.valid item found) (
            _,
            refl,
            same_path,
            omega (arith, many),
            put-Holds p j dek path s w.work (old_saved w.work item n c now) holds
                (old_saved-IsKvValid p path email n c now w holds.valid item found) value
                (old_row path n c now w.work holds.valid item found)
                (rows_at-old_saved path n c now w.work holds.valid item found) opens,
            refl,
          )
    ]

    -- On tables that hold a shelf, `write` puts the value at the end of its path.
    pub write-PutBy :
        IsSound p
        → IsJson j
        → (nonce raw : Bytes) (now : Time) (value : J) → require_dek w ≡ ok dek
        → j.dumps value ≡ some raw
        → length raw ≤ max_secret
        → length dek ≡ 32
        → length nonce ≡ 12
        → PutBy p j dek path value s w (write p j nonce now path email value w)
    write-PutBy sound json nonce raw now value open_vault dumped small hd hn =
        let (c, saved, opens) =
          write-save p sound j json nonce dek raw now path email value w allowed open_vault dumped
            small hd hn in
        rw saved (save-PutBy (b64e p nonce) (b64e p c) now value opens)

    -- On tables that hold a shelf, `delete` empties the path, or refuses if there is nothing.
    pub delete-Holds :
        require_dek w ≡ ok dek
        → let (r, w') = delete path email w in
          (r ≡ shelf_delete (s path)) × Holds p j dek w'.work (drop path s) × (w'.dek ≡ w.dek)
    delete-Holds open_vault = elim (Option-cases (by_path path w.work.kv_secrets)) [
      | inl absent ↦
          let nothing = empty_shelf p j dek path s w holds absent in
          let gone =
            delete-nothing path email w dek allowed open_vault
              (by_owner-none path email w.work.kv_secrets absent) in
          rw gone (
            rw nothing refl,
            drop-Holds p j dek path s w.work w.work holds holds.valid
                (rows_at-nothing path w.work absent),
            refl,
          )
      | inr (item, found) ↦
          let own = item_of_caller p path email [] [] 0 w holds.valid item found he allowed in
          let gone =
            delete-item path email w dek allowed open_vault item
              (by_owner-by_path path email w.work.kv_secrets item found own.1) in
          let started = find?-key _ _ w.work.kv_secrets item found holds.valid.started in
          rw gone (
            sym (shelf_delete-some (s path) (rw (many_rows item found) at started)),
            drop-Holds p j dek path s w.work (deleted w.work item) holds
                (IsValid-discard w.work.kv_secrets w.work.kv_versions item.id holds.valid)
                (rows_at-deleted path [] [] 0 w.work holds.valid item found),
            refl,
          )
    ]
