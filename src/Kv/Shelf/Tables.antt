-- ===== src/Kv/Shelf/Tables.antt =====
-- What writing and deleting rows do to the rows of each path.
use mini_vault.Base.{
  tests, ℕ, ◌+◌, ◌≡◌, refl, sym, ◌∙◌, subst, false, none, some, List, [], ◌∷◌, ◌++◌, map, Text,
  arith, ◌==◌, ==_iff, same, same_refl, same_sound, same_iff, discard, any, All, inl, inr,
  Bool-cases, Option-cases, append-nil, find?-update, find?-update-none, find?-append-some,
  find?-append-none, find?-discard, find?-discard-none, length, if◌then◌else◌,
}
use mini_vault.Db.{Db, Time, KvSecret, KvSecretVersion, next_id}
use mini_vault.Kv.{by_path, versions_of}
use mini_vault.Kv.Valid.{
  Key, key, has_id, UniqueIds, UniquePaths, IsKvValid, find?-key, any-found, versions_of-append,
}
use mini_vault.Kv.Valid.Discard.{versions_of-discard}
use mini_vault.Kv.Write.{
  overwrite, version_row, old_saved, new_saved, secret_row, deleted, unused_id,
}
use mini_vault.Kv.Shelf.{rows_at}

-- Secrets that two paths lead to have one id only if they are one.
same_id-same_path :
    (a b : Text) (ss : List KvSecret) (x y : KvSecret)
    → UniqueIds (map key ss)
    → by_path a ss ≡ some x
    → by_path b ss ≡ some y
    → same a b ≡ false
    → (x.id == y.id) ≡ false
same_id-same_path a b [] x y u hx hy apart = cc
same_id-same_path a b (s ∷ ss) x y u hx hy apart = elim (Bool-cases (same s.path a)) [
  | inl at_a ↦ elim (Bool-cases (same s.path b)) [
    | inl at_b ↦ absurd (grind tests)
    | inr not_b ↦
        let there =
          find?-key (λ t. same t.path b) (λ (k : Key). has_id s.id k ≡ false) ss y (rw not_b at hy)
            u.0 in
        ground (arith, there)
  ]
  | inr not_a ↦ elim (Bool-cases (same s.path b)) [
    | inl at_b ↦
        let there =
          find?-key (λ t. same t.path a) (λ (k : Key). has_id s.id k ≡ false) ss x (rw not_a at hx)
            u.0 in
        ground (arith, there)
    | inr not_b ↦ same_id-same_path a b ss x y u.1 (rw not_a at hx) (rw not_b at hy) apart
  ]
]

same-swap : (s t : Text) → same s t ≡ false → same t s ≡ false
same-swap s t apart = grind tests

-- Rows whose paths differ from this one are not found under it, whichever are deleted.
apart-discard :
    (path : Text) (id : ℕ) (ss : List KvSecret)
    → All (λ (k : Key). same k.1 path ≡ false) (map key ss)
    → by_path path (discard (λ s. s.id == id) ss) ≡ none
apart-discard path id [] h = refl
apart-discard path id (s ∷ ss) h = ground (arith, h.0, apart-discard path id ss h.1)

by_path-discard :
    (path : Text) (item : KvSecret) (ss : List KvSecret)
    → UniquePaths (map key ss)
    → by_path path ss ≡ some item
    → by_path path (discard (λ s. s.id == item.id) ss) ≡ none
by_path-discard path item [] unique found = cc
by_path-discard path item (s ∷ ss) unique found = elim (Bool-cases (same s.path path)) [
  | inl hit ↦
      let there : s ≡ item = (let h = rw hit at found in cc) in
      let others =
        subst (λ t. All (λ (k : Key). same k.1 t ≡ false) (map key ss)) (same_sound s.path path hit)
          unique.0 in
      subst (λ x. by_path path (discard (λ y. y.id == x.id) (s ∷ ss)) ≡ none) there
        (ground (arith, apart-discard path s.id ss others))
  | inr miss ↦
      let later = by_path-discard path item ss unique.1 (rw miss at found) in ground (arith, later)
]

pub rows_at-some :
    (at : Text) (db : Db) (x : KvSecret)
    → by_path at db.kv_secrets ≡ some x
    → rows_at at db ≡ versions_of x.id db.kv_versions
rows_at-some at db x h = rw (rows_at, h) refl

pub rows_at-none : (at : Text) (db : Db) → by_path at db.kv_secrets ≡ none → rows_at at db ≡ []
rows_at-none at db h = rw (rows_at, h) refl

-- A row of an id is added to the rows of that id, and of no other.
versions_of-row :
    (id : ℕ) (rows : List KvSecretVersion) (v : KvSecretVersion)
    → versions_of id (rows ++ v ∷ [])
      ≡ (if v.kv_secret_id == id then versions_of id rows ++ v ∷ [] else versions_of id rows)
versions_of-row id rows v = elim (Bool-cases (v.kv_secret_id == id)) [
  | inl hit ↦ rw (versions_of-append, hit) refl
  | inr miss ↦ rw (versions_of-append, miss, append-nil) refl
]

module _ (path n c : Text) (now : Time) (db : Db) (valid : IsKvValid db) where
  module _ (item : KvSecret) (found : by_path path db.kv_secrets ≡ some item) where
    abbrev pub old_row : KvSecretVersion
    old_row = version_row db item.id (length (versions_of item.id db.kv_versions) + 1) n c now

    old_path :
        (at : Text) (x : KvSecret)
        → by_path at db.kv_secrets ≡ some x
        → by_path at (old_saved db item n c now).kv_secrets
          ≡ some (if x.id == item.id then overwrite n c now x else x)
    old_path at x h =
        find?-update (λ (s : KvSecret). same s.path at) (λ s. s.id == item.id) (overwrite n c now)
          (λ s. refl) db.kv_secrets x h

    pub rows_at-old_saved :
        (at : Text)
        → rows_at at (old_saved db item n c now)
          ≡ (if same at path then rows_at path db ++ old_row ∷ [] else rows_at at db)
    rows_at-old_saved at = elim (Bool-cases (same at path)) [
      | inl here ↦
          let e = (same_iff at path).0 here in
          let there = old_path path item found in
          rw here (
            subst (λ t. rows_at t (old_saved db item n c now) ≡ rows_at path db ++ old_row ∷ [])
              (sym e) (ground (arith, there, versions_of-row item.id db.kv_versions old_row)))
      | inr apart ↦ rw apart (elim (Option-cases (by_path at db.kv_secrets)) [
        | inl absent ↦
            let there =
              find?-update-none (λ (s : KvSecret). same s.path at) (λ s. s.id == item.id)
                (overwrite n c now) (λ s. refl) db.kv_secrets absent in
            rows_at-none at (old_saved db item n c now) there ∙ sym (rows_at-none at db absent)
        | inr (x, h) ↦
            let ids =
              same_id-same_path at path db.kv_secrets x item valid.unique_ids h found apart in
            let there = old_path at x h in
            ground (arith, there, versions_of-row x.id db.kv_versions old_row)
      ])
    ]

    by_path-deleted : by_path path (deleted db item).kv_secrets ≡ none
    by_path-deleted = by_path-discard path item db.kv_secrets valid.unique_paths found

    pub rows_at-deleted :
        (at : Text) → rows_at at (deleted db item) ≡ (if same at path then [] else rows_at at db)
    rows_at-deleted at = elim (Bool-cases (same at path)) [
      | inl here ↦
          let e = (same_iff at path).0 here in
          rw here (
            subst (λ t. rows_at t (deleted db item) ≡ []) (sym e)
              (rows_at-none path (deleted db item) by_path-deleted))
      | inr apart ↦ rw apart (elim (Option-cases (by_path at db.kv_secrets)) [
        | inl absent ↦
            let there =
              find?-discard-none (λ (s : KvSecret). same s.path at) (λ s. s.id == item.id)
                db.kv_secrets absent in
            rows_at-none at (deleted db item) there ∙ sym (rows_at-none at db absent)
        | inr (x, h) ↦
            let ids =
              same_id-same_path at path db.kv_secrets x item valid.unique_ids h found apart in
            let there =
              find?-discard (λ (s : KvSecret). same s.path at) (λ s. s.id == item.id) db.kv_secrets
                x h ids in
            ground (arith, there, versions_of-discard item.id x.id db.kv_versions)
      ])
    ]

  module _ (email : Text) (absent : by_path path db.kv_secrets ≡ none) where
    abbrev pub new_row : KvSecretVersion
    new_row = version_row db (next_id (λ (s : KvSecret). s.id) db.kv_secrets) 1 n c now

    used-not_next :
        (x : KvSecret) (at : Text)
        → by_path at db.kv_secrets ≡ some x
        → (next_id (λ (s : KvSecret). s.id) db.kv_secrets == x.id) ≡ false
    used-not_next x at h =
        let used = any-found (λ s. same s.path at) db.kv_secrets x h in
        let unused = unused_id db.kv_secrets in
        elim (Bool-cases (next_id (λ (s : KvSecret). s.id) db.kv_secrets == x.id)) [
          | inr differ ↦ differ
          | inl equal ↦ absurd (
              ground (
                arith,
                subst (λ i. any (has_id i) (map key db.kv_secrets) ≡ false)
                    ((==_iff _ x.id).0 equal) unused,
              ))
        ]

    pub rows_at-new_saved :
        (at : Text)
        → rows_at at (new_saved db path email n c now)
          ≡ (if same at path then rows_at path db ++ new_row ∷ [] else rows_at at db)
    rows_at-new_saved at = elim (Option-cases (by_path at db.kv_secrets)) [
      | inr (x, h) ↦
          let there =
            find?-append-some (λ (s : KvSecret). same s.path at) db.kv_secrets
              (secret_row db path email n c now ∷ []) x h in
          let apart : same at path ≡ false = elim (Bool-cases (same at path)) [
            | inr differ ↦ differ
            | inl equal ↦ absurd (
                ground (
                  arith,
                  subst (λ t. by_path t db.kv_secrets ≡ some x) ((same_iff at path).0 equal) h,
                ))
          ] in
          let ids = used-not_next x at h in
          rw apart (ground (arith, there, versions_of-row x.id db.kv_versions new_row))
      | inl nowhere ↦
          let there =
            find?-append-none (λ (s : KvSecret). same s.path at) db.kv_secrets
              (secret_row db path email n c now ∷ []) nowhere in
          let unused = valid.adopted _ (unused_id db.kv_secrets) in
          let added =
            versions_of-row (next_id (λ (s : KvSecret). s.id) db.kv_secrets) db.kv_versions
              new_row in
          elim (Bool-cases (same at path)) [
            | inl here ↦
                let back = rw ((same_iff at path).0 here) at (same_refl at) in
                let nothing = rows_at-none path db absent in
                rw here (ground (arith, there, added, unused, nothing, same-swap path at))
            | inr apart ↦
                let nothing = rows_at-none at db nowhere in
                rw apart (ground (arith, there, same-swap at path apart, nothing))
          ]
    ]
