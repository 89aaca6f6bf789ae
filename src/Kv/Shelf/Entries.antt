-- ===== src/Kv/Shelf/Entries.antt =====
-- KVService.list against the shelf.
use mini_vault.Base.{
  ℕ, ◌<◌, ◌≤◌, ◌≡◌, refl, sym, ap, ◌∙◌, Bool, true, false, none, some, List, [], ◌∷◌, map, Text,
  Bytes, arith, length, same, same_sound, same_refl, inl, inr, keep, keep-swap, keep-missing, subst,
  find?-sound, All, sort_by, Option-cases, Bool-cases,
}
use mini_vault.Base.Sorting.{IsSorted, sort_by-IsSorted, keep-sort_by}
use mini_vault.Errors.{Exc, ok, raise, Result-cases}
use mini_vault.Platform.{Platform}
use mini_vault.Db.{World, KvSecret}
use mini_vault.Utils.{validate_path}
use mini_vault.Utils.Namespace.{IsEmail, validate_path-exclusive}
use mini_vault.Vault.{require_dek}
use mini_vault.Kv.{JsonCodec, SecretEntry, by_path, text_le, version_or_one, current_version, list}
use mini_vault.Kv.Valid.{Key, key, UniquePaths, find?-key, next-version}
use mini_vault.Kv.Shelf.{Shelf, opened_row, Holds}
use mini_vault.Kv.Shelf.Tables.{rows_at-some}
use mini_vault.Kv.Shelf.Opened.{empty_shelf, length-opened}

text_le_total : (s t : Text) → text_le s t ≡ false → text_le t s ≡ true
unfolding text_le
text_le_total [] t h = cc
text_le_total (x ∷ s) [] h = refl
text_le_total (x ∷ s) (y ∷ t) h = ground (arith, text_le_total s t)

-- The entries of a path, and what the shelf says that they are.
abbrev pub numbers_at : Text → List SecretEntry → List ℕ
numbers_at path es = map (λ (e : SecretEntry). e.current_version) (keep (λ e. same e.path path) es)

abbrev pub shelf_entry : {J : Type 0} → List J → List ℕ
shelf_entry [] = []
shelf_entry (v ∷ vs) = length (v ∷ vs) ∷ []

abbrev pub owned_entry : {J : Type 0} → Text → Text → List J → List ℕ
owned_entry email path vs = elim (validate_path path email) [ raise e ↦ [] | ok _ ↦ shelf_entry vs ]

module _ {J : Type 0} (email path : Text) (vs : List J) where
  pub entry-allowed : validate_path path email ≡ ok tt → owned_entry email path vs ≡ shelf_entry vs
  entry-allowed allowed = rw (owned_entry, allowed) refl

  pub entry-refused :
      (e : Exc) → validate_path path email ≡ raise e → owned_entry email path vs ≡ []
  entry-refused e refused = rw (owned_entry, refused) refl

  entry-empty : vs ≡ [] → owned_entry email path vs ≡ []
  entry-empty nothing = elim (Result-cases (validate_path path email)) [
    | inr (e, refused) ↦ entry-refused e refused
    | inl (_, allowed) ↦ entry-allowed allowed ∙ rw nothing refl
  ]

shelf_entry-length : {J : Type 0} (vs : List J) → 0 < length vs → shelf_entry vs ≡ length vs ∷ []
shelf_entry-length [] h = absurd (omega arith)
shelf_entry-length (v ∷ vs) h = refl

other_paths :
    (path : Text) (ss : List KvSecret)
    → All (λ (k : Key). same k.1 path ≡ false) (map key ss)
    → keep (λ s. same s.path path) ss ≡ []
other_paths path [] h = refl
other_paths path (s ∷ ss) h = let here = h.0 in let rest = other_paths path ss h.1 in ground arith

-- In a table of distinct paths a path leads to one secret.
keep-UniquePaths :
    (path : Text) (ss : List KvSecret) (item : KvSecret)
    → UniquePaths (map key ss)
    → by_path path ss ≡ some item
    → keep (λ s. same s.path path) ss ≡ item ∷ []
keep-UniquePaths path [] item unique found = cc
keep-UniquePaths path (s ∷ ss) item unique found = elim (Bool-cases (same s.path path)) [
  | inl hit ↦
      let e = same_sound s.path path hit in
      let rest =
        other_paths path ss
          (subst (λ (t : Text). All (λ (k : Key). same k.1 t ≡ false) (map key ss)) e unique.0) in
      ground arith
  | inr miss ↦ let rest = keep-UniquePaths path ss item unique.1 (rw miss at found) in ground arith
]

module _ (p : Platform) (email path : Text) (w : World) where
  abbrev entry : KvSecret → SecretEntry
  entry s = record {
    path = s.path;
    current_version = version_or_one (current_version w.work s);
    created_at = p.isoformat_stored s.created_at;
    updated_at = p.isoformat_stored s.updated_at;
  }

  abbrev pub entries : List SecretEntry
  entries = map entry (
      sort_by (λ a b. text_le a.path b.path)
        (keep (λ s. same s.owner_email email) w.work.kv_secrets))

  entry-IsSorted :
      (ss : List KvSecret)
      → IsSorted (λ (a b : KvSecret). text_le a.path b.path) ss
      → IsSorted (λ (a b : SecretEntry). text_le a.path b.path) (map entry ss)
  entry-IsSorted [] h = tt
  entry-IsSorted (s ∷ []) h = tt
  entry-IsSorted (s ∷ t ∷ ts) h = (h.0, entry-IsSorted (t ∷ ts) h.1)

  entry-keep :
      (ss : List KvSecret)
      → numbers_at path (map entry ss)
        ≡ map
            (λ (s : KvSecret). version_or_one (current_version w.work s))
            (keep (λ s. same s.path path) ss)
  entry-keep [] = refl
  entry-keep (s ∷ ss) = ground (arith, entry-keep ss)

  abbrev le_path : KvSecret → KvSecret → Bool
  le_path a b = text_le a.path b.path

  abbrev own : KvSecret → Bool
  own s = same s.owner_email email

  abbrev at_path : KvSecret → Bool
  at_path s = same s.path path

  abbrev version : KvSecret → ℕ
  version s = version_or_one (current_version w.work s)

  -- The secrets of a path are at most one, whatever is kept of them.
  sorted_keep :
      (found : List KvSecret)
      → keep at_path w.work.kv_secrets ≡ found
      → length (keep own found) ≤ 1
      → numbers_at path entries ≡ map version (keep own found)
  sorted_keep found e one =
      let swapped : keep at_path (keep own w.work.kv_secrets) ≡ keep own found =
        keep-swap own at_path w.work.kv_secrets ∙ ap (keep own) e in
      entry-keep (sort_by le_path (keep own w.work.kv_secrets))
      ∙ ap (map version)
          (keep-sort_by le_path at_path (keep own w.work.kv_secrets) (rw swapped one) ∙ swapped)

  module _ {J : Type 0} (j : JsonCodec J) (dek : Bytes) (s : Shelf J)
      (holds : Holds p j dek w.work s) (he : IsEmail email) where
    absent-entry :
        by_path path w.work.kv_secrets ≡ none
        → numbers_at path entries ≡ owned_entry email path (s path)
    absent-entry absent =
        let nothing = empty_shelf p j dek path s w holds absent in
        sorted_keep [] (keep-missing at_path w.work.kv_secrets absent) (omega arith)
        ∙ sym (entry-empty email path (s path) nothing)

    present-entry :
        (item : KvSecret)
        → by_path path w.work.kv_secrets ≡ some item
        → numbers_at path entries ≡ owned_entry email path (s path)
    present-entry item found =
        let alone = keep-UniquePaths path w.work.kv_secrets item holds.valid.unique_paths found in
        let (owner, accepted) = find?-key _ _ w.work.kv_secrets item found holds.valid.owned in
        let started = find?-key _ _ w.work.kv_secrets item found holds.valid.started in
        let opens = rw (rows_at-some path w.work item found) at (holds.values path) in
        let many = length-opened (opened_row p j dek path) _ (s path) opens in
        let counted = next-version w.work item (holds.valid.numbered item.id) started in
        let e = same_sound _ _ (find?-sound at_path w.work.kv_secrets item found) in
        elim (Bool-cases (own item)) [
          | inl mine ↦
              let owned = same_sound item.owner_email email mine in
              let allowed : validate_path path email ≡ ok tt = rw (e, owned) at accepted in
              sorted_keep (item ∷ []) alone (rw mine (omega arith))
              ∙ rw mine (ap (λ (n : ℕ). n ∷ []) (counted ∙ many))
              ∙ sym (
                  entry-allowed email path (s path) allowed
                  ∙ shelf_entry-length (s path) (omega (arith, started, many)))
          | inr other ↦
              sorted_keep (item ∷ []) alone (rw other (omega arith))
              ∙ rw other (elim (Result-cases (validate_path path email)) [
                | inr (x, refused) ↦ sym (entry-refused email path (s path) x refused)
                | inl (_, allowed) ↦
                    let owned =
                      validate_path-exclusive path item.owner_email email owner he
                        (rw e at accepted) allowed in
                    absurd (ground (arith, same_refl email))
              ])
        ]

-- In an open vault, on tables that hold a shelf, for a caller with an address of one `@` and no
-- slash in the domain: `list` answers entries in the order of their paths, and every path has
-- exactly one entry, with the number of its values, where it is of the caller's namespace and has
-- values, and none elsewhere.
pub list-Holds :
    (p : Platform) {J : Type 0} (j : JsonCodec J) (dek : Bytes) (email : Text) (s : Shelf J)
    (w : World)
    → Holds p j dek w.work s
    → require_dek w ≡ ok dek
    → IsEmail email
    → (es : List SecretEntry) × (list p email w ≡ ok es)
      × IsSorted (λ (a b : SecretEntry). text_le a.path b.path) es
      × ((path : Text) → numbers_at path es ≡ owned_entry email path (s path))
unfolding list
list-Holds p j dek email s w holds open_vault he = (
  entries p email [] w,
  rw open_vault refl,
  entry-IsSorted p email [] w _ (
      sort_by-IsSorted (λ (a b : KvSecret). text_le a.path b.path)
        (λ a b. text_le_total a.path b.path)
        (keep (λ s. same s.owner_email email) w.work.kv_secrets)),
  λ path. elim (Option-cases (by_path path w.work.kv_secrets)) [
    | inl absent ↦ absent-entry p email path w j dek s holds he absent
    | inr (item, found) ↦ present-entry p email path w j dek s holds he item found
  ],
)
