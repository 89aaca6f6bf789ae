-- ===== src/Kv/Shelf/Opened.antt =====
-- The version rows of a secret beside the values that they open to.
use mini_vault.Base.{
  Text, Bytes, sym, ◌∙◌, ℕ, zero, suc, ◌+◌, ◌≡◌, refl, none, some, List, [], ◌∷◌, map, arith, ◌==◌,
  length, greatest, find?, get_elem?,
}
use mini_vault.Errors.{Result, ok}
use mini_vault.Db.{KvSecretVersion}
use mini_vault.Platform.{Platform}
use mini_vault.Db.{World}
use mini_vault.Kv.{JsonCodec, by_path}
use mini_vault.Kv.Shelf.{Shelf, Holds}
use mini_vault.Kv.Shelf.Tables.{rows_at-none}
use mini_vault.Kv.Rows.{Numbered, greatest-Numbered}

-- In rows numbered from 1, the row of a number is found at its place, and the greatest is last.
find?-get :
    (k i : ℕ) (rs : List KvSecretVersion)
    → Numbered k rs
    → find? (λ v. v.version == suc (k + i)) rs ≡ get_elem? rs i
find?-get k i [] h = refl
find?-get k zero (r ∷ rs) h = ground (arith, h.0)
find?-get k (suc i) (r ∷ rs) h =
    let e : suc (suc k + i) ≡ suc (k + suc i) = omega arith in
    let later = rw e at (find?-get (suc k) i rs h.1) in ground (arith, h.0, later)

pub find?-place :
    (i : ℕ) (rs : List KvSecretVersion)
    → Numbered 0 rs
    → find? (λ v. v.version == suc i) rs ≡ get_elem? rs i
find?-place i rs h = let e : suc (0 + i) ≡ suc i = omega arith in rw e at (find?-get 0 i rs h)

pub greatest-last :
    (k : ℕ) (r : KvSecretVersion) (rs : List KvSecretVersion)
    → Numbered k (r ∷ rs)
    → greatest (λ v. v.version) (r ∷ rs) ≡ get_elem? (r ∷ rs) (length rs)
greatest-last k r [] h = refl
greatest-last k r (x ∷ xs) h =
    let (m, e, n) = greatest-Numbered (suc k) x xs h.1 in
    ground (arith, greatest-last (suc k) x xs h.1, e, n, h.0)

pub get-length :
    (r : KvSecretVersion) (rs : List KvSecretVersion)
    → (row : KvSecretVersion) × (get_elem? (r ∷ rs) (length rs) ≡ some row)
get-length r [] = (r, refl)
get-length r (x ∷ xs) = get-length x xs

pub get-version :
    (k i : ℕ) (rs : List KvSecretVersion) (row : KvSecretVersion)
    → Numbered k rs
    → get_elem? rs i ≡ some row
    → row.version ≡ suc (k + i)
get-version k i [] row h e = cc
get-version k zero (r ∷ rs) row h e = ground (arith, h.0)
get-version k (suc i) (r ∷ rs) row h e = omega (arith, get-version (suc k) i rs row h.1 e)

module _ {J : Type 0} (f : KvSecretVersion → Result J) where
  pub length-opened :
      (rs : List KvSecretVersion) (vs : List J) → map f rs ≡ map ok vs → length rs ≡ length vs
  length-opened [] [] e = refl
  length-opened [] (v ∷ vs) e = cc
  length-opened (r ∷ rs) [] e = cc
  length-opened (r ∷ rs) (v ∷ vs) e = omega (arith, length-opened rs vs (cc))

  pub get-opened :
      (i : ℕ) (rs : List KvSecretVersion) (vs : List J) (row : KvSecretVersion)
      → map f rs ≡ map ok vs
      → get_elem? rs i ≡ some row
      → (v : J) × (get_elem? vs i ≡ some v) × (f row ≡ ok v)
  get-opened i [] vs row e h = absurd (cc)
  get-opened i (r ∷ rs) [] row e h = absurd (cc)
  get-opened zero (r ∷ rs) (v ∷ vs) row e h = (v, refl, cc)
  get-opened (suc i) (r ∷ rs) (v ∷ vs) row e h = get-opened i rs vs row (cc) h

  pub get-missing :
      (i : ℕ) (rs : List KvSecretVersion) (vs : List J)
      → map f rs ≡ map ok vs
      → get_elem? rs i ≡ none
      → get_elem? vs i ≡ none
  get-missing i [] [] e h = refl
  get-missing i [] (v ∷ vs) e h = absurd (cc)
  get-missing i (r ∷ rs) [] e h = absurd (cc)
  get-missing zero (r ∷ rs) (v ∷ vs) e h = absurd (cc)
  get-missing (suc i) (r ∷ rs) (v ∷ vs) e h = get-missing i rs vs (cc) h

map-nil : {J : Type 0} (vs : List J) → map ok vs ≡ [] → vs ≡ []
map-nil [] e = refl
map-nil (v ∷ vs) e = cc

-- A path that no secret has is empty on the shelf.
pub empty_shelf :
    (p : Platform) {J : Type 0} (j : JsonCodec J) (dek : Bytes) (path : Text) (s : Shelf J)
    (w : World)
    → Holds p j dek w.work s
    → by_path path w.work.kv_secrets ≡ none
    → s path ≡ []
empty_shelf p j dek path s w holds absent =
    map-nil (s path) (sym (holds.values path) ∙ rw (rows_at-none path w.work absent) refl)
