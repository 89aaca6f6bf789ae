-- ===== src/Base/Tables.antt =====
-- What the queries of Base/Lists.antt find in a table after an update, a deletion or a new row.
use Prim.Native.Nat.{ℕ, ◌≤◌, ◌<◌}
use mathlib.Core.Path.{◌≡◌, refl, subst}
use mathlib.Core.Logic.{inl, inr}
use mathlib.Core.Bool.{Bool, false}
use mathlib.Core.Option.{none, some, some-injective}
use mathlib.Core.List.{List, [], ◌∷◌, ◌++◌}
use native.Mathlib.Omega.{arith}
use mini_vault.Base.Logic.{◌==◌, Bool-cases, if◌then◌else◌}
use mini_vault.Base.Lists.{find?, update, discard, top_key, All, All-append, find?-All}

pub top_key-All {ℓ} :
    {A : Type ℓ} (k : A → ℕ) (n : ℕ) (rows : List A) → top_key k rows ≤ n → All (λ x. k x ≤ n) rows
top_key-All k n [] h = tt
top_key-All k n (x ∷ xs) h = (omega arith, top_key-All k n xs (omega arith))

module _ {ℓ} {A : Type ℓ} (q p : A → Bool) (f : A → A) where
  -- An assignment that a query does not look at.
  pub find?-update :
      ((x : A) → q (f x) ≡ q x)
      → (xs : List A) (a : A) → find? q xs ≡ some a
      → find? q (update p f xs) ≡ some (if p a then f a else a)
  find?-update blind [] a h = cc
  find?-update blind (x ∷ xs) a h = ground (arith, blind x, find?-update blind xs a)

  pub find?-update-none :
      ((x : A) → q (f x) ≡ q x) → (xs : List A) → find? q xs ≡ none → find? q (update p f xs) ≡ none
  find?-update-none blind [] h = refl
  find?-update-none blind (x ∷ xs) h = ground (arith, blind x, find?-update-none blind xs)

-- An assignment that keeps a property of the rows.
pub All-update {ℓ κ} :
    {A : Type ℓ} (p : A → Bool) (f : A → A) (P : A → Type κ)
    → ((x : A) → P x → P (f x))
    → (xs : List A) → All P xs
    → All P (update p f xs)
All-update p f P keeps [] h = tt
All-update p f P keeps (x ∷ xs) h = elim (Bool-cases (p x)) [
  | inl hit ↦ rw hit (keeps x h.0, All-update p f P keeps xs h.1)
  | inr miss ↦ rw miss (h.0, All-update p f P keeps xs h.1)
]

-- No two rows have the same key.
module _ {ℓ} {A : Type ℓ} (k : A → ℕ) where
  abbrev pub UniqueBy : List A → Type 0
  UniqueBy [] = Unit
  UniqueBy (x ∷ xs) = All (λ y. (k y == k x) ≡ false) xs × UniqueBy xs

  -- The key of a row leads back to the row.
  pub find?-by_key :
      (q : A → Bool) (xs : List A) (a : A)
      → UniqueBy xs
      → find? q xs ≡ some a
      → find? (λ x. k x == k a) xs ≡ some a
  find?-by_key q [] a h e = cc
  find?-by_key q (x ∷ xs) a h e = elim (Bool-cases (q x)) [
    | inl hit ↦
        let same_row = some-injective x a (rw hit at e) in
        subst (λ (b : A). find? (λ y. k y == k b) (x ∷ xs) ≡ some b) same_row (ground arith)
    | inr miss ↦
        let later = rw miss at e in
        let apart = find?-All q (λ y. (k y == k x) ≡ false) xs a later h.0 in
        ground (arith, find?-by_key q xs a h.1 later)
  ]

  pub UniqueBy-update :
      (p : A → Bool) (f : A → A)
      → ((x : A) → k (f x) ≡ k x)
      → (xs : List A) → UniqueBy xs
      → UniqueBy (update p f xs)
  UniqueBy-update p f fixed [] h = tt
  UniqueBy-update p f fixed (x ∷ xs) h =
      let e : k (if p x then f x else x) ≡ k x = ground (arith, fixed x) in
      (
        rw e (All-update p f (λ y. (k y == k x) ≡ false) (λ y hy. ground (arith, fixed y)) xs h.0),
        UniqueBy-update p f fixed xs h.1,
      )

-- The first row that a query finds stays the first when rows that it does not find are deleted.
pub find?-discard {ℓ} :
    {A : Type ℓ} (q p : A → Bool) (xs : List A) (a : A)
    → find? q xs ≡ some a
    → p a ≡ false
    → find? q (discard p xs) ≡ some a
find?-discard q p [] a h keep_it = cc
find?-discard q p (x ∷ xs) a h keep_it = ground (arith, find?-discard q p xs a)

pub find?-discard-none {ℓ} :
    {A : Type ℓ} (q p : A → Bool) (xs : List A) → find? q xs ≡ none → find? q (discard p xs) ≡ none
find?-discard-none q p [] h = refl
find?-discard-none q p (x ∷ xs) h = ground (arith, find?-discard-none q p xs)

-- A row that is new in a table, under the next key.
pub UniqueBy-append {ℓ} :
    {A : Type ℓ} (k : A → ℕ) (xs : List A) (y : A)
    → UniqueBy k xs
    → All (λ x. k x < k y) xs
    → UniqueBy k (xs ++ y ∷ [])
UniqueBy-append k [] y h below = (tt, tt)
UniqueBy-append k (x ∷ xs) y h below = (
  All-append (λ z. (k z == k x) ≡ false) xs (y ∷ []) h.0 (ground (arith, below.0), tt),
  UniqueBy-append k xs y h.1 below.1,
)
