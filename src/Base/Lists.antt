-- ===== src/Base/Lists.antt =====
-- Lists over the native numbers, and the list forms of the queries that the services make.
use Prim.Native.Nat.{ℕ, zero, suc, ◌+◌, max}
use mathlib.Core.Path.{◌≡◌, refl, subst}
use mathlib.Core.Logic.{inl, inr}
use mathlib.Core.Bool.{Bool, true, false, ◌||◌, ◌&&◌}
use mathlib.Core.Option.{Option, none, some, some-injective}
use mathlib.Core.List.{List, [], ◌∷◌, ◌++◌}
use native.Mathlib.Omega.{arith}
use mini_vault.Base.Logic.{leb, Bool-cases, if◌then◌else◌}

module _ {ℓ} {A : Type ℓ} where
  abbrev pub length : List A → ℕ
  length [] = 0
  length (x ∷ xs) = suc (length xs)

  abbrev pub take : ℕ → List A → List A
  take zero xs = []
  take (suc n) [] = []
  take (suc n) (x ∷ xs) = x ∷ take n xs

  abbrev pub drop : ℕ → List A → List A
  drop zero xs = xs
  drop (suc n) [] = []
  drop (suc n) (x ∷ xs) = drop n xs

  abbrev pub any : (A → Bool) → List A → Bool
  any p [] = false
  any p (x ∷ xs) = p x || any p xs

  abbrev pub all : (A → Bool) → List A → Bool
  all p [] = true
  all p (x ∷ xs) = p x && all p xs

  -- `db.scalar(select(T).where(p))`: the first row that the condition accepts.
  abbrev pub find? : (A → Bool) → List A → Option A
  find? p [] = none
  find? p (x ∷ xs) = if p x then some x else find? p xs

  -- `db.scalars(select(T).where(p)).all()`, in the order of the table.
  abbrev pub keep : (A → Bool) → List A → List A
  keep p [] = []
  keep p (x ∷ xs) = let rest = keep p xs in if p x then x ∷ rest else rest

  -- `DELETE ... WHERE p`.
  abbrev pub discard : (A → Bool) → List A → List A
  discard p [] = []
  discard p (x ∷ xs) = let rest = discard p xs in if p x then rest else x ∷ rest

  -- An assignment to the columns of the rows that the condition accepts.
  abbrev pub update : (A → Bool) → (A → A) → List A → List A
  update p f [] = []
  update p f (x ∷ xs) = (if p x then f x else x) ∷ update p f xs

  -- `order_by(desc(key))` and `.first()`: the row with the greatest key.
  abbrev pub greatest : (A → ℕ) → List A → Option A
  greatest k [] = none
  greatest k (x ∷ xs) = elim (greatest k xs) [
    | none ↦ some x
    | some y ↦ if leb (k y) (k x) then some x else some y
  ]

  -- The greatest key in use, 0 in an empty table.
  abbrev pub top_key : (A → ℕ) → List A → ℕ
  top_key k [] = 0
  top_key k (x ∷ xs) = max (k x) (top_key k xs)

  -- Insertion sort by a Boolean order, for `order_by`.
  abbrev pub insert_by : (A → A → Bool) → A → List A → List A
  insert_by le a [] = a ∷ []
  insert_by le a (x ∷ xs) = let rest = insert_by le a xs in if le a x then a ∷ x ∷ xs else x ∷ rest

  abbrev pub sort_by : (A → A → Bool) → List A → List A
  sort_by le [] = []
  sort_by le (x ∷ xs) = insert_by le x (sort_by le xs)

  abbrev pub All {κ} : (A → Type κ) → List A → Type κ
  All P [] = Unit
  All P (x ∷ xs) = P x × All P xs

  pub length-append : (xs ys : List A) → length (xs ++ ys) ≡ length xs + length ys
  length-append [] ys = omega arith
  length-append (x ∷ xs) ys = omega (arith, length-append xs ys)

module _ {ℓ} {A : Type ℓ} (p : A → Bool) (f : A → A) where
  pub update-append : (xs ys : List A) → update p f (xs ++ ys) ≡ update p f xs ++ update p f ys
  update-append [] ys = refl
  update-append (x ∷ xs) ys = rw (update-append xs ys)

  pub update-none : (xs : List A) → All (λ x. p x ≡ false) xs → update p f xs ≡ xs
  update-none [] h = refl
  update-none (x ∷ xs) h = rw (h.0, update-none xs h.1)

module _ {ℓ} {A : Type ℓ} (p : A → Bool) where
  pub find?-append-none : (xs ys : List A) → find? p xs ≡ none → find? p (xs ++ ys) ≡ find? p ys
  find?-append-none [] ys h = refl
  find?-append-none (x ∷ xs) ys h = ground (arith, find?-append-none xs ys)

  pub find?-append-some :
      (xs ys : List A) (a : A) → find? p xs ≡ some a → find? p (xs ++ ys) ≡ some a
  find?-append-some [] ys a h = cc
  find?-append-some (x ∷ xs) ys a h = ground (arith, find?-append-some xs ys a)

  pub find?-sound : (xs : List A) (a : A) → find? p xs ≡ some a → p a ≡ true
  find?-sound [] a h = cc
  find?-sound (x ∷ xs) a h = ground (arith, find?-sound xs a)

  pub find?-All {κ} : (P : A → Type κ) (xs : List A) (a : A) → find? p xs ≡ some a → All P xs → P a
  find?-All P [] a h all_hold = cc
  find?-All P (x ∷ xs) a h all_hold = elim (Bool-cases (p x)) [
    | inl hit ↦ subst P (some-injective x a (rw hit at h)) all_hold.0
    | inr miss ↦ find?-All P xs a (rw miss at h) all_hold.1
  ]

  pub find?-none-any : (xs : List A) → find? p xs ≡ none → any p xs ≡ false
  find?-none-any [] h = refl
  find?-none-any (x ∷ xs) h = ground (arith, find?-none-any xs)

  pub keep-append : (xs ys : List A) → keep p (xs ++ ys) ≡ keep p xs ++ keep p ys
  keep-append [] ys = refl
  keep-append (x ∷ xs) ys = ground (arith, keep-append xs ys)

  pub keep-none : (xs : List A) → All (λ x. p x ≡ false) xs → keep p xs ≡ []
  keep-none [] h = refl
  keep-none (x ∷ xs) h = rw (h.0, keep-none xs h.1)

  -- Rows that the first test accepts are not deleted by a second that rejects them.
  pub keep-discard :
      (q : A → Bool)
      → ((x : A) → p x ≡ true → q x ≡ false)
      → (xs : List A) → keep p (discard q xs) ≡ keep p xs
  keep-discard q apart [] = refl
  keep-discard q apart (x ∷ xs) = ground (arith, apart x, keep-discard q apart xs)

  pub keep-discard_self : (xs : List A) → keep p (discard p xs) ≡ []
  keep-discard_self [] = refl
  keep-discard_self (x ∷ xs) = ground (arith, keep-discard_self xs)

  pub All-discard {κ} : (P : A → Type κ) (xs : List A) → All P xs → All P (discard p xs)
  All-discard P [] h = tt
  All-discard P (x ∷ xs) h = elim (Bool-cases (p x)) [
    | inl hit ↦ rw hit (All-discard P xs h.1)
    | inr miss ↦ rw miss (h.0, All-discard P xs h.1)
  ]

abbrev pub get_elem? {ℓ} : {A : Type ℓ} → List A → ℕ → Option A
get_elem? [] i = none
get_elem? (x ∷ xs) zero = some x
get_elem? (x ∷ xs) (suc i) = get_elem? xs i

pub All-append {ℓ κ} :
    {A : Type ℓ} (P : A → Type κ) (xs ys : List A) → All P xs → All P ys → All P (xs ++ ys)
All-append P [] ys hx hy = hy
All-append P (x ∷ xs) ys hx hy = (hx.0, All-append P xs ys hx.1 hy)
