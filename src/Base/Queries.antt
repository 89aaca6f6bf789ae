-- ===== src/Base/Queries.antt =====
-- One query after another, and what an assignment or a new row does to the rows that a query keeps.
use Prim.Native.Nat.{ℕ}
use mathlib.Core.Path.{◌≡◌, refl, ap}
use mathlib.Core.Logic.{inl, inr}
use mathlib.Core.Bool.{Bool, false, ◌&&◌}
use mathlib.Core.Option.{none, some, some-injective}
use mathlib.Core.List.{List, [], ◌∷◌, ◌++◌, map, append-nil}
use native.Mathlib.Omega.{arith}
use mini_vault.Base.Logic.{Bool-cases, ◌==◌}
use mini_vault.Base.Lists.{find?, keep, update, All, find?-All, keep-append, keep-none}
use mini_vault.Base.Tables.{UniqueBy}

module _ {ℓ} {A : Type ℓ} (p : A → Bool) where
  pub find?-keep : (q : A → Bool) (xs : List A) → find? q (keep p xs) ≡ find? (λ x. p x && q x) xs
  find?-keep q [] = refl
  find?-keep q (x ∷ xs) = ground (arith, find?-keep q xs)

  pub keep-keep : (q : A → Bool) (xs : List A) → keep q (keep p xs) ≡ keep (λ x. p x && q x) xs
  keep-keep q [] = refl
  keep-keep q (x ∷ xs) = ground (arith, keep-keep q xs)

  pub keep-swap : (q : A → Bool) (xs : List A) → keep q (keep p xs) ≡ keep p (keep q xs)
  keep-swap q [] = refl
  keep-swap q (x ∷ xs) = ground (arith, keep-swap q xs)

  pub keep-missing : (xs : List A) → find? p xs ≡ none → keep p xs ≡ []
  keep-missing [] h = refl
  keep-missing (x ∷ xs) h = ground (arith, keep-missing xs)

  pub All-keep {κ} : (P : A → Type κ) (xs : List A) → All P xs → All P (keep p xs)
  All-keep P [] h = tt
  All-keep P (x ∷ xs) h = elim (Bool-cases (p x)) [
    | inl hit ↦ rw hit (h.0, All-keep P xs h.1)
    | inr miss ↦ rw miss (All-keep P xs h.1)
  ]

  pub keep-All :
      (r : A → Bool) (xs : List A)
      → All (λ x. (p x && r x) ≡ false) xs
      → All (λ x. r x ≡ false) (keep p xs)
  keep-All r [] h = tt
  keep-All r (x ∷ xs) h = elim (Bool-cases (p x)) [
    | inl hit ↦ let here = h.0 in rw hit (ground arith, keep-All r xs h.1)
    | inr miss ↦ rw miss (keep-All r xs h.1)
  ]

  -- New rows that the query does not keep.
  pub keep-append_none :
      (xs ys : List A) → All (λ x. p x ≡ false) ys → keep p (xs ++ ys) ≡ keep p xs
  keep-append_none xs ys h = rw (keep-append p xs ys, keep-none p ys h, append-nil (keep p xs)) refl

  -- An assignment to rows that the query does not keep.
  pub keep-update :
      (r : A → Bool) (f : A → A)
      → ((x : A) → p (f x) ≡ p x)
      → (xs : List A) → All (λ x. (p x && r x) ≡ false) xs
      → keep p (update r f xs) ≡ keep p xs
  keep-update r f blind [] h = refl
  keep-update r f blind (x ∷ xs) h =
      let here = h.0 in ground (arith, blind x, keep-update r f blind xs h.1)

pub All-imp {ℓ κ μ} :
    {A : Type ℓ} (P : A → Type κ) (Q : A → Type μ)
    → ((x : A) → P x → Q x)
    → (xs : List A) → All P xs
    → All Q xs
All-imp P Q step [] h = tt
All-imp P Q step (x ∷ xs) h = (step x h.0, All-imp P Q step xs h.1)

pub All-always {ℓ κ} : {A : Type ℓ} (P : A → Type κ) → ((x : A) → P x) → (xs : List A) → All P xs
All-always P holds [] = tt
All-always P holds (x ∷ xs) = (holds x, All-always P holds xs)

pub map-All {ℓ κ} :
    {A : Type ℓ} {B : Type κ} (f g : A → B) (xs : List A)
    → All (λ x. f x ≡ g x) xs
    → map f xs ≡ map g xs
map-All f g [] h = refl
map-All f g (x ∷ xs) h = rw (h.0, map-All f g xs h.1) refl

-- The rows that share the key of one that a test rejects are rejected too.
pub UniqueBy-apart {ℓ} :
    {A : Type ℓ} (k : A → ℕ) (q p : A → Bool) (xs : List A) (a : A)
    → UniqueBy k xs
    → find? q xs ≡ some a
    → p a ≡ false
    → All (λ x. (p x && (k x == k a)) ≡ false) xs
UniqueBy-apart k q p [] a h e other = tt
UniqueBy-apart k q p (x ∷ xs) a h e other = elim (Bool-cases (q x)) [
  | inl hit ↦
      let same_row = some-injective x a (rw hit at e) in
      let rejected : p x ≡ false = rw same_row other in
      (
        ground arith,
        All-imp (λ y. (k y == k x) ≡ false) (λ y. (p y && (k y == k a)) ≡ false)
            (λ y hy. let ids : k x ≡ k a = ap k same_row in ground arith) xs h.0,
      )
  | inr miss ↦
      let later = rw miss at e in
      let apart = find?-All q (λ y. (k y == k x) ≡ false) xs a later h.0 in
      (ground arith, UniqueBy-apart k q p xs a h.1 later other)
]
