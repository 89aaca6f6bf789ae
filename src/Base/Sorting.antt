-- ===== src/Base/Sorting.antt =====
-- Insertion sort: what it keeps of a list, and that it sorts.
use mathlib.Core.Path.{◌≡◌, refl, ◌∙◌}
use mathlib.Core.Logic.{inl, inr}
use mathlib.Core.Bool.{Bool, true, false}
use mathlib.Core.List.{List, [], ◌∷◌}
use Prim.Native.Nat.{◌≤◌}
use native.Mathlib.Omega.{arith}
use mini_vault.Base.Logic.{Bool-cases}
use mini_vault.Base.Lists.{length, keep, insert_by, sort_by}

length-nil {ℓ} : {A : Type ℓ} (xs : List A) → length xs ≤ 0 → xs ≡ []
length-nil [] h = refl
length-nil (x ∷ xs) h = absurd (omega arith)

module _ {ℓ} {A : Type ℓ} (le : A → A → Bool) where
  -- Each row is not above the next.
  abbrev pub IsSorted : List A → Type 0
  IsSorted [] = Unit
  IsSorted (x ∷ []) = Unit
  IsSorted (x ∷ y ∷ ys) = (le x y ≡ true) × IsSorted (y ∷ ys)

  module _ (total : (x y : A) → le x y ≡ false → le y x ≡ true) where
    insert_by-IsSorted : (a : A) (xs : List A) → IsSorted xs → IsSorted (insert_by le a xs)
    insert_by-IsSorted a [] h = tt
    insert_by-IsSorted a (x ∷ []) h = elim (Bool-cases (le a x)) [
      | inl below ↦ rw below (below, tt)
      | inr above ↦ rw above (total a x above, tt)
    ]
    insert_by-IsSorted a (x ∷ y ∷ ys) h = elim (Bool-cases (le a x)) [
      | inl below ↦ rw below (below, h)
      | inr above ↦ elim (Bool-cases (le a y)) [
        | inl next ↦ rw (above, next) (total a x above, (next, h.1))
        | inr over ↦
            let rest = rw over at (insert_by-IsSorted a (y ∷ ys) h.1) in
            rw (above, over) (h.0, rest)
      ]
    ]

    pub sort_by-IsSorted : (xs : List A) → IsSorted (sort_by le xs)
    sort_by-IsSorted [] = tt
    sort_by-IsSorted (x ∷ xs) = insert_by-IsSorted x (sort_by le xs) (sort_by-IsSorted xs)

  module _ (q : A → Bool) where
    keep-insert_miss : (a : A) (xs : List A) → q a ≡ false → keep q (insert_by le a xs) ≡ keep q xs
    keep-insert_miss a [] miss = ground arith
    keep-insert_miss a (x ∷ xs) miss = ground (arith, keep-insert_miss a xs miss)

    keep-insert_hit :
        (a : A) (xs : List A) → q a ≡ true → keep q xs ≡ [] → keep q (insert_by le a xs) ≡ a ∷ []
    keep-insert_hit a [] hit alone = ground arith
    keep-insert_hit a (x ∷ xs) hit alone = elim (Bool-cases (q x)) [
      | inl also ↦ absurd (ground arith)
      | inr other ↦ ground (arith, keep-insert_hit a xs hit (ground arith))
    ]

    -- A query that finds one row at most finds the same in the sorted list.
    pub keep-sort_by : (xs : List A) → length (keep q xs) ≤ 1 → keep q (sort_by le xs) ≡ keep q xs
    keep-sort_by [] one = refl
    keep-sort_by (x ∷ xs) one = elim (Bool-cases (q x)) [
      | inl hit ↦
          let alone : keep q xs ≡ [] = length-nil (keep q xs) (ground (arith, one)) in
          keep-insert_hit x (sort_by le xs) hit (keep-sort_by xs (rw alone (omega arith)) ∙ alone)
          ∙ rw (hit, alone) refl
      | inr miss ↦
          let fewer : length (keep q xs) ≤ 1 = ground (arith, one) in
          keep-insert_miss x (sort_by le xs) miss ∙ keep-sort_by xs fewer ∙ rw miss refl
    ]
