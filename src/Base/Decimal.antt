-- ===== src/Base/Decimal.antt =====
-- Python's `str` of an int that is not negative, and the value of a run of digits.
use Prim.Native.Nat.{ℕ, zero, suc, ◌+◌, ◌-◌, ◌*◌, ◌/◌, ◌%◌, ◌<◌, ◌≤◌}
use mathlib.Core.Path.{◌≡◌, refl, sym, ap, ◌∙◌}
use mathlib.Core.Logic.{inl, inr}
use mathlib.Core.List.{[], ◌∷◌, ◌++◌}
use native.Mathlib.Omega.{arith}
use mini_vault.Base.Logic.{ltb, if◌then◌else◌, Bool-cases}
use mini_vault.Base.Lists.{All-append, length, length-append, All}
use mini_vault.Base.Texts.{Text}

show_fuel : ℕ → ℕ → Text
show_fuel zero n = []
show_fuel (suc f) n =
    let high = show_fuel f (n / 10) in
    if ltb n 10 then (n + 48) ∷ [] else high ++ (n % 10 + 48) ∷ []

-- `str(n)`; a number has no more digits than its value and one.
unfoldable pub show : ℕ → Text
unfolding show_fuel
show n = show_fuel (suc n) n

-- The value of a text of ASCII digits, from the left.
unfoldable pub value_from : ℕ → Text → ℕ
value_from acc [] = acc
value_from acc (c ∷ s) = value_from (acc * 10 + (c - 48)) s

pub value_from-append :
    (acc : ℕ) (s t : Text) → value_from acc (s ++ t) ≡ value_from (value_from acc s) t
unfolding value_from
value_from-append acc [] t = refl
value_from-append acc (c ∷ s) t = value_from-append (acc * 10 + (c - 48)) s t

abbrev pub IsDigit : ℕ → Type 0
IsDigit c = (48 ≤ c) × (c < 58)

show_fuel-value : (f n : ℕ) → n < f → value_from 0 (show_fuel f n) ≡ n
unfolding show_fuel value_from
show_fuel-value zero n h = elim h [ ]
show_fuel-value (suc f) n h = elim (Bool-cases (ltb n 10)) [
  | inl small ↦ rw small (omega arith)
  | inr large ↦ rw large (
      value_from-append 0 (show_fuel f (n / 10)) ((n % 10 + 48) ∷ [])
      ∙ ground (arith, show_fuel-value f (n / 10)))
]

show_fuel-digits : (f n : ℕ) → All IsDigit (show_fuel f n)
unfolding show_fuel
show_fuel-digits zero n = tt
show_fuel-digits (suc f) n = elim (Bool-cases (ltb n 10)) [
  | inl small ↦ rw small (ground arith)
  | inr large ↦ rw large (
      All-append IsDigit (show_fuel f (n / 10)) ((n % 10 + 48) ∷ []) (show_fuel-digits f (n / 10))
        (omega arith))
]

pub value_from-show : (n : ℕ) → value_from 0 (show n) ≡ n
unfolding show
value_from-show n = show_fuel-value (suc n) n (omega arith)

pub show-digits : (n : ℕ) → All IsDigit (show n)
unfolding show
show-digits n = show_fuel-digits (suc n) n

pub show-injective : (m n : ℕ) → show m ≡ show n → m ≡ n
show-injective m n e = sym (value_from-show m) ∙ ap (value_from 0) e ∙ value_from-show n

pub show-nonempty : (n : ℕ) → 0 < length (show n)
unfolding show show_fuel
show-nonempty n = elim (Bool-cases (ltb n 10)) [
  | inl small ↦ rw small (omega arith)
  | inr large ↦ rw large (omega (arith, length-append (show_fuel n (n / 10)) ((n % 10 + 48) ∷ [])))
]
