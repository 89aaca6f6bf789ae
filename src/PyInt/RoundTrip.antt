-- ===== src/PyInt/RoundTrip.antt =====
-- `int(str(n))` is `n` and `int(str(-n))` is `-n`, as long as n has no more digits than `int` reads.
use mini_vault.Base.{
  ℕ, ◌+◌, ◌*◌, ◌-◌, ◌≤◌, ◌<◌, ◌≡◌, refl, ◌∙◌, ap, Bool, true, false, some, List, [], ◌∷◌, Text,
  arith, length, All, All-append, IsDigit, show, show-digits, show-nonempty, value_from,
  value_from-show,
}
use mathlib.Core.List.{reverse, reverse-reverse, reverse-cons}
use mini_vault.Platform.{Platform, IsSound}
use mini_vault.PyInt.{
  int_space, strip_left, strip_by, digits_from, digit_count, magnitude, int, max_digits,
}

All-reverse : {A : Type 0} (P : A → Type 0) (xs : List A) → All P xs → All P (reverse xs)
All-reverse P [] h = tt
All-reverse P (x ∷ xs) h =
    rw reverse-cons (All-append P (reverse xs) (x ∷ []) (All-reverse P xs h.1) (h.0, tt))

module _ (p : Platform) (sound : IsSound p) where
  -- What has no white space is not stripped.
  abbrev IsSolid : ℕ → Type 0
  IsSolid c = int_space p c ≡ false

  digits-IsSolid : (s : Text) → All IsDigit s → All IsSolid s
  digits-IsSolid [] h = tt
  digits-IsSolid (c ∷ s) h = (ground arith, digits-IsSolid s h.1)

  strip_left-IsSolid : (s : Text) → All IsSolid s → strip_left (int_space p) s ≡ s
  unfolding strip_left
  strip_left-IsSolid [] h = refl
  strip_left-IsSolid (c ∷ s) h = rw h.0 refl

  strip_by-IsSolid : (s : Text) → All IsSolid s → strip_by (int_space p) s ≡ s
  unfolding strip_by
  strip_by-IsSolid s h =
      rw (strip_left-IsSolid s h, strip_left-IsSolid (reverse s) (All-reverse IsSolid s h))
        (reverse-reverse s)

  digits_from-value :
      (acc : ℕ) (behind : Bool) (c : ℕ) (s : Text)
      → All IsDigit (c ∷ s)
      → digits_from p acc behind (c ∷ s) ≡ some (value_from acc (c ∷ s))
  unfolding digits_from value_from
  digits_from-value acc behind c [] h = ground (arith, sound.decimal_ascii c h.0)
  digits_from-value acc behind c (d ∷ s) h =
      ground
        (arith, sound.decimal_ascii c h.0, digits_from-value (acc * 10 + (c - 48)) true d s h.1)

  digit_count-digits : (s : Text) → All IsDigit s → digit_count p s ≡ length s
  digit_count-digits [] h = refl
  digit_count-digits (c ∷ s) h = ground (arith, sound.decimal_ascii c h.0, digit_count-digits s h.1)

  magnitude-digits :
      (c : ℕ) (s : Text)
      → All IsDigit (c ∷ s)
      → length (c ∷ s) ≤ max_digits
      → magnitude p (c ∷ s) ≡ some (value_from 0 (c ∷ s))
  unfolding magnitude
  magnitude-digits c s h short =
      ground (arith, digit_count-digits (c ∷ s) h, digits_from-value 0 false c s h)

  -- the digits alone, and behind a minus sign
  int-digits :
      (c : ℕ) (s : Text)
      → All IsDigit (c ∷ s)
      → length (c ∷ s) ≤ max_digits
      → (int p (c ∷ s) ≡ some (false, value_from 0 (c ∷ s)))
        × (int p (b'-' ∷ c ∷ s) ≡ some (true, value_from 0 (c ∷ s)))
  unfolding int
  int-digits c s h short =
      let m = magnitude-digits c s h short in
      let solid = digits-IsSolid (c ∷ s) h in
      (
        rw (strip_by-IsSolid (c ∷ s) solid) (ground arith),
        rw (strip_by-IsSolid (b'-' ∷ c ∷ s) (ground arith, solid)) (ground arith),
      )

  int-shown :
      (n : ℕ)
      → length (show n) ≤ max_digits
      → (int p (show n) ≡ some (false, n)) × (int p (b'-' ∷ show n) ≡ some (true, n))
  int-shown n = by_text (show n) (show-digits n) (show-nonempty n) (value_from-show n)
    where
      by_text :
          (s : Text)
          → All IsDigit s
          → 0 < length s
          → value_from 0 s ≡ n
          → length s ≤ max_digits
          → (int p s ≡ some (false, n)) × (int p (b'-' ∷ s) ≡ some (true, n))
      by_text [] h nonempty e short = elim nonempty [ ]
      by_text (c ∷ s) h nonempty e short =
          let (plain, negated) = int-digits c s h short in
          (plain ∙ ap (λ m. some (false, m)) e, negated ∙ ap (λ m. some (true, m)) e)

  pub int-show : (n : ℕ) → length (show n) ≤ max_digits → int p (show n) ≡ some (false, n)
  int-show n short = (int-shown n short).0

  pub int-negated : (n : ℕ) → length (show n) ≤ max_digits → int p (b'-' ∷ show n) ≡ some (true, n)
  int-negated n short = (int-shown n short).1
