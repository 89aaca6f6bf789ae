-- ===== src/PyInt.antt =====
-- Python's `str.strip` and `int(str)`, which the envelope of a transit ciphertext goes through.
pub mod RoundTrip
use mini_vault.Base.{
  ℕ, ◌+◌, ◌*◌, Bool, true, false, ◌&&◌, ◌||◌, Option, none, some, List, [], ◌∷◌, Text, leb, ltb,
  ◌==◌, if◌then◌else◌,
}
use mathlib.Core.List.{reverse}
use mini_vault.Platform.{Platform}

-- An int: its sign (true for "-") and its magnitude.
abbrev pub Signed : Type 0
Signed = Bool × ℕ

-- sys.get_int_max_str_digits()
abbrev pub max_digits : ℕ
max_digits = 4300

unfoldable strip_left : (ℕ → Bool) → Text → Text
strip_left space [] = []
strip_left space (c ∷ s) = let rest = strip_left space s in if space c then rest else c ∷ s

unfoldable strip_by : (ℕ → Bool) → Text → Text
unfolding strip_left
strip_by space s = reverse (strip_left space (reverse (strip_left space s)))

module _ (p : Platform) where
  -- `s.strip()`
  unfoldable pub strip : Text → Text
  unfolding strip_by
  strip s = strip_by p.is_space s

  -- What `int` skips on both sides: of ASCII the white space of C, which has not U+001C to U+001F,
  -- and of the other characters what `str.isspace` accepts.
  abbrev int_space : ℕ → Bool
  int_space c = if ltb c 128 then c == 32 || leb 9 c && leb c 13 else p.is_space c

  -- The digits from here on, of which single underscores may separate any two; `behind` says
  -- that a digit has just been read.
  unfoldable pub digits_from : ℕ → Bool → Text → Option ℕ
  digits_from acc behind [] = if behind then some acc else none
  digits_from acc behind (c ∷ s) =
      let skipped = digits_from acc false s in
      let next : ℕ → Option ℕ = λ d. digits_from (acc * 10 + d) true s in
      if c == b'_'
      then (if behind then skipped else none)
      else elim (p.decimal? c) [ none ↦ none | some d ↦ next d ]

  abbrev pub digit_count : Text → ℕ
  digit_count [] = 0
  digit_count (c ∷ s) = elim (p.decimal? c) [ none ↦ digit_count s | some _ ↦ digit_count s + 1 ]

  -- The magnitude, or `none` for the ValueError.
  unfoldable pub magnitude : Text → Option ℕ
  unfolding digits_from
  magnitude s = if ltb max_digits (digit_count s) then none else digits_from 0 false s

  abbrev pub signed : Bool → Option ℕ → Option Signed
  signed negative none = none
  signed negative (some n) = some (negative, n)

  abbrev pub sign_and_magnitude : Text → Option Signed
  sign_and_magnitude [] = none
  sign_and_magnitude (c ∷ s) =
      if c == b'-'
      then signed true (magnitude s)
      else if c == b'+'
      then signed false (magnitude s)
      else signed false (magnitude (c ∷ s))

  -- `int(s)`
  unfoldable pub int : Text → Option Signed
  unfolding strip_by magnitude
  int s = sign_and_magnitude (strip_by int_space s)
