-- ===== src/Base/Texts.antt =====
-- Python's `str` and `bytes` as lists of code points and of byte values.
use Prim.Native.Nat.{ℕ, zero, suc}
use Prim.Native.Char.{code}
use Prim.Native.String.{String}
use mathlib.Core.Path.{◌≡◌, refl}
use mathlib.Core.Logic.{◌↔◌, ◌≢◌}
use mathlib.Core.Bool.{Bool, true, false, ◌||◌, ◌&&◌}
use mathlib.Core.List.{List, [], ◌∷◌, ◌++◌}
use native.Mathlib.Omega.{arith}
use mini_vault.Base.Lists.{All}
use mini_vault.Base.Logic.{==_iff, ◌==◌, if◌then◌else◌}

-- The code points of a `str`.
abbrev pub Text : Type 0
Text = List ℕ

abbrev pub Bytes : Type 0
Bytes = List ℕ

-- A literal of the source.
abbrev pub text : String → Text
text String.[] = []
text (String.◌∷◌ c s) = code c ∷ text s

-- `a == b` on `str` or `bytes`.
unfoldable pub same : Text → Text → Bool
same [] [] = true
same [] (y ∷ ys) = false
same (x ∷ xs) [] = false
same (x ∷ xs) (y ∷ ys) = (x == y) && same xs ys

pub same_refl : (s : Text) → same s s ≡ true
unfolding same
same_refl [] = refl
same_refl (x ∷ xs) = ground (arith, same_refl xs)

pub same_sound : (s t : Text) → same s t ≡ true → s ≡ t
unfolding same
same_sound [] [] h = refl
same_sound [] (y ∷ ys) h = cc
same_sound (x ∷ xs) [] h = cc
same_sound (x ∷ xs) (y ∷ ys) h = ground (arith, same_sound xs ys)

pub same_iff : (s t : Text) → (same s t ≡ true) ↔ (s ≡ t)
same_iff s t = (same_sound s t, λ e. rw e (same_refl t))

-- `s.startswith(p)`.
unfoldable pub starts_with : Text → Text → Bool
starts_with s [] = true
starts_with [] (y ∷ p) = false
starts_with (x ∷ s) (y ∷ p) = (x == y) && starts_with s p

-- `p in s`.
unfoldable pub contains : Text → Text → Bool
unfolding starts_with
contains [] p = starts_with [] p
contains (x ∷ s) p = starts_with (x ∷ s) p || contains s p

-- `s.split(sep, n)` for a separator of one character: at most `n` cuts.
unfoldable pub split : ℕ → ℕ → Text → List Text
split sep n [] = [] ∷ []
split sep zero (c ∷ s) = (c ∷ s) ∷ []
split sep (suc n) (c ∷ s) =
    let cut = split sep n s in
    let longer = split sep (suc n) s in
    if c == sep
    then [] ∷ cut
    else elim longer [ [] ↦ (c ∷ []) ∷ [] | part ∷ parts ↦ (c ∷ part) ∷ parts ]

-- A text that holds no `sep` can be told from what follows the first `sep` behind it.
pub cut-injective :
    (sep : ℕ) (s t u v : Text)
    → All (λ c. c ≢ sep) s
    → All (λ c. c ≢ sep) t
    → s ++ sep ∷ u ≡ t ++ sep ∷ v
    → (s ≡ t) × (u ≡ v)
cut-injective sep [] [] u v hs ht e = (refl, cc)
cut-injective sep [] (y ∷ t) u v hs ht e = absurd (ht.0 (cc))
cut-injective sep (x ∷ s) [] u v hs ht e = absurd (hs.0 (cc))
cut-injective sep (x ∷ s) (y ∷ t) u v hs ht e =
    let tails : s ++ sep ∷ u ≡ t ++ sep ∷ v = cc in
    let (es, eu) = cut-injective sep s t u v hs.1 ht.1 tails in (cc, eu)

-- The parts of an f-string that one character separates.
abbrev pub joined : ℕ → List Text → Text
joined sep [] = []
joined sep (s ∷ []) = s
joined sep (s ∷ t ∷ ts) = s ++ sep ∷ joined sep (t ∷ ts)

-- `split` takes off a first part that holds no separator.
pub split-part :
    (sep n : ℕ) (s t : Text)
    → All (λ c. c ≢ sep) s
    → split sep (suc n) (s ++ sep ∷ t) ≡ s ∷ split sep n t
unfolding split
split-part sep n [] t h = ground arith
split-part sep n (c ∷ s) t h = ground (arith, split-part sep n s t h.1)

-- With no cut left the rest is one part.
pub split-rest : (sep : ℕ) (t : Text) → split sep 0 t ≡ t ∷ []
unfolding split
split-rest sep [] = refl
split-rest sep (c ∷ t) = refl

-- What a test on numbers or texts decides, for `grind`.
pub ruleset tests = (arith, ==_iff, same_iff, same_refl)
