-- ===== src/App/Limits.antt =====
-- request_size_limit: which requests pass.
use mini_vault.Base.{
  ℕ, ◌+◌, ◌≡◌, ◌≤◌, ◌<◌, refl, true, false, none, some, [], ◌∷◌, Text, arith, length, ltb, show,
  show-nonempty, if◌then◌else◌,
}
use mini_vault.Errors.{validation_error}
use mini_vault.Platform.{Platform, IsSound}
use mini_vault.PyInt.{int, max_digits}
use mini_vault.PyInt.RoundTrip.{int-show, int-negated}
use mini_vault.Db.{World}
use mini_vault.Http.{Response, Endpoint, failure}
use mini_vault.App.{Settings, over_limit, too_large, request_size_limit}

too_large-nonempty :
    (p : Platform) (st : Settings) (s : Text)
    → 0 < length s
    → too_large p st (some s) ≡ over_limit p st s
unfolding too_large
too_large-nonempty p st [] h = absurd (omega arith)
too_large-nonempty p st (c ∷ s) h = refl

over_limit-show :
    (p : Platform)
    → IsSound p
    → (st : Settings) (n : ℕ) → length (show n) ≤ max_digits
    → over_limit p st (show n) ≡ ltb (st.max_request_bytes + 8192) n
unfolding over_limit
over_limit-show p sound st n digits = rw (over_limit, int-show p sound n digits) refl

over_limit-none :
    (p : Platform) (st : Settings) (s : Text) → int p s ≡ none → over_limit p st s ≡ true
unfolding over_limit
over_limit-none p st s h = rw (over_limit, h) refl

over_limit-negated :
    (p : Platform)
    → IsSound p
    → (st : Settings) (n : ℕ) → length (show n) ≤ max_digits
    → over_limit p st (b'-' ∷ show n) ≡ false
unfolding over_limit
over_limit-negated p sound st n digits = rw (over_limit, int-negated p sound n digits) refl

-- A request whose content-length says n, in decimal with at most 4300 digits, is passed on
-- exactly when n is at most the limit and 8192 more, and is otherwise refused with 413 and
-- changes nothing; one whose header is not empty and not a number for `int` is refused so too; one
-- whose header says minus n, one with an empty header, and one without it are passed on.
pub request_size_limit_bounds :
    (p : Platform)
    → IsSound p
    → {A : Type 0} (st : Settings) (n : ℕ) (garbage : Text) (next : Endpoint A) (w : World)
    → length (show n) ≤ max_digits
    → int p garbage ≡ none
    → 0 < length garbage
    → let refused : Response A × World = (failure validation_error "Request is too large" 413, w) in
      (request_size_limit p st (some (show n)) next w
        ≡ (if ltb (st.max_request_bytes + 8192) n then refused else next w))
      × (request_size_limit p st (some garbage) next w ≡ refused)
      × (request_size_limit p st (some (b'-' ∷ show n)) next w ≡ next w)
      × (request_size_limit p st (some []) next w ≡ next w)
      × (request_size_limit p st none next w ≡ next w)
unfolding request_size_limit
request_size_limit_bounds p sound st n garbage next w digits bad nonempty = (
  rw (too_large-nonempty p st (show n) (show-nonempty n), over_limit-show p sound st n digits) refl,
  rw (too_large-nonempty p st garbage nonempty, over_limit-none p st garbage bad) refl,
  rw (too_large-nonempty p st (b'-' ∷ show n) (omega arith), over_limit-negated p sound st n digits)
      refl,
  refl,
  refl,
)
