-- ===== src/Utils/Namespace.antt =====
-- validate_path: what an accepted path is, and that the namespaces of two users are apart.
use mini_vault.Base.{
  ◌≤◌, ◌≡◌, refl, sym, ◌∙◌, ◌≢◌, true, false, [], ◌∷◌, ◌++◌, append_assoc, Text, arith, length, All,
  starts_with, contains, cut-injective, text,
}
use mini_vault.Errors.{ok}
use mini_vault.Utils.{prefix_of, validate_path}

pub starts_with_sound : (s p : Text) → starts_with s p ≡ true → (r : Text) × (s ≡ p ++ r)
unfolding starts_with
starts_with_sound s [] h = (s, refl)
starts_with_sound [] (y ∷ p) h = (absurd (cc), cc)
starts_with_sound (x ∷ s) (y ∷ p) h =
    let (r, e) = starts_with_sound s p (ground arith) in (r, ground arith)

-- An accepted path has at most 512 characters, begins with the caller's namespace, and goes on
-- behind it; it holds no "..", no backslash and no NUL.
pub validate_path_sound :
    (path email : Text)
    → validate_path path email ≡ ok tt
    → (length path ≤ 512)
      × (starts_with path (prefix_of email) ≡ true)
      × (length path ≢ length (prefix_of email))
      × (contains path (text "..") ≡ false)
      × (contains path (92 ∷ []) ≡ false)
      × (contains path (0 ∷ []) ≡ false)
unfolding validate_path
validate_path_sound path email h = ground arith

-- An address as `EmailStr` lets it through: one part before an `@`, and a domain with no slash.
abbrev pub IsEmail : Text → Type 0
IsEmail e =
    (l : Text) × (d : Text) × (e ≡ l ++ b'@' ∷ d) × All (λ c. c ≢ b'@') l × All (λ c. c ≢ b'/') d

prefix_of-injective :
    (e f r s : Text) → IsEmail e → IsEmail f → prefix_of e ++ r ≡ prefix_of f ++ s → e ≡ f
prefix_of-injective e f r s (l, d, ee, hl, hd) (m, g, ef, hm, hg) same_path =
    let tails : (e ++ b'/' ∷ []) ++ r ≡ (f ++ b'/' ∷ []) ++ s = cc in
    let unfolded : l ++ b'@' ∷ (d ++ b'/' ∷ r) ≡ m ++ b'@' ∷ (g ++ b'/' ∷ s) =
      simp append_assoc at (rw (ee, ef) at tails) in
    let (locals, rest) = cut-injective b'@' l m (d ++ b'/' ∷ r) (g ++ b'/' ∷ s) hl hm unfolded in
    let (domains, _) = cut-injective b'/' d g r s hd hg rest in ee ∙ cc (locals, domains) ∙ sym ef

-- No path is accepted for two different addresses, each of one `@` and no slash in the domain:
-- what one user may name is closed to every other.
pub validate_path-exclusive :
    (path e f : Text)
    → IsEmail e
    → IsEmail f
    → validate_path path e ≡ ok tt
    → validate_path path f ≡ ok tt
    → e ≡ f
validate_path-exclusive path e f he hf oke okf =
    let (r, er) = starts_with_sound path (prefix_of e) (validate_path_sound path e oke).1 in
    let (s, es) = starts_with_sound path (prefix_of f) (validate_path_sound path f okf).1 in
    prefix_of-injective e f r s he hf (sym er ∙ es)
