-- ===== src/Utils.antt =====
-- app/utils: validation of passphrases, key names and secret paths, and strict Base64.
pub mod Namespace
use mini_vault.Base.{
  ℕ, ◌≤◌, Bool, true, false, not, ◌&&◌, ◌||◌, Option, none, some, List, [], ◌∷◌, ◌++◌, Text, Bytes,
  ⊤, length, any, all, ltb, leb, ◌==◌, if◌then◌else◌, text, same, starts_with, contains,
}
use mini_vault.Errors.{
  Result, ok, raise, app_error, raise_if, ◌>>◌, ErrorCode, weak_passphrase, validation_error,
  permission_denied,
}
use mini_vault.Platform.{Platform}

abbrev pub is_upper : ℕ → Bool
is_upper c = leb b'A' c && leb c b'Z'

abbrev pub is_lower : ℕ → Bool
is_lower c = leb b'a' c && leb c b'z'

abbrev pub is_ascii_digit : ℕ → Bool
is_ascii_digit c = leb b'0' c && leb c b'9'

-- `[A-Za-z0-9]`
abbrev pub is_alnum : ℕ → Bool
is_alnum c = is_upper c || is_lower c || is_ascii_digit c

-- `\d` on a `str`: any decimal digit of Unicode.
abbrev pub is_digit : Platform → ℕ → Bool
is_digit p c = elim (p.decimal? c) [ none ↦ false | some _ ↦ true ]

unfoldable pub validate_passphrase : Platform → Text → Result ⊤
validate_passphrase p value =
    raise_if
      (ltb (length value) 12
        || not (any is_upper value)
        || not (any is_lower value)
        || not (any (is_digit p) value)
        || not (any (λ c. not (is_alnum c)) value))
      weak_passphrase "Passphrase does not meet security requirements" 400

abbrev pub is_key_char : ℕ → Bool
is_key_char c = is_alnum c || c == b'_' || c == b'-'

-- `KEY_NAME_RE.fullmatch`, of `^[A-Za-z0-9_-]{3,64}$`
unfoldable pub matches_key_name : Text → Bool
matches_key_name value = leb 3 (length value) && leb (length value) 64 && all is_key_char value

unfoldable pub validate_key_name : Text → Result ⊤
unfolding matches_key_name
validate_key_name value =
    raise_if (not (matches_key_name value)) validation_error "Invalid key name" 422

-- `f"secret/{email}/"`
abbrev pub prefix_of : Text → Text
prefix_of email = text "secret/" ++ (email ++ text "/")

unfoldable pub validate_path : Text → Text → Result ⊤
validate_path path email =
    let prefix = prefix_of email in
    raise_if
      (ltb 512 (length path)
        || length path == 0
        || contains path (text "..")
        || contains path (92 ∷ [])
        || contains path (0 ∷ []))
      validation_error "Invalid secret path" 422
    >> raise_if (not (starts_with path (text "secret/"))) validation_error "Invalid secret path" 422
    >> raise_if (not (starts_with path prefix) || length path == length prefix) permission_denied
        "Permission denied" 403

module _ (p : Platform) where
  unfoldable pub b64e : Bytes → Text
  b64e value = p.b64encode value

  unfoldable pub b64d : Text → ErrorCode → Result Bytes
  b64d value code = elim (p.b64decode value) [
    | some b ↦ ok b
    | none ↦ app_error code "Invalid Base64 data" 400
  ]
