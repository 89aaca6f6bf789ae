-- ===== src/Transit/Envelope.antt =====
-- The envelope of a transit ciphertext: what `encrypt` prints, `decrypt` reads back.
use mini_vault.Base.{
  ℕ, zero, suc, ◌≤◌, ◌<◌, ◌≡◌, refl, ap, ◌≢◌, true, some, [], ◌∷◌, ◌++◌, Text, Bytes, arith, text,
  length, length-append, take, drop, all, All, IsDigit, show, show-digits, split, split-part,
  split-rest, same, starts_with, and-true,
}
use mini_vault.Errors.{ok}
use mini_vault.Platform.{Platform, IsSound}
use mini_vault.PyInt.{max_digits}
use mini_vault.PyInt.RoundTrip.{int-show}
use mini_vault.Utils.{matches_key_name, is_key_char, b64e, b64d}
use mini_vault.Vault
use mini_vault.Db.{World, TransitKey}
use mini_vault.Transit.{
  encrypt_decrypt, find_key, current_version, version_or_one, message_aad, envelope_of,
  envelope_parts, max_plaintext, material, encrypt, decrypt,
}

abbrev pub NoColon : Text → Type 0
NoColon s = All (λ c. c ≢ b':') s

key_chars-NoColon : (s : Text) → all is_key_char s ≡ true → NoColon s
key_chars-NoColon [] h = tt
key_chars-NoColon (c ∷ s) h =
    (ground arith, key_chars-NoColon s (and-true (is_key_char c) (all is_key_char s) h).1)

-- What an accepted key name is.
pub matches_key_name_sound :
    (name : Text)
    → matches_key_name name ≡ true
    → NoColon name × (3 ≤ length name) × (length name ≤ 64)
unfolding matches_key_name
matches_key_name_sound name h = (key_chars-NoColon name (ground arith), ground arith, ground arith)

pub digits-NoColon : (s : Text) → All IsDigit s → NoColon s
digits-NoColon [] h = tt
digits-NoColon (c ∷ s) h = (omega arith, digits-NoColon s h.1)

-- An envelope comes apart into the parts that it was made of.
pub parts-envelope_of :
    (version : ℕ) (name blob : Text)
    → NoColon name
    → 0 < length name
    → envelope_parts (split b':' 3 (envelope_of version name blob))
      ≡ some (show version, name, blob)
unfolding envelope_of same starts_with
parts-envelope_of version name blob plain nonempty =
    let digits = digits-NoColon (show version) (show-digits version) in
    rw
      (
        split-part b':' 2 (text "vault")
            ((text "v" ++ show version) ++ b':' ∷ (name ++ b':' ∷ blob)) (omega arith),
        split-part b':' 1 (text "v" ++ show version) (name ++ b':' ∷ blob) (omega arith, digits),
        split-part b':' 0 name blob plain,
        split-rest b':' blob,
      )
      (ground arith)

message_aad-length :
    (email name : Text) (version : ℕ)
    → length email ≤ 320
    → length name ≤ 64
    → length (show version) ≤ max_digits
    → length (message_aad email name version) ≤ 5000
unfolding message_aad
message_aad-length email name version he hn hv = omega (
  arith,
  length-append email (b':' ∷ (name ++ b':' ∷ (text "v" ++ show version))),
  length-append name (b':' ∷ (text "v" ++ show version)),
)

take-length :
    (n : ℕ) (xs ys : Bytes) → length xs ≡ n → (take n (xs ++ ys) ≡ xs) × (drop n (xs ++ ys) ≡ ys)
take-length zero [] ys h = (refl, refl)
take-length zero (x ∷ xs) ys h = absurd (omega arith)
take-length (suc n) [] ys h = absurd (omega arith)
take-length (suc n) (x ∷ xs) ys h =
    let (taken, dropped) = take-length n xs ys (omega arith) in
    (ap (λ (s : Bytes). x ∷ s) taken, dropped)

module _ (p : Platform) (sound : IsSound p) where
  -- In an open vault, with the caller's own encryption key under a valid name, whose current
  -- version is at least 1, has at most 4300 digits and unwraps to 32 bytes, for an e-mail of at
  -- most 320 characters, a Base64 plaintext of at most 1 MiB and a 12-byte nonce: `encrypt`
  -- succeeds, and `decrypt` of its envelope is the plaintext in Base64.
  pub decrypt-encrypt :
      (nonce : Bytes) (email name plaintext_b64 : Text) (raw secret : Bytes) (key : TransitKey)
      (w : World)
      → matches_key_name name ≡ true
      → length email ≤ 320
      → find_key email name (some encrypt_decrypt) w ≡ ok key
      → p.b64decode plaintext_b64 ≡ some raw
      → length raw ≤ max_plaintext
      → 1 ≤ version_or_one (current_version w.work key)
      → length (show (version_or_one (current_version w.work key))) ≤ max_digits
      → material p key (some (version_or_one (current_version w.work key))) w ≡ ok secret
      → length secret ≡ 32
      → length nonce ≡ 12
      → (envelope : Text) × (encrypt p nonce email name plaintext_b64 w ≡ ok envelope)
        × (decrypt p email envelope w ≡ ok (p.b64encode raw))
  unfolding encrypt decrypt b64e b64d Vault.encrypt Vault.decrypt
  decrypt-encrypt nonce email name plaintext_b64 raw secret key w named he found decoded small v1 vd
        unwrapped hs hn =
      let (plain, long, short) = matches_key_name_sound name named in
      let v = version_or_one (current_version w.work key) in
      let aad = p.encode (message_aad email name v) in
      let (c, ec, dc, lc) = sound.aes-round secret nonce raw aad hs hn (omega arith) (
        omega (
          arith,
          sound.encode-length (message_aad email name v),
          message_aad-length email name v he short vd,
        )) in
      let (taken, dropped) = take-length 12 nonce c hn in
      let parts = parts-envelope_of v name (p.b64encode (nonce ++ c)) plain (omega arith) in
      (
        envelope_of v name (p.b64encode (nonce ++ c)),
        ground arith,
        ground (
          arith,
          parts,
          int-show p sound v vd,
          sound.b64-round (nonce ++ c),
          length-append nonce c,
        ),
      )
