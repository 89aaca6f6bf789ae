-- ===== src/Platform.antt =====
-- What the program calls and does not implement: cryptography (AESGCM, argon2, Ed25519), the
-- standard library's base64, SHA-256 and json, and the tables of Unicode. The operations are
-- fields of `Platform`, an argument of all that uses them; what the library's documentation
-- promises of them is the record `IsSound`.
pub mod Sample
use mini_vault.Base.{
  ℕ, Bool, true, List, Option, some, none, ◌≡◌, ◌≤◌, ◌<◌, ◌+◌, ◌*◌, ◌-◌, IsDigit, false, Text,
  Bytes, length, ⊤, All, ◌⊎◌,
}
use mini_vault.Errors.{Result, ok, raise}

-- `DEFAULT_PARAMS` of app/core/key_derivation.py and any other value that a row may hold.
pub record KdfParams : Type 0 where
  pub time_cost : ℕ
  pub memory_cost : ℕ
  pub parallelism : ℕ
  pub hash_len : ℕ

abbrev pub default_params : KdfParams
default_params = record { time_cost = 3; memory_cost = 65536; parallelism = 2; hash_len = 32 }

pub record Platform : Type 0 where
  -- base64.b64encode(...).decode(), and b64decode(..., validate=True) with `none` for its error
  pub b64encode : Bytes → Text
  pub b64decode : Text → Option Bytes
  -- str.encode()
  pub encode : Text → Bytes
  -- hashlib.sha256(...).digest() and .hexdigest()
  pub sha256 : Bytes → Bytes
  pub sha256_hex : Bytes → Text
  -- AESGCM(key).encrypt(nonce, plaintext, aad) and .decrypt
  pub aes_encrypt : Bytes → Bytes → Bytes → Bytes → Result Bytes
  pub aes_decrypt : Bytes → Bytes → Bytes → Bytes → Result Bytes
  -- hash_secret_raw(passphrase.encode(), salt, type=Type.ID, version=19, **params)
  pub argon2_raw : Bytes → Bytes → KdfParams → Result Bytes
  -- json.dumps and json.loads of the parameters; `none` for a ValueError or a TypeError
  pub dumps_params : KdfParams → Text
  pub loads_params : Text → Option KdfParams
  -- PasswordHasher.hash (its salt is drawn by the library) and .verify
  pub hash_password : Bytes → Text → Text
  pub verify_password : Text → Text → Result Bool
  -- secrets.token_urlsafe(32), of the bytes drawn
  pub token_urlsafe : Bytes → Text
  -- Ed25519: the public key of a private one, sign and verify on raw bytes
  pub ed25519_public : Bytes → Bytes
  pub ed25519_sign : Bytes → Bytes → Result Bytes
  pub ed25519_verify : Bytes → Bytes → Bytes → Result ⊤
  -- the value of a decimal digit, str.isspace of a character, and str.lower
  pub decimal? : ℕ → Option ℕ
  pub is_space : ℕ → Bool
  pub lower : Text → Text
  -- datetime.isoformat of a time that the request has set, and of one that a query has given: on
  -- SQLite the former prints an offset and the latter does not
  pub isoformat : ℕ → Text
  pub isoformat_stored : ℕ → Text

-- The largest input of AESGCM: larger ones raise OverflowError.
abbrev pub aes_max : ℕ
aes_max = 2147483647

abbrev pub IsBase64 : ℕ → Type 0
IsBase64 c =
    ((b'A' ≤ c) × (c ≤ b'Z'))
    ⊎ ((b'a' ≤ c) × (c ≤ b'z'))
    ⊎ ((b'0' ≤ c) × (c ≤ b'9'))
    ⊎ (c ≡ b'+')
    ⊎ (c ≡ b'/')
    ⊎ (c ≡ b'=')

pub record IsSound (p : Platform) : Type 0 where
  pub b64-round : (b : Bytes) → p.b64decode (p.b64encode b) ≡ some b
  -- the standard alphabet: letters, digits, `+`, `/` and the padding `=`
  pub b64-alphabet : (b : Bytes) → All IsBase64 (p.b64encode b)
  -- UTF-8 loses nothing; a character takes at most four bytes of UTF-8
  pub encode-injective : (s t : Text) → p.encode s ≡ p.encode t → s ≡ t
  pub encode-length : (s : Text) → length (p.encode s) ≤ 4 * length s
  -- the ASCII digits have their values
  pub decimal_ascii : (c : ℕ) → IsDigit c → p.decimal? c ≡ some (c - 48)
  -- a 32-byte key, a 12-byte nonce: the ciphertext has a 16-byte tag, and it decrypts
  pub aes-round :
      (key nonce plain aad : Bytes)
      → length key ≡ 32
      → length nonce ≡ 12
      → length plain ≤ aes_max
      → length aad ≤ aes_max
      → (c : Bytes) × (p.aes_encrypt key nonce plain aad ≡ ok c)
        × (p.aes_decrypt key nonce c aad ≡ ok plain)
        × (length c ≡ length plain + 16)
  -- a salt of 16 bytes: the key has the length that the parameters ask for
  pub argon2-length :
      (secret salt : Bytes)
      → length salt ≡ 16
      → (k : Bytes) × (p.argon2_raw secret salt default_params ≡ ok k) × (length k ≡ 32)
  pub params-round : (k : KdfParams) → p.loads_params (p.dumps_params k) ≡ some k
  pub password-round :
      (salt : Bytes) (pw : Text) → p.verify_password (p.hash_password salt pw) pw ≡ ok true
  -- 32 bytes give a token of some 43 characters
  pub token-nonempty : (b : Bytes) → length b ≡ 32 → 0 < length (p.token_urlsafe b)
  pub ed25519-round :
      (seed message : Bytes)
      → length seed ≡ 32
      → (s : Bytes) × (p.ed25519_sign seed message ≡ ok s)
        × (p.ed25519_verify (p.ed25519_public seed) s message ≡ ok tt)
