-- ===== src/Platform/Sample.antt =====
-- A toy platform that meets the documented laws and is good for nothing else.
use mini_vault.Base.{
  text, ℕ, zero, suc, ◌+◌, ◌-◌, ◌*◌, ◌≡◌, refl, ap, true, ◌&&◌, ◌||◌, Option, none, some, [], ◌∷◌,
  ◌++◌, map, Text, Bytes, arith, leb, ◌==◌, if◌then◌else◌, same, same_refl, take, drop, length,
  length-append, All, All-append, IsDigit, show, show-digits, value_from, value_from-show, inl, inr,
}
use mini_vault.Errors.{Result, ok, raise, invalid_tag, invalid_signature, verify_mismatch}
use mini_vault.Platform.{Platform, KdfParams, IsSound, IsBase64}

-- Each byte in decimal, ended by a slash.
unfoldable pub spell : Bytes → Text
unfolding show
spell [] = []
spell (b ∷ bs) = show b ++ b'/' ∷ spell bs

unfoldable pub unspell : ℕ → Text → Bytes
unspell acc [] = []
unspell acc (c ∷ s) =
    let closed = acc ∷ unspell 0 s in
    let more = unspell (acc * 10 + (c - 48)) s in if c == b'/' then closed else more

unspell-digits :
    (acc : ℕ) (d r : Text)
    → All IsDigit d
    → unspell acc (d ++ b'/' ∷ r) ≡ value_from acc d ∷ unspell 0 r
unfolding unspell value_from
unspell-digits acc [] r h = refl
unspell-digits acc (c ∷ d) r h = ground (arith, unspell-digits (acc * 10 + (c - 48)) d r h.1)

unspell-spell : (b : Bytes) → unspell 0 (spell b) ≡ b
unfolding spell
unspell-spell [] = unfold unspell in refl
unspell-spell (x ∷ xs) =
    rw (unspell-digits 0 (show x) (spell xs) (show-digits x), value_from-show x, unspell-spell xs)

digits-Base64 : (s : Text) → All IsDigit s → All IsBase64 s
digits-Base64 [] h = tt
digits-Base64 (c ∷ s) h = (inr (inr (inl (omega (arith, h.0)))), digits-Base64 s h.1)

spell-Base64 : (b : Bytes) → All IsBase64 (spell b)
unfolding spell
spell-Base64 [] = tt
spell-Base64 (x ∷ xs) =
    All-append IsBase64 (show x) (b'/' ∷ spell xs) (digits-Base64 (show x) (show-digits x))
      (inr (inr (inr (inr (inl refl)))), spell-Base64 xs)

unfoldable pub fit : ℕ → Bytes → Bytes
fit zero bs = []
fit (suc n) [] = 0 ∷ fit n []
fit (suc n) (b ∷ bs) = b ∷ fit n bs

length-fit : (n : ℕ) (bs : Bytes) → length (fit n bs) ≡ n
unfolding fit
length-fit zero bs = refl
length-fit (suc n) [] = ap suc (length-fit n [])
length-fit (suc n) (b ∷ bs) = ap suc (length-fit n bs)

take-length : (xs ys : Bytes) → take (length xs) (xs ++ ys) ≡ xs
take-length [] ys = refl
take-length (x ∷ xs) ys = rw (take-length xs ys)

drop-length : (xs ys : Bytes) → drop (length xs) (xs ++ ys) ≡ ys
drop-length [] ys = refl
drop-length (x ∷ xs) ys = drop-length xs ys

unfoldable pub params_of : Bytes → Option KdfParams
params_of (t ∷ m ∷ p ∷ l ∷ []) =
    some (record { time_cost = t; memory_cost = m; parallelism = p; hash_len = l })
params_of _ = none

abbrev to_lower : ℕ → ℕ
to_lower c = if leb b'A' c && leb c b'Z' then c + 32 else c

unfoldable pub seal : Bytes → Bytes → Bytes
unfolding fit
seal key plain = fit 16 key ++ plain

unfoldable pub unseal : Bytes → Bytes → Result Bytes
unfolding fit same
unseal key c = if same (take 16 c) (fit 16 key) then ok (drop 16 c) else raise invalid_tag

unseal-seal : (key plain : Bytes) → unseal key (seal key plain) ≡ ok plain
unfolding seal unseal
unseal-seal key plain =
    let kept = take-length (fit 16 key) plain in
    let rest = drop-length (fit 16 key) plain in
    rw (rw (length-fit 16 key) at kept, rw (length-fit 16 key) at rest, same_refl (fit 16 key))

abbrev pub sample : Platform
sample = record {
  b64encode = spell;
  b64decode = λ s. some (unspell 0 s);
  encode = λ s. s;
  sha256 = λ b. b;
  sha256_hex = λ b. b;
  aes_encrypt = λ key nonce plain aad. ok (seal key plain);
  aes_decrypt = λ key nonce c aad. unseal key c;
  argon2_raw = λ secret salt params. ok (fit params.hash_len secret);
  dumps_params = λ k. spell (k.time_cost ∷ k.memory_cost ∷ k.parallelism ∷ k.hash_len ∷ []);
  loads_params = λ s. params_of (unspell 0 s);
  hash_password = λ salt pw. pw;
  verify_password = λ h pw. if same h pw then ok true else raise verify_mismatch;
  token_urlsafe = λ b. b;
  ed25519_public = λ seed. seed;
  ed25519_sign = λ seed message. ok (seed ++ message);
  ed25519_verify =
      λ public s message. if same s (public ++ message) then ok tt else raise invalid_signature;
  decimal? = λ c. if leb b'0' c && leb c b'9' then some (c - b'0') else none;
  is_space = λ c. c == 32 || leb 9 c && leb c 13 || leb 28 c && leb c 31;
  lower = map to_lower;
  isoformat = λ t. show t ++ text "+00:00";
  isoformat_stored = show;
}

pub sample-IsSound : IsSound sample
unfolding params_of seal
sample-IsSound = record {
  b64-round = λ b. rw (unspell-spell b);
  b64-alphabet = spell-Base64;
  encode-injective = λ s t e. e;
  encode-length = λ s. omega arith;
  decimal_ascii = λ c h. ground arith;
  aes-round = λ key nonce plain aad hk hn hp ha. (
    seal key plain,
    refl,
    unseal-seal key plain,
    omega (arith, length-append (fit 16 key) plain, length-fit 16 key),
  );
  argon2-length = λ secret salt h. (fit 32 secret, refl, length-fit 32 secret);
  params-round = λ k. rw unspell-spell;
  password-round = λ salt pw. rw (same_refl pw);
  token-nonempty = λ b h. omega arith;
  ed25519-round = λ seed message h. (seed ++ message, refl, rw (same_refl (seed ++ message)));
}
