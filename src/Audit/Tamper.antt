-- ===== src/Audit/Tamper.antt =====
-- What the audit chain detects, and what it does not see.
use mini_vault.Base.{
  ℕ, ◌≡◌, refl, sym, ap, ◌∙◌, ◌≢◌, Option, some, List, [], ◌∷◌, ◌++◌, map, Text, Bytes, arith, same,
  same_iff, ◌⊎◌, inl, inr, Bool-cases, All, show, show-digits, show-injective, cut-injective,
  IsDigit, length, joined, sort_by, insert_by, leb,
}
use mini_vault.Platform.{Platform, IsSound, IsBase64}
use mini_vault.Db.{Time, AuditLog}
use mini_vault.Audit.{genesis, data_str, row_str, valid, chain_hash, verify_from, audit_verify}
use mini_vault.Audit.Chain.{Ascending, final, Chained, audit_verify_iff}

-- The bar that `data_str` puts between its parts.
abbrev bar : ℕ
bar = b'|'

abbrev pub NoBar : Text → Type 0
NoBar s = All (λ c. c ≢ bar) s

-- What is hashed of a row, behind its id and the previous hash.
abbrev pub payload : AuditLog → Text
payload l = joined bar (l.requester_email ∷ l.action ∷ l.resource_identifier ∷ l.result ∷ [])

Base64-NoBar : (s : Text) → All IsBase64 s → NoBar s
Base64-NoBar [] h = tt
Base64-NoBar (c ∷ s) h = (ground arith, Base64-NoBar s h.1)

digits-NoBar : (s : Text) → All IsDigit s → NoBar s
digits-NoBar [] h = tt
digits-NoBar (c ∷ s) h = (omega arith, digits-NoBar s h.1)

pub row_str-injective :
    (x y : AuditLog) (a b : Text)
    → NoBar a
    → NoBar b
    → row_str x a ≡ row_str y b
    → (x.id ≡ y.id) × (a ≡ b) × (payload x ≡ payload y)
unfolding data_str
row_str-injective x y a b ha hb e =
    let (ids, rest) =
      cut-injective bar (show x.id) (show y.id) (a ++ bar ∷ payload x) (b ++ bar ∷ payload y)
        (digits-NoBar (show x.id) (show-digits x.id)) (digits-NoBar (show y.id) (show-digits y.id))
        e in
    let (prevs, payloads) = cut-injective bar a b (payload x) (payload y) ha hb rest in
    (show-injective x.id y.id ids, prevs, payloads)

-- Two different byte strings with one SHA-256 digest.
abbrev pub Collision : Platform → Type 0
Collision p = (x : Bytes) × (y : Bytes) × (x ≢ y) × (p.sha256 x ≡ p.sha256 y)

-- The rows agree, one by one, in all that the chain protects.
abbrev pub SameRows : List AuditLog → List AuditLog → Type 0
SameRows [] [] = Unit
SameRows [] (y ∷ ys) = ⊥
SameRows (x ∷ xs) [] = ⊥
SameRows (x ∷ xs) (y ∷ ys) =
    (x.id ≡ y.id)
    × (x.previous_hash_b64 ≡ y.previous_hash_b64)
    × (x.hash_b64 ≡ y.hash_b64)
    × (payload x ≡ payload y)
    × SameRows xs ys

module _ (p : Platform) (sound : IsSound p) where
  b64encode-injective : (a b : Bytes) → p.b64encode a ≡ p.b64encode b → a ≡ b
  b64encode-injective a b e =
      let h : some a ≡ some b = sym (sound.b64-round a) ∙ ap p.b64decode e ∙ sound.b64-round b in cc

  pub chain_hash-NoBar : (s : Text) → NoBar (chain_hash p s)
  unfolding chain_hash
  chain_hash-NoBar s = Base64-NoBar _ (sound.b64-alphabet _)

  -- One hash for two strings: they are one string, or SHA-256 has a collision.
  pub chain_hash-injective : (s t : Text) → chain_hash p s ≡ chain_hash p t → Collision p ⊎ (s ≡ t)
  unfolding chain_hash
  chain_hash-injective s t e = elim (Bool-cases (same (p.encode s) (p.encode t))) [
    | inl equal ↦ inr (sound.encode-injective s t ((same_iff _ _).0 equal))
    | inr apart ↦
        inl (p.encode s, p.encode t, λ h. cc ((same_iff _ _).1 h, apart), b64encode-injective _ _ e)
  ]

  Chained-SameRows :
      (a b : Text) (xs ys : List AuditLog)
      → NoBar a
      → NoBar b
      → Chained p a xs
      → Chained p b ys
      → length xs ≡ length ys
      → final a xs ≡ final b ys
      → Collision p ⊎ ((a ≡ b) × SameRows xs ys)
  Chained-SameRows a b [] [] ha hb cx cy el ef = inr (ef, tt)
  Chained-SameRows a b [] (y ∷ ys) ha hb cx cy el ef = absurd (omega arith)
  Chained-SameRows a b (x ∷ xs) [] ha hb cx cy el ef = absurd (omega arith)
  Chained-SameRows a b (x ∷ xs) (y ∷ ys) ha hb (px, hx, cx) (py, hy, cy) el ef = step (
      Chained-SameRows x.hash_b64 y.hash_b64 xs ys (rw hx (chain_hash-NoBar _))
        (rw hy (chain_hash-NoBar _)) cx cy (omega arith) ef)
    where
      at_row :
          x.hash_b64 ≡ y.hash_b64
          → SameRows xs ys
          → Collision p ⊎ (row_str x a ≡ row_str y b)
          → Collision p ⊎ ((a ≡ b) × SameRows (x ∷ xs) (y ∷ ys))
      at_row eh same_tail (inl c) = inl c
      at_row eh same_tail (inr e) =
          let (ids, prevs, payloads) = row_str-injective x y a b ha hb e in
          inr (prevs, (ids, px ∙ prevs ∙ sym py, eh, payloads, same_tail))

      step :
          Collision p ⊎ ((x.hash_b64 ≡ y.hash_b64) × SameRows xs ys)
          → Collision p ⊎ ((a ≡ b) × SameRows (x ∷ xs) (y ∷ ys))
      step (inl c) = inl c
      step (inr (eh, same_tail)) = at_row eh same_tail (chain_hash-injective _ _ (sym hx ∙ eh ∙ hy))

  -- Two logs of one length, in the order of their ids, that `/audit/verify` accepts and that end
  -- in one hash: SHA-256 has a collision, or the logs agree row by row in the id, both hashes
  -- and the joined text of e-mail, action, identifier and result.
  pub tamper_evident :
      (xs ys : List AuditLog)
      → Ascending 0 xs
      → Ascending 0 ys
      → audit_verify p xs ≡ valid
      → audit_verify p ys ≡ valid
      → length xs ≡ length ys
      → final genesis xs ≡ final genesis ys
      → Collision p ⊎ SameRows xs ys
  tamper_evident xs ys ux uy vx vy el ef =
      elim (Chained-SameRows genesis genesis xs ys (ground arith) (ground arith)
        ((audit_verify_iff p xs ux).0 vx) ((audit_verify_iff p ys uy).0 vy) el ef) [
          | inl c ↦ inl c
          | inr r ↦ inr r.1
        ]

-- An edit of columns that the hash does not cover.
abbrev pub unhashed_edit :
    (AuditLog → Text) → (AuditLog → Option Text) → (AuditLog → Time) → AuditLog → AuditLog
unhashed_edit kind ip at l = record l {
  resource_type = kind l;
  client_ip = ip l;
  created_at = at l;
}

module _ (kind : AuditLog → Text) (ip : AuditLog → Option Text) (at : AuditLog → Time) where
  insert_by-unhashed_edit :
      (l : AuditLog) (ls : List AuditLog)
      → insert_by
          (λ a b. leb a.id b.id)
          (unhashed_edit kind ip at l)
          (map (unhashed_edit kind ip at) ls)
        ≡ map (unhashed_edit kind ip at) (insert_by (λ a b. leb a.id b.id) l ls)
  insert_by-unhashed_edit l [] = refl
  insert_by-unhashed_edit l (m ∷ ms) = ground (arith, insert_by-unhashed_edit l ms)

  sort_by-unhashed_edit :
      (ls : List AuditLog)
      → sort_by (λ a b. leb a.id b.id) (map (unhashed_edit kind ip at) ls)
        ≡ map (unhashed_edit kind ip at) (sort_by (λ a b. leb a.id b.id) ls)
  sort_by-unhashed_edit [] = refl
  sort_by-unhashed_edit (l ∷ ls) =
      rw (sort_by-unhashed_edit ls) (insert_by-unhashed_edit l (sort_by (λ a b. leb a.id b.id) ls))

  verify_from-unhashed_edit :
      (p : Platform) (prev : Text) (ls : List AuditLog)
      → verify_from p prev (map (unhashed_edit kind ip at) ls) ≡ verify_from p prev ls
  unfolding verify_from
  verify_from-unhashed_edit p prev [] = refl
  verify_from-unhashed_edit p prev (l ∷ ls) = rw (verify_from-unhashed_edit p l.hash_b64 ls)

  -- Any rewriting of the resource types, the client addresses and the times of a log, whatever
  -- its rows, leaves the answer of `/audit/verify` as it was.
  pub verify_blind :
      (p : Platform) (ls : List AuditLog)
      → audit_verify p (map (unhashed_edit kind ip at) ls) ≡ audit_verify p ls
  unfolding audit_verify
  verify_blind p ls = rw (sort_by-unhashed_edit ls) (verify_from-unhashed_edit p genesis _)
