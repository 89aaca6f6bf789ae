-- ===== src/Kv/Rows.antt =====
-- The version rows of one secret: numbered from 1 without gaps, in the order of insertion.
use mini_vault.Base.{
  ℕ, suc, ◌+◌, ◌≤◌, ◌<◌, ◌≡◌, refl, false, ◌&&◌, some, List, [], ◌∷◌, ◌++◌, arith, ◌==◌, length,
  greatest, find?, keep, any, inl, inr, Bool-cases,
}
use mini_vault.Db.{KvSecretVersion}

abbrev pub Numbered : ℕ → List KvSecretVersion → Type 0
Numbered k [] = Unit
Numbered k (v ∷ vs) = (v.version ≡ suc k) × Numbered (suc k) vs

pub Numbered-append :
    (k : ℕ) (vs : List KvSecretVersion) (v : KvSecretVersion)
    → Numbered k vs
    → v.version ≡ suc (k + length vs)
    → Numbered k (vs ++ v ∷ [])
Numbered-append k [] v h e = (omega arith, tt)
Numbered-append k (x ∷ xs) v h e = (h.0, Numbered-append (suc k) xs v h.1 (omega arith))

-- A row numbered next is the greatest.
pub greatest-next :
    (k : ℕ) (vs : List KvSecretVersion) (v : KvSecretVersion)
    → Numbered k vs
    → v.version ≡ suc (k + length vs)
    → greatest (λ x. x.version) (vs ++ v ∷ []) ≡ some v
greatest-next k [] v h e = refl
greatest-next k (x ∷ xs) v h e = ground (arith, greatest-next (suc k) xs v h.1 (omega arith))

-- The greatest number is the number of rows.
pub greatest-Numbered :
    (k : ℕ) (v : KvSecretVersion) (vs : List KvSecretVersion)
    → Numbered k (v ∷ vs)
    → (m : KvSecretVersion) × (greatest (λ x. x.version) (v ∷ vs) ≡ some m)
      × (m.version ≡ k + length (v ∷ vs))
greatest-Numbered k v [] h = (v, refl, omega arith)
greatest-Numbered k v (x ∷ xs) h =
    let (m, e, n) = greatest-Numbered (suc k) x xs h.1 in (m, ground arith, omega arith)

-- A number past the last has no row.
pub any-next :
    (id n k : ℕ) (rows : List KvSecretVersion)
    → Numbered k (keep (λ v. v.kv_secret_id == id) rows)
    → k + length (keep (λ v. v.kv_secret_id == id) rows) < n
    → any (λ v. v.kv_secret_id == id && v.version == n) rows ≡ false
any-next id n k [] h lt = refl
any-next id n k (r ∷ rows) h lt = elim (Bool-cases (r.kv_secret_id == id)) [
  | inl hit ↦
      let h' = rw hit at h in
      let lt' = rw hit at lt in
      rw hit (ground (arith, any-next id n (suc k) rows h'.1 (omega arith)))
  | inr miss ↦ rw miss (any-next id n k rows (rw miss at h) (rw miss at lt))
]

-- The row of a version is found among the rows of its secret.
pub find?-version :
    (id n : ℕ) (rows : List KvSecretVersion)
    → find? (λ v. v.kv_secret_id == id && v.version == n) rows
      ≡ find? (λ v. v.version == n) (keep (λ v. v.kv_secret_id == id) rows)
find?-version id n [] = refl
find?-version id n (r ∷ rows) = ground (arith, find?-version id n rows)

-- Every number from 1 to the number of rows has its row.
pub find?-Numbered :
    (k n : ℕ) (vs : List KvSecretVersion)
    → Numbered k vs
    → k < n
    → n ≤ k + length vs
    → (v : KvSecretVersion) × (find? (λ x. x.version == n) vs ≡ some v) × (v.version ≡ n)
find?-Numbered k n [] h lo hi = absurd (omega arith)
find?-Numbered k n (x ∷ xs) h lo hi = elim (Bool-cases (x.version == n)) [
  | inl hit ↦ (x, rw hit refl, ground arith)
  | inr miss ↦
      let (v, e, ev) = find?-Numbered (suc k) n xs h.1 (ground arith) (omega arith) in
      (v, rw miss e, ev)
]
