-- ===== src/Kv/Valid/Discard.antt =====
-- The invariant of the two KV tables when a secret and its versions are deleted.
use mini_vault.Base.{
  ℕ, ◌<◌, ◌≡◌, refl, false, List, [], ◌∷◌, map, arith, ◌==◌, if◌then◌else◌, same, length, any, All,
  discard, inl, inr, Bool-cases, All-discard,
}
use mini_vault.Db.{KvSecret, KvSecretVersion}
use mini_vault.Kv.{versions_of}
use mini_vault.Kv.Rows.{Numbered}
use mini_vault.Kv.Valid.{Key, key, has_id, UniqueIds, UniquePaths, IsValid}

map-discard :
    (id : ℕ) (ss : List KvSecret)
    → map key (discard (λ s. s.id == id) ss) ≡ discard (has_id id) (map key ss)
map-discard id [] = refl
map-discard id (s ∷ ss) = ground (arith, map-discard id ss)

UniqueIds-discard : (id : ℕ) (ks : List Key) → UniqueIds ks → UniqueIds (discard (has_id id) ks)
UniqueIds-discard id [] h = tt
UniqueIds-discard id (k ∷ ks) h =
    let kept = All-discard (has_id id) (λ (y : Key). has_id k.0 y ≡ false) ks h.0 in
    ground (arith, UniqueIds-discard id ks h.1)

UniquePaths-discard :
    (id : ℕ) (ks : List Key) → UniquePaths ks → UniquePaths (discard (has_id id) ks)
UniquePaths-discard id [] h = tt
UniquePaths-discard id (k ∷ ks) h =
    let kept = All-discard (has_id id) (λ (y : Key). same y.1 k.1 ≡ false) ks h.0 in
    ground (arith, UniquePaths-discard id ks h.1)

-- The rows of another id are not touched.
pub versions_of-discard :
    (id n : ℕ) (rows : List KvSecretVersion)
    → versions_of n (discard (λ v. v.kv_secret_id == id) rows)
      ≡ (if n == id then [] else versions_of n rows)
versions_of-discard id n [] = ground arith
versions_of-discard id n (r ∷ rows) = ground (arith, versions_of-discard id n rows)

started-discard :
    (id : ℕ) (rows : List KvSecretVersion) (ks : List Key)
    → All (λ (k : Key). 0 < length (versions_of k.0 rows)) ks
    → All
        (λ (k : Key). 0 < length (versions_of k.0 (discard (λ v. v.kv_secret_id == id) rows)))
        (discard (has_id id) ks)
started-discard id rows [] h = tt
started-discard id rows (k ∷ ks) h = elim (Bool-cases (k.0 == id)) [
  | inl hit ↦ rw hit (started-discard id rows ks h.1)
  | inr miss ↦
      rw miss (rw (versions_of-discard id k.0 rows, miss) h.0, started-discard id rows ks h.1)
]

any-discard :
    (id n : ℕ) (ks : List Key)
    → (n == id) ≡ false
    → any (has_id n) (discard (has_id id) ks) ≡ any (has_id n) ks
any-discard id n [] h = refl
any-discard id n (k ∷ ks) h = ground (arith, any-discard id n ks h)

-- A secret and its versions are gone.
pub IsValid-discard :
    (secrets : List KvSecret) (rows : List KvSecretVersion) (id : ℕ)
    → IsValid secrets rows
    → IsValid (discard (λ s. s.id == id) secrets) (discard (λ v. v.kv_secret_id == id) rows)
IsValid-discard secrets rows id h =
    let keys = map-discard id secrets in
    record {
      unique_ids = rw keys (UniqueIds-discard id (map key secrets) h.unique_ids);
      unique_paths = rw keys (UniquePaths-discard id (map key secrets) h.unique_paths);
      owned = rw keys (All-discard (has_id id) _ (map key secrets) h.owned);
      started = rw keys (started-discard id rows (map key secrets) h.started);
      numbered = numbered_left;
      adopted = λ n unused. adopted_left n (rw keys at unused);
    }
  where
    numbered_left : (n : ℕ) → Numbered 0 (versions_of n (discard (λ v. v.kv_secret_id == id) rows))
    numbered_left n = elim (Bool-cases (n == id)) [
      | inl hit ↦ rw (versions_of-discard id n rows, hit) tt
      | inr miss ↦ rw (versions_of-discard id n rows, miss) (h.numbered n)
    ]

    adopted_left :
        (n : ℕ)
        → any (has_id n) (discard (has_id id) (map key secrets)) ≡ false
        → versions_of n (discard (λ v. v.kv_secret_id == id) rows) ≡ []
    adopted_left n unused = elim (Bool-cases (n == id)) [
      | inl hit ↦ rw (versions_of-discard id n rows, hit) refl
      | inr miss ↦
          rw (versions_of-discard id n rows, miss)
            (h.adopted n (rw (any-discard id n (map key secrets) miss) at unused))
    ]
