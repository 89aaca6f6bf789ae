-- ===== src/Kv/Valid.antt =====
-- The invariant of the two KV tables, and that writing rows keeps it.
pub mod Discard
use mini_vault.Base.{
  tests, ℕ, suc, ◌<◌, ◌≡◌, refl, subst, Bool, true, false, ◌||◌, some, List, [], ◌∷◌, ◌++◌, map,
  Text, arith, ◌==◌, if◌then◌else◌, same, same_iff, append-nil, ==_iff, length, length-append,
  greatest, find?, any, All, discard, update, inl, inr, Bool-cases, keep-append, All-discard,
  All-append,
}
use mini_vault.Errors.{ok}
use mini_vault.Utils.{validate_path}
use mini_vault.Utils.Namespace.{IsEmail}
use mini_vault.Db.{Db, KvSecret, KvSecretVersion}
use mini_vault.Kv.{versions_of, version_or_one, current_version}
use mini_vault.Kv.Rows.{Numbered, Numbered-append, greatest-Numbered}

-- What identifies a secret: its id, its path and its owner.
abbrev pub Key : Type 0
Key = ℕ × Text × Text

abbrev pub key : KvSecret → Key
key s = (s.id, s.path, s.owner_email)

abbrev pub has_id : ℕ → Key → Bool
has_id id k = k.0 == id

abbrev pub UniqueIds : List Key → Type 0
UniqueIds [] = Unit
UniqueIds (k ∷ ks) = All (λ (x : Key). has_id k.0 x ≡ false) ks × UniqueIds ks

abbrev pub UniquePaths : List Key → Type 0
UniquePaths [] = Unit
UniquePaths (k ∷ ks) = All (λ (x : Key). same x.1 k.1 ≡ false) ks × UniquePaths ks

-- No two secrets share an id or a path, each lies in its owner's namespace and has version rows,
-- the rows of an id are numbered 1, 2, 3, ..., and no row belongs to an id that is not in use.
pub record IsValid (secrets : List KvSecret) (rows : List KvSecretVersion) : Type 0 where
  pub unique_ids : UniqueIds (map key secrets)
  pub unique_paths : UniquePaths (map key secrets)
  pub owned : All (λ (k : Key). IsEmail k.2 × (validate_path k.1 k.2 ≡ ok tt)) (map key secrets)
  pub started : All (λ (k : Key). 0 < length (versions_of k.0 rows)) (map key secrets)
  pub numbered : (id : ℕ) → Numbered 0 (versions_of id rows)
  pub adopted : (id : ℕ) → any (has_id id) (map key secrets) ≡ false → versions_of id rows ≡ []

abbrev pub IsKvValid : Db → Type 0
IsKvValid db = IsValid db.kv_secrets db.kv_versions

pub map-update :
    (q : KvSecret → Bool) (f : KvSecret → KvSecret)
    → ((s : KvSecret) → key (f s) ≡ key s)
    → (secrets : List KvSecret) → map key (update q f secrets) ≡ map key secrets
map-update q f same_key [] = refl
map-update q f same_key (s ∷ ss) = ground (arith, same_key s, map-update q f same_key ss)

pub find?-key :
    (q : KvSecret → Bool) (P : Key → Type 0) (secrets : List KvSecret) (a : KvSecret)
    → find? q secrets ≡ some a
    → All P (map key secrets)
    → P (key a)
find?-key q P [] a h all_hold = cc
find?-key q P (x ∷ xs) a h all_hold = elim (Bool-cases (q x)) [
  | inl hit ↦ let e : x ≡ a = (let h' = rw hit at h in cc) in subst (λ s. P (key s)) e all_hold.0
  | inr miss ↦ find?-key q P xs a (rw miss at h) all_hold.1
]

pub any-found :
    (q : KvSecret → Bool) (secrets : List KvSecret) (a : KvSecret)
    → find? q secrets ≡ some a
    → any (has_id a.id) (map key secrets) ≡ true
any-found q [] a h = cc
any-found q (x ∷ xs) a h = ground (arith, any-found q xs a)

-- Version rows of one id and one more row.
pub versions_of-append :
    (id : ℕ) (rows : List KvSecretVersion) (v : KvSecretVersion)
    → versions_of id (rows ++ v ∷ []) ≡ versions_of id rows ++ versions_of id (v ∷ [])
versions_of-append id rows v = keep-append (λ x. x.kv_secret_id == id) rows (v ∷ [])

Numbered-row :
    (rows : List KvSecretVersion) (v : KvSecretVersion)
    → ((id : ℕ) → Numbered 0 (versions_of id rows))
    → v.version ≡ suc (length (versions_of v.kv_secret_id rows))
    → (id : ℕ) → Numbered 0 (versions_of id (rows ++ v ∷ []))
Numbered-row rows v h e id = elim (Bool-cases (v.kv_secret_id == id)) [
  | inl hit ↦
      let e' =
        subst (λ (n : ℕ). v.version ≡ suc (length (versions_of n rows))) ((==_iff _ _).0 hit) e in
      rw (versions_of-append, hit) (Numbered-append 0 (versions_of id rows) v (h id) (omega arith))
  | inr miss ↦ rw (versions_of-append, miss, append-nil) (h id)
]

started-row :
    (rows : List KvSecretVersion) (v : KvSecretVersion) (ks : List Key)
    → All (λ (k : Key). 0 < length (versions_of k.0 rows)) ks
    → All (λ (k : Key). 0 < length (versions_of k.0 (rows ++ v ∷ []))) ks
started-row rows v [] h = tt
started-row rows v (k ∷ ks) h = (
  rw versions_of-append
      (omega (arith, length-append {0} (versions_of k.0 rows) (versions_of k.0 (v ∷ [])))),
  started-row rows v ks h.1,
)

-- The number that `write` gives next: one more than the rows there are.
pub next-version :
    (db : Db) (item : KvSecret)
    → Numbered 0 (versions_of item.id db.kv_versions)
    → 0 < length (versions_of item.id db.kv_versions)
    → version_or_one (current_version db item) ≡ length (versions_of item.id db.kv_versions)
unfolding current_version
next-version db item = by_rows (versions_of item.id db.kv_versions)
  where
    by_rows :
        (vs : List KvSecretVersion)
        → Numbered 0 vs
        → 0 < length vs
        → version_or_one (greatest (λ v. v.version) vs) ≡ length vs
    by_rows [] h nonempty = elim nonempty [ ]
    by_rows (v ∷ vs) h nonempty = let (m, e, n) = greatest-Numbered 0 v vs h in rw e (omega arith)

adopted-row :
    (ks : List Key) (rows : List KvSecretVersion) (v : KvSecretVersion)
    → ((id : ℕ) → any (has_id id) ks ≡ false → versions_of id rows ≡ [])
    → any (has_id v.kv_secret_id) ks ≡ true
    → (id : ℕ) → any (has_id id) ks ≡ false
    → versions_of id (rows ++ v ∷ []) ≡ []
adopted-row ks rows v h used id unused = elim (Bool-cases (v.kv_secret_id == id)) [
  | inl hit ↦
      let used' = subst (λ (n : ℕ). any (has_id n) ks ≡ true) ((==_iff _ _).0 hit) used in
      absurd (cc)
  | inr miss ↦ rw (versions_of-append, miss, append-nil) (h id unused)
]

-- One more version of a secret that is there.
pub IsValid-version :
    (secrets secrets' : List KvSecret) (rows : List KvSecretVersion) (v : KvSecretVersion)
    → IsValid secrets rows
    → map key secrets' ≡ map key secrets
    → any (has_id v.kv_secret_id) (map key secrets) ≡ true
    → v.version ≡ suc (length (versions_of v.kv_secret_id rows))
    → IsValid secrets' (rows ++ v ∷ [])
IsValid-version secrets secrets' rows v h same_keys used next = record {
  unique_ids = rw same_keys h.unique_ids;
  unique_paths = rw same_keys h.unique_paths;
  owned = rw same_keys h.owned;
  started = rw same_keys (started-row rows v (map key secrets) h.started);
  numbered = Numbered-row rows v h.numbered next;
  adopted =
      λ id unused. adopted-row (map key secrets) rows v h.adopted used id (rw same_keys at unused);
}

UniqueIds-append :
    (ks : List Key) (k : Key)
    → UniqueIds ks
    → any (has_id k.0) ks ≡ false
    → UniqueIds (ks ++ k ∷ [])
UniqueIds-append [] k h fresh = (tt, tt)
UniqueIds-append (x ∷ xs) k h fresh = (
  All-append (λ (y : Key). has_id x.0 y ≡ false) xs (k ∷ []) h.0 (ground arith, tt),
  UniqueIds-append xs k h.1 (ground arith),
)

UniquePaths-append :
    (ks : List Key) (k : Key)
    → UniquePaths ks
    → any (λ (x : Key). same x.1 k.1) ks ≡ false
    → UniquePaths (ks ++ k ∷ [])
UniquePaths-append [] k h fresh = (tt, tt)
UniquePaths-append (x ∷ xs) k h fresh = (
  All-append (λ (y : Key). same y.1 x.1 ≡ false) xs (k ∷ []) h.0 (grind tests, tt),
  UniquePaths-append xs k h.1 (ground arith),
)

any-append-last :
    (q : Key → Bool) (ks : List Key) (k : Key) → any q (ks ++ k ∷ []) ≡ (any q ks || q k)
any-append-last q [] k = ground arith
any-append-last q (x ∷ xs) k = ground (arith, any-append-last q xs k)

map-append-last :
    (ss : List KvSecret) (s : KvSecret) → map key (ss ++ s ∷ []) ≡ map key ss ++ key s ∷ []
map-append-last [] s = refl
map-append-last (x ∷ xs) s = rw (map-append-last xs s)

-- A new secret with its first version.
pub IsValid-secret :
    (secrets : List KvSecret) (rows : List KvSecretVersion) (s : KvSecret) (v : KvSecretVersion)
    → IsValid secrets rows
    → any (has_id s.id) (map key secrets) ≡ false
    → any (λ (x : Key). same x.1 s.path) (map key secrets) ≡ false
    → IsEmail s.owner_email × (validate_path s.path s.owner_email ≡ ok tt)
    → v.kv_secret_id ≡ s.id
    → v.version ≡ 1
    → IsValid (secrets ++ s ∷ []) (rows ++ v ∷ [])
IsValid-secret secrets rows s v h fresh new_path own of_s first =
    let empty : versions_of v.kv_secret_id rows ≡ [] = rw of_s (h.adopted s.id fresh) in
    let keys = map-append-last secrets s in
    record {
      unique_ids = rw keys (UniqueIds-append (map key secrets) (key s) h.unique_ids fresh);
      unique_paths = rw keys (UniquePaths-append (map key secrets) (key s) h.unique_paths new_path);
      owned = rw keys (All-append _ (map key secrets) (key s ∷ []) h.owned (own, tt));
      started = rw keys (
          All-append _ (map key secrets) (key s ∷ [])
            (started-row rows v (map key secrets) h.started) (started_new, tt));
      numbered = Numbered-row rows v h.numbered (rw (first, empty) refl);
      adopted = λ id unused.
          adopted_new id (any-append-last (has_id id) (map key secrets) (key s))
            (rw keys at unused);
    }
  where
    started_new : 0 < length (versions_of s.id (rows ++ v ∷ []))
    started_new = rw (versions_of-append s.id rows v, h.adopted s.id fresh) (ground arith)

    adopted_new :
        (id : ℕ)
        → any (has_id id) (map key secrets ++ key s ∷ [])
          ≡ (any (has_id id) (map key secrets) || has_id id (key s))
        → any (has_id id) (map key secrets ++ key s ∷ []) ≡ false
        → versions_of id (rows ++ v ∷ []) ≡ []
    adopted_new id split unused =
        let other : (v.kv_secret_id == id) ≡ false = rw of_s (ground arith) in
        rw (versions_of-append, other, append-nil) (h.adopted id (ground arith))
