-- ===== src/Kv/Shelf/Isolation.antt =====
-- Users do not see what other users do with secrets.
use mini_vault.Base.{
  ℕ, ◌≡◌, refl, sym, ap, ◌∙◌, false, Option, List, [], ◌∷◌, Text, Bytes, arith, length, same,
  same_refl, same_sound, inl, inr, Bool-cases, All,
}
use mini_vault.Errors.{ok, Result-cases}
use mini_vault.Platform.{Platform, IsSound}
use mini_vault.Db.{World}
use mini_vault.Utils.{validate_path}
use mini_vault.Utils.Namespace.{IsEmail, validate_path-exclusive}
use mini_vault.Vault.{require_dek}
use mini_vault.Kv.{JsonCodec, IsJson, SecretEntry, read, versions, list}
use mini_vault.Kv.Shelf.{Shelf, Holds}
use mini_vault.Kv.Shelf.Reading.{read-Holds}
use mini_vault.Kv.Shelf.Listing.{numbers_of, versions-Holds}
use mini_vault.Kv.Shelf.Entries.{numbers_at, owned_entry, entry-refused, list-Holds}
use mini_vault.Kv.Shelf.Run.{
  Call, reading, writing, deleting, listing, IsCall, obey, replay, run, run-replay, read-refused,
  versions-refused,
}

module _ {J : Type 0} where
  abbrev pub caller : Call J → Text
  caller (reading path email version) = email
  caller (writing path email value nonce now) = email
  caller (deleting path email) = email
  caller (listing path email) = email

  -- A call of another user.
  abbrev pub IsOther : Text → Call J → Type 0
  IsOther email c = same (caller c) email ≡ false

-- A path that one user may name is none that another may.
other_path :
    (email other path path' : Text)
    → same other email ≡ false
    → IsEmail email
    → IsEmail other
    → validate_path path email ≡ ok tt
    → validate_path path' other ≡ ok tt
    → same path path' ≡ false
other_path email other path path' apart he ho mine theirs = elim (Bool-cases (same path path')) [
  | inr differ ↦ differ
  | inl equal ↦
      let one = same_sound path path' equal in
      let owner = validate_path-exclusive path' email other he ho (rw one at mine) theirs in
      absurd (ground (arith, same_refl email))
]

module _ (p : Platform) {J : Type 0} (j : JsonCodec J) (email path : Text) (he : IsEmail email)
    (mine : validate_path path email ≡ ok tt) where
  obey-apart :
      (c : Call J) (s : Shelf J) → IsOther email c → IsCall p j c → (obey c s).1 path ≡ s path
  obey-apart (reading at other version) s apart call = refl
  obey-apart (listing at other) s apart call = refl
  obey-apart (writing at other value nonce now) s apart call =
      elim (Result-cases (validate_path at other)) [
        | inr (e, refused) ↦ ground arith
        | inl (_, allowed) ↦
            let differ = other_path email other path at apart he call.0 mine allowed in ground arith
      ]
  obey-apart (deleting at other) s apart call = elim (Result-cases (validate_path at other)) [
    | inr (e, refused) ↦ ground arith
    | inl (_, allowed) ↦
        let differ = other_path email other path at apart he call mine allowed in ground arith
  ]

  replay-apart :
      (cs : List (Call J)) (s : Shelf J)
      → All (IsOther email) cs
      → All (IsCall p j) cs
      → (replay cs s).1 path ≡ s path
  replay-apart [] s apart calls = refl
  replay-apart (c ∷ cs) s apart calls =
      replay-apart cs (obey c s).1 apart.1 calls.1 ∙ obey-apart c s apart.0 calls.0

-- In an open vault whose key has 32 bytes, on tables that hold a shelf, all addresses having one `@`
-- and no slash in the domain: after any calls of other users to read, write, delete and list
-- versions, of any paths, and, for a write, with a value whose JSON takes at most 1 MiB and a nonce
-- of 12 bytes, a user's reads of any path, under any version, are answered as before, errors
-- included, and so are the version numbers of the path and its entries in the user's list.
pub run-isolated_secrets :
    (p : Platform)
    → IsSound p
    → {J : Type 0} (j : JsonCodec J) → IsJson j
    → (dek : Bytes) (cs : List (Call J)) (w : World) (s : Shelf J) (email : Text) → length dek ≡ 32
    → Holds p j dek w.work s
    → require_dek w ≡ ok dek
    → All (IsCall p j) cs
    → All (IsOther email) cs
    → IsEmail email
    → (path : Text) (version : Option ℕ)
    → let u = (run p j cs w).1 in
      (read p j path email version u ≡ read p j path email version w)
      × (numbers_of (versions p path email u) ≡ numbers_of (versions p path email w))
      × ((es : List SecretEntry) × (es' : List SecretEntry) × (list p email w ≡ ok es)
          × (list p email u ≡ ok es')
          × (numbers_at path es' ≡ numbers_at path es))
run-isolated_secrets p sound j json dek cs w s email hd holds open_vault calls others he path
      version =
    let u = (run p j cs w).1 in
    let s' = (replay cs s).1 in
    let (_, holds', open_vault') = run-replay p sound j json dek cs w s hd holds open_vault calls in
    let (es, listed, _, at_es) = list-Holds p j dek email s w holds open_vault he in
    let (es', listed', _, at_es') = list-Holds p j dek email s' u holds' open_vault' he in
    elim (Result-cases (validate_path path email)) [
      | inr (e, refused) ↦ (
        read-refused p j path email e u refused version
            ∙ sym (read-refused p j path email e w refused version),
        ap numbers_of (
            versions-refused p j path email e u refused
            ∙ sym (versions-refused p j path email e w refused)),
        (
          es,
          es',
          listed,
          listed',
          at_es' path
              ∙ entry-refused email path (s' path) e refused
              ∙ sym (at_es path ∙ entry-refused email path (s path) e refused),
        ),
      )
      | inl (_, mine) ↦
          let kept = replay-apart p j email path he mine cs s others calls in
          (
            read-Holds p j dek path email u mine open_vault' s' version holds' he
                ∙ rw kept refl
                ∙ sym (read-Holds p j dek path email w mine open_vault s version holds he),
            versions-Holds p j dek path email u mine open_vault' s' holds' he
                ∙ rw kept refl
                ∙ sym (versions-Holds p j dek path email w mine open_vault s holds he),
            (
              es,
              es',
              listed,
              listed',
              at_es' path ∙ ap (owned_entry email path) kept ∙ sym (at_es path),
            ),
          )
    ]
