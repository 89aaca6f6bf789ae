-- ===== src/Kv/Shelf/Run.antt =====
-- Runs of calls of KVService against the shelf.
use mini_vault.Base.{
  ℕ, suc, ◌≤◌, ◌≡◌, refl, Option, some, List, [], ◌∷◌, Text, Bytes, arith, length, ⊤, inl, inr, All,
}
use mini_vault.Errors.{Result, ok, raise, Exc, Result-cases, ◌>>=◌ as and_then}
use mini_vault.Platform.{Platform, IsSound}
use mini_vault.Db.{World, Time}
use mini_vault.Utils.{validate_path}
use mini_vault.Utils.Namespace.{IsEmail}
use mini_vault.Vault.{require_dek}
use mini_vault.Kv.{
  JsonCodec, IsJson, ReadAnswer, WriteAnswer, max_secret, read, write, delete, versions,
}
use mini_vault.Kv.Shelf.{Shelf, put, drop, shelf_read, shelf_delete, shelf_versions, Holds}
use mini_vault.Kv.Shelf.Listing.{numbers_of, versions-Holds}
use mini_vault.Kv.Shelf.Reading.{read-Holds}
use mini_vault.Kv.Shelf.Writing.{write-PutBy, delete-Holds}

-- A call, with what it draws: the nonce and the time of a write.
pub data Call (J : Type 0) : Type 0 where
  reading : (path email : Text) → Option ℕ → Call J
  writing : (path email : Text) → J → Bytes → Time → Call J
  deleting : (path email : Text) → Call J
  listing : (path email : Text) → Call J

-- What the caller sees, up to the times in an answer.
pub data Answer (J : Type 0) : Type 0 where
  was_read : Result (ReadAnswer J) → Answer J
  was_written : Result (Text × ℕ) → Answer J
  was_deleted : Result ⊤ → Answer J
  was_listed : Result (List ℕ) → Answer J

abbrev pub written : Result WriteAnswer → Result (Text × ℕ)
written r = and_then r λ a. ok (a.path, a.version)

module _ {J : Type 0} where
  -- A call on the shelf.
  abbrev pub obey : Call J → Shelf J → Answer J × Shelf J
  obey (reading path email version) s =
      (was_read (and_then (validate_path path email) λ _. shelf_read path version (s path)), s)
  obey (writing path email value nonce now) s = elim (validate_path path email) [
    | raise e ↦ (was_written (raise e), s)
    | ok _ ↦ (was_written (ok (path, suc (length (s path)))), put path value s)
  ]
  obey (deleting path email) s = elim (validate_path path email) [
    | raise e ↦ (was_deleted (raise e), s)
    | ok _ ↦ (was_deleted (shelf_delete (s path)), drop path s)
  ]
  obey (listing path email) s =
      (was_listed (and_then (validate_path path email) λ _. shelf_versions (s path)), s)

  abbrev pub replay : List (Call J) → Shelf J → List (Answer J) × Shelf J
  replay [] s = ([], s)
  replay (c ∷ cs) s = let (a, s') = obey c s in let (rest, s'') = replay cs s' in (a ∷ rest, s'')

module _ (p : Platform) {J : Type 0} (j : JsonCodec J) where
  -- A call on the world.
  abbrev pub perform : Call J → World → Answer J × World
  perform (reading path email version) w = (was_read (read p j path email version w), w)
  perform (writing path email value nonce now) w =
      let (r, w') = write p j nonce now path email value w in (was_written (written r), w')
  perform (deleting path email) w = let (r, w') = delete path email w in (was_deleted r, w')
  perform (listing path email) w = (was_listed (numbers_of (versions p path email w)), w)

  abbrev pub run : List (Call J) → World → List (Answer J) × World
  run [] w = ([], w)
  run (c ∷ cs) w = let (a, w') = perform c w in let (rest, w'') = run cs w' in (a ∷ rest, w'')

  -- A caller with an address of one `@` and no slash in the domain; to be written, a value whose
  -- JSON takes at most 1 MiB, under a nonce of 12 bytes.
  abbrev pub IsCall : Call J → Type 0
  IsCall (reading path email version) = IsEmail email
  IsCall (writing path email value nonce now) =
      IsEmail email
      × (length nonce ≡ 12)
      × ((raw : Bytes) × (j.dumps value ≡ some raw) × (length raw ≤ max_secret))
  IsCall (deleting path email) = IsEmail email
  IsCall (listing path email) = IsEmail email

-- Answers of a world and of a shelf that are the same, and leave the world with the shelf.
abbrev pub Agree :
    (p : Platform) {J : Type 0} (j : JsonCodec J) (dek : Bytes) {A : Type 0}
    → A × World
    → A × Shelf J
    → Type 0
Agree p j dek (a, w) (b, s) = (a ≡ b) × Holds p j dek w.work s × (require_dek w ≡ ok dek)

module _ (p : Platform) {J : Type 0} (j : JsonCodec J) (path email : Text) (e : Exc) (w : World)
    (refused : validate_path path email ≡ raise e) where
  pub read-refused : (version : Option ℕ) → read p j path email version w ≡ raise e
  unfolding read
  read-refused version = ground arith

  write-refused :
      (nonce : Bytes) (now : Time) (value : J)
      → write p j nonce now path email value w ≡ (raise e, w)
  unfolding write
  write-refused nonce now value = ground arith

  pub versions-refused : versions p path email w ≡ raise e
  unfolding versions
  versions-refused = ground arith

  delete-refused : delete path email w ≡ (raise e, w)
  unfolding delete
  delete-refused = ground arith

key_kept :
    (dek : Bytes) (w w' : World) → w'.dek ≡ w.dek → require_dek w ≡ ok dek → require_dek w' ≡ ok dek
unfolding require_dek
key_kept dek w w' kept open_vault = rw kept open_vault

module _ (p : Platform) (sound : IsSound p) {J : Type 0} (j : JsonCodec J) (json : IsJson j)
    (dek : Bytes) (hd : length dek ≡ 32) where
  module _ (path email : Text) (w : World) (s : Shelf J) (holds : Holds p j dek w.work s)
      (open_vault : require_dek w ≡ ok dek) (he : IsEmail email) where
    reading-obey :
        (version : Option ℕ)
        → Agree p j dek
            (perform p j (reading path email version) w)
            (obey (reading path email version) s)
    reading-obey version = elim (Result-cases (validate_path path email)) [
      | inr (e, refused) ↦
          (rw (read-refused p j path email e w refused version, refused) refl, holds, open_vault)
      | inl (_, allowed) ↦ (
        rw (read-Holds p j dek path email w allowed open_vault s version holds he, allowed) refl,
        holds,
        open_vault,
      )
    ]

    writing-obey :
        (value : J) (nonce raw : Bytes) (now : Time)
        → length nonce ≡ 12
        → j.dumps value ≡ some raw
        → length raw ≤ max_secret
        → Agree p j dek
            (perform p j (writing path email value nonce now) w)
            (obey (writing path email value nonce now) s)
    writing-obey value nonce raw now hn dumped small =
        elim (Result-cases (validate_path path email)) [
          | inr (e, refused) ↦
              rw (write-refused p j path email e w refused nonce now value, obey, refused)
                (refl, holds, open_vault)
          | inl (_, allowed) ↦
              let (a, answer, same_path, next, held, kept) =
                write-PutBy p j dek path email s w holds he allowed sound json nonce raw now value
                  open_vault dumped small hd hn in
              rw (obey, allowed)
                (rw (answer, same_path, next) refl, held, key_kept dek w _ kept open_vault)
        ]

    deleting-obey :
        Agree p j dek (perform p j (deleting path email) w) (obey (deleting path email) s)
    deleting-obey = elim (Result-cases (validate_path path email)) [
      | inr (e, refused) ↦
          rw (delete-refused p j path email e w refused, obey, refused) (refl, holds, open_vault)
      | inl (_, allowed) ↦
          let (answer, held, kept) =
            delete-Holds p j dek path email s w holds he allowed open_vault in
          rw (obey, allowed) (rw answer refl, held, key_kept dek w _ kept open_vault)
    ]

    listing-obey : Agree p j dek (perform p j (listing path email) w) (obey (listing path email) s)
    listing-obey = elim (Result-cases (validate_path path email)) [
      | inr (e, refused) ↦
          (rw (versions-refused p j path email e w refused, refused) refl, holds, open_vault)
      | inl (_, allowed) ↦ (
        rw (versions-Holds p j dek path email w allowed open_vault s holds he, allowed) refl,
        holds,
        open_vault,
      )
    ]

  perform-obey :
      (c : Call J) (w : World) (s : Shelf J)
      → Holds p j dek w.work s
      → require_dek w ≡ ok dek
      → IsCall p j c
      → Agree p j dek (perform p j c w) (obey c s)
  perform-obey (reading path email version) w s holds open_vault he =
      reading-obey path email w s holds open_vault he version
  perform-obey (writing path email value nonce now) w s holds open_vault
        (he, hn, (raw, dumped, small)) =
      writing-obey path email w s holds open_vault he value nonce raw now hn dumped small
  perform-obey (deleting path email) w s holds open_vault he =
      deleting-obey path email w s holds open_vault he
  perform-obey (listing path email) w s holds open_vault he =
      listing-obey path email w s holds open_vault he

  run_agrees :
      (cs : List (Call J)) (w : World) (s : Shelf J)
      → Holds p j dek w.work s
      → require_dek w ≡ ok dek
      → All (IsCall p j) cs
      → Agree p j dek (run p j cs w) (replay cs s)
  run_agrees [] w s holds open_vault calls = (refl, holds, open_vault)
  run_agrees (c ∷ cs) w s holds open_vault calls =
      let (answer, held, opened) = perform-obey c w s holds open_vault calls.0 in
      let (answers, held', opened') =
        run_agrees cs (perform p j c w).1 (obey c s).1 held opened calls.1 in
      (rw (answer, answers) refl, held', opened')

-- In an open vault whose key has 32 bytes, on tables that hold a shelf: any list of calls to read,
-- write, delete and list versions, of any callers with addresses of one `@` and no slash in the
-- domain, of any paths, and, for a write, with a value whose JSON takes at most 1 MiB and a nonce
-- of 12 bytes, is answered as on the shelf, call by call, up to the times in the answers; the
-- tables then hold the shelf that the calls leave, and the vault is open with the same key.
pub run-replay :
    (p : Platform)
    → IsSound p
    → {J : Type 0} (j : JsonCodec J) → IsJson j
    → (dek : Bytes) (cs : List (Call J)) (w : World) (s : Shelf J) → length dek ≡ 32
    → Holds p j dek w.work s
    → require_dek w ≡ ok dek
    → All (IsCall p j) cs
    → ((run p j cs w).0 ≡ (replay cs s).0)
      × Holds p j dek (run p j cs w).1.work (replay cs s).1
      × (require_dek (run p j cs w).1 ≡ ok dek)
run-replay p sound j json dek cs w s hd holds open_vault calls =
    run_agrees p sound j json dek hd cs w s holds open_vault calls
