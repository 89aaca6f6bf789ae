-- ===== src/Kv/Tests.antt =====
-- The theorems on secrets at concrete inputs.
use mini_vault.Base.{
  same, some, Text, All, List, [], ◌∷◌, Bytes, ◌≡◌, refl, sym, some, none, same, text, starts_with,
  contains, arith,
}
use mini_vault.Errors.{ok, raise}
use mini_vault.Platform.Sample.{sample, sample-IsSound, spell, unspell, seal, unseal}
use mini_vault.Utils.{validate_path, b64e, b64d}
use mini_vault.Utils.Namespace.{IsEmail}
use mini_vault.Vault.{require_dek, encrypt, decrypt}
use mini_vault.Kv.{
  IsJson, write, delete, save, save_new, add_secret, add_version, read, pick_version, open_secret,
  versions, list, text_le, SecretEntry,
}
use mini_vault.Kv.Deletion.{absent, read-delete}
use mini_vault.Kv.History.{read-write_older}
use mini_vault.Db.{World}
use mini_vault.Kv.Valid.{IsKvValid}
use mini_vault.Kv.Write.{write-IsKvValid}
use mini_vault.Kv.Read.{WrittenAndRead, read-write}
use mini_vault.Kv.Shelf.{Holds}
use mini_vault.Base.Sorting.{IsSorted}
use mini_vault.Kv.Shelf.Entries.{numbers_at, owned_entry, list-Holds}
use mini_vault.Kv.Shelf.Listing.{numbers_of}
use mini_vault.Kv.Shelf.Isolation.{run-isolated_secrets}
use mini_vault.Kv.Shelf.Run.{
  Call, reading, writing, deleting, listing, IsCall, run, replay, run-replay,
}
use mini_vault.Samples.{empty_db, open_world, nonce, key_bytes, alice, path, codec}

empty-IsKvValid : IsKvValid empty_db
empty-IsKvValid = record {
  unique_ids = tt;
  unique_paths = tt;
  owned = tt;
  started = tt;
  numbered = λ id. tt;
  adopted = λ id unused. refl;
}

alice-IsEmail : IsEmail alice
alice-IsEmail = (text "a", text "x.io", refl, omega arith, omega arith)

path_allowed : validate_path path alice ≡ ok tt
unfolding validate_path starts_with contains
path_allowed = refl

codec-IsJson : IsJson codec
codec-IsJson = record { json-round = λ v b e. sym e }

write-IsKvValid_example :
    IsKvValid (write sample codec nonce 5 path alice (text "{}") open_world).1.work
write-IsKvValid_example =
    write-IsKvValid sample codec nonce 5 path alice (text "{}") open_world empty-IsKvValid
      alice-IsEmail

read-write_example :
    WrittenAndRead sample codec path alice
      (text "{}")
      (write sample codec nonce 5 path alice (text "{}") open_world)
unfolding require_dek
read-write_example =
    read-write sample sample-IsSound codec codec-IsJson nonce key_bytes (text "{}") 5 path alice
      (text "{}") open_world empty-IsKvValid alice-IsEmail path_allowed refl refl (omega arith) refl
      refl

abbrev written : World
written = (write sample codec nonce 5 path alice (text "{}") open_world).1

written-answers :
    read sample codec path alice (some 1) written
    ≡ ok (record { path = path; version = 1; value = text "{}" })
unfolding write save save_new add_secret add_version require_dek validate_path starts_with contains
    encrypt b64e read pick_version open_secret decrypt b64d same spell unspell seal unseal
written-answers = refl

read-write_older_example :
    read sample codec path alice
      (some 1)
      (write sample codec nonce 9 path alice (text "[]") written).1
    ≡ ok (record { path = path; version = 1; value = text "{}" })
read-write_older_example =
    read-write_older sample codec nonce 9 path alice (text "[]") path alice 1
      (record { path = path; version = 1; value = text "{}" }) written write-IsKvValid_example
      written-answers

written-deleted : (delete path alice written).0 ≡ ok tt
unfolding write save save_new add_secret add_version require_dek validate_path starts_with contains
    encrypt b64e delete same
written-deleted = refl

read-delete_example :
    let w' = (delete path alice written).1 in
    (w'.stored ≡ w'.work)
    × (read sample codec path alice none w' ≡ raise absent)
    × (versions sample path alice w' ≡ raise absent)
    × (delete path alice w' ≡ (raise absent, w'))
read-delete_example =
    read-delete sample codec path alice none written write-IsKvValid_example written-deleted

empty-Holds : Holds sample codec key_bytes empty_db (λ at. [])
empty-Holds = record { valid = empty-IsKvValid; values = λ at. refl }

abbrev calls : List (Call Bytes)
calls =
    writing path alice (text "{}") nonce 5
    ∷ writing path alice (text "[]") nonce 6
    ∷ reading path alice (some 1)
    ∷ listing path alice
    ∷ deleting path alice
    ∷ reading path alice none
    ∷ reading (text "secret/b@x.io/db") alice none
    ∷ []

calls-IsCall : All (IsCall sample codec) calls
calls-IsCall = (
  (alice-IsEmail, refl, (text "{}", refl, omega arith)),
  (
    (alice-IsEmail, refl, (text "[]", refl, omega arith)),
    (alice-IsEmail, (alice-IsEmail, (alice-IsEmail, (alice-IsEmail, (alice-IsEmail, tt))))),
  ),
)

run-replay_example :
    ((run sample codec calls open_world).0 ≡ (replay calls (λ at. [])).0)
    × Holds sample codec key_bytes
        (run sample codec calls open_world).1.work
        (replay calls (λ at. [])).1
    × (require_dek (run sample codec calls open_world).1 ≡ ok key_bytes)
unfolding require_dek
run-replay_example =
    run-replay sample sample-IsSound codec codec-IsJson key_bytes calls open_world (λ at. []) refl
      empty-Holds refl calls-IsCall

-- Two writes of Alice's to one path.
abbrev writes : List (Call Bytes)
writes = writing path alice (text "{}") nonce 5 ∷ writing path alice (text "[]") nonce 6 ∷ []

writes_kept :
    let w = (run sample codec writes open_world).1 in
    Holds sample codec key_bytes w.work (replay writes (λ at. [])).1
    × (require_dek w ≡ ok key_bytes)
unfolding require_dek
writes_kept =
    let (_, holds, kept) =
      run-replay sample sample-IsSound codec codec-IsJson key_bytes writes open_world (λ at. [])
        refl empty-Holds refl (calls-IsCall.0, (calls-IsCall.1.0, tt)) in
    (holds, kept)

list-Holds_example :
    let w = (run sample codec writes open_world).1 in
    let s = (replay writes (λ at. [])).1 in
    (es : List SecretEntry) × (list sample alice w ≡ ok es)
    × IsSorted (λ (a b : SecretEntry). text_le a.path b.path) es
    × ((at : Text) → numbers_at at es ≡ owned_entry alice at (s at))
list-Holds_example =
    list-Holds sample codec key_bytes alice (replay writes (λ at. [])).1
      (run sample codec writes open_world).1 (writes_kept).0 (writes_kept).1 alice-IsEmail

abbrev bob : Text
bob = text "b@x.io"

bob-IsEmail : IsEmail bob
bob-IsEmail = (text "b", text "x.io", refl, omega arith, omega arith)

-- Bob writes a secret of his own, and tries to overwrite and to delete Alice's.
abbrev calls_of_bob : List (Call Bytes)
calls_of_bob =
    writing (text "secret/b@x.io/db") bob (text "{}") nonce 7
    ∷ writing path bob (text "{}") nonce 8
    ∷ deleting path bob
    ∷ []

run-isolated_secrets_example :
    let w = (run sample codec writes open_world).1 in
    let u = (run sample codec calls_of_bob w).1 in
    (read sample codec path alice (some 1) u ≡ read sample codec path alice (some 1) w)
    × (numbers_of (versions sample path alice u) ≡ numbers_of (versions sample path alice w))
    × ((es : List SecretEntry) × (es' : List SecretEntry) × (list sample alice w ≡ ok es)
        × (list sample alice u ≡ ok es')
        × (numbers_at path es' ≡ numbers_at path es))
unfolding same
run-isolated_secrets_example =
    run-isolated_secrets sample sample-IsSound codec codec-IsJson key_bytes calls_of_bob
      (run sample codec writes open_world).1 (replay writes (λ at. [])).1 alice refl (writes_kept).0
      (writes_kept).1
      (
        (bob-IsEmail, refl, (text "{}", refl, omega arith)),
        ((bob-IsEmail, refl, (text "{}", refl, omega arith)), (bob-IsEmail, tt)),
      )
      (refl, (refl, (refl, tt))) alice-IsEmail path (some 1)
