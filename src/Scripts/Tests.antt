-- ===== src/Scripts/Tests.antt =====
-- The script of samples at a concrete run.
use mini_vault.Base.{
  ◌≡◌, ◌+◌, refl, ap, arith, some, none, [], ◌∷◌, ◌++◌, true, false, Bool, Bool-cases, inl, inr,
  ◌&&◌, text, ℕ, zero, suc, Bytes, length, same, same_sound, ◌==◌, if◌then◌else◌, Option,
}
use mini_vault.Platform.Sample.{sample, sample-IsSound}
use mini_vault.PyInt.{strip}
use mini_vault.Db.{World}
use mini_vault.Schemas.{EmailStr}
use mini_vault.Auth.{token_digest}
use mini_vault.Audit.{audit_verify, valid}
use mini_vault.App.{too_large}
use mini_vault.Kv.{JsonCodec}
use mini_vault.Scripts.{
  Fields, Value, string, number, Run, Samples, new_process, db_secret, api_secret, database_path,
  payment_key, main,
}
use mini_vault.Scripts.Setting.{IsRun}
use mini_vault.Scripts.Main.{denied_line, SamplesHold, main-succeeds}

-- Texts, values and bodies as bytes, each text with its end.
abbrev any_address : EmailStr
any_address = record { parse = λ s. some s }

unfoldable same_value : Value → Value → Bool
unfolding same
same_value (string s) (string t) = same s t
same_value (number n) (number k) = n == k
same_value _ _ = false

same_value_sound : (v x : Value) → same_value v x ≡ true → v ≡ x
unfolding same_value
same_value_sound (string s) (string t) h = ap string (same_sound s t h)
same_value_sound (string s) (number n) h = cc
same_value_sound (number n) (string s) h = cc
same_value_sound (number n) (number k) h = ground arith

unfoldable same_fields : Fields → Fields → Bool
unfolding same_value
same_fields [] [] = true
same_fields [] (f ∷ fs) = false
same_fields (f ∷ fs) [] = false
same_fields ((k, v) ∷ fs) ((k', v') ∷ fs') = same k k' && same_value v v' && same_fields fs fs'

same_fields_sound : (f g : Fields) → same_fields f g ≡ true → f ≡ g
unfolding same_fields
same_fields_sound [] [] h = refl
same_fields_sound [] (g ∷ gs) h = cc
same_fields_sound (f ∷ fs) [] h = cc
same_fields_sound ((k, v) ∷ fs) ((k', v') ∷ gs) h =
    ground (arith, same_sound k k', same_value_sound v v', same_fields_sound fs gs)

-- The two bodies of the script, and no other, have a text.
unfoldable dump : Fields → Option Bytes
unfolding same_fields
dump v =
    if same_fields v db_secret
    then some []
    else if same_fields v api_secret
    then some (0 ∷ [])
    else none

unfoldable load : Bytes → Option Fields
load [] = some db_secret
load (x ∷ b) = some api_secret

abbrev codec : JsonCodec Fields
codec = record { dumps = dump; loads = load }

dump-load : (v : Fields) (b : Bytes) → dump v ≡ some b → load b ≡ some v
unfolding dump load
dump-load v b h =
    let db : Fields = db_secret in
    let api : Fields = api_secret in
    elim (Bool-cases (same_fields v db_secret)) [
      | inl is_db ↦ ground (arith, same_fields_sound v db is_db)
      | inr no_db ↦ elim (Bool-cases (same_fields v api_secret)) [
        | inl is_api ↦ ground (arith, same_fields_sound v api is_api)
        | inr no_api ↦ absurd (ground arith)
      ]
    ]

-- `k` times the number of the request.
unfoldable draw : ℕ → ℕ → Bytes
draw n zero = []
draw n (suc k) = n ∷ draw n k

length-draw : (n k : ℕ) → length (draw n k) ≡ k
unfolding draw
length-draw n zero = refl
length-draw n (suc k) = ap suc (length-draw n k)

abbrev sample_run : Run
sample_run = record {
  content_length = λ n. none;
  client_ip = some (text "127.0.0.1");
  arrived = λ n. 7;
  written = λ n. 100 + n;
  random = draw;
}

sample_run-IsRun : IsRun sample any_address codec sample_run
unfolding draw dump same same_fields token_digest strip too_large
sample_run-IsRun = record {
  drawn = length-draw;
  distinct = refl;
  admitted = λ n. refl;
  in_time = λ n k. omega arith;
  scheme = refl;
  alice_normal = refl;
  bob_normal = refl;
  alice_parsed = refl;
  bob_parsed = refl;
  db_dumped = ([], refl, omega arith);
  api_dumped = (0 ∷ [], refl, omega arith);
}

main-succeeds_example :
    (s : Samples) × (u : World) × (main sample any_address codec sample_run new_process
      ≡ (some s, u))
    × (s.audit_log
        ≡ denied_line sample 108 (text "READ") (text "KV_SECRET") database_path
          ++ denied_line sample 112 (text "ENCRYPT") (text "TRANSIT_KEY") payment_key)
    × (audit_verify sample u.stored.audit_logs ≡ valid)
    × SamplesHold sample s (record u { work = u.stored })
main-succeeds_example =
    main-succeeds sample sample-IsSound any_address codec (record { json-round = dump-load })
      sample_run sample_run-IsRun
