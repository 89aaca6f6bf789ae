-- ===== src/Scripts/Constants.antt =====
-- The constants of scripts/make_samples.py: users, passphrases, secrets, plaintexts, and the names in
-- its requests.
use mini_vault.Base.{ℕ, List, [], ◌∷◌, ◌++◌, Text, text}

-- A value of the script's two secrets.
pub data Value : Type 0 where
  string : Text → Value
  number : ℕ → Value

abbrev pub Fields : Type 0
Fields = List (Text × Value)

abbrev pub master : Text
master = text "Sample-Master-Passphrase-2026!"

abbrev pub alice : Text
alice = text "alice@example.com"

abbrev pub alice_pw : Text
alice_pw = text "AliceSample@2026"

abbrev pub bob : Text
bob = text "bob@example.com"

abbrev pub bob_pw : Text
bob_pw = text "BobSample@2026!!"

abbrev pub db_secret : Fields
db_secret =
    (text "username", string (text "admin"))
    ∷ (text "password", string (text "S3cr3t-DB-P@ssw0rd"))
    ∷ (text "host", string (text "db.internal.local"))
    ∷ (text "port", number 5432)
    ∷ []

abbrev pub api_secret : Fields
api_secret = (text "api_key", string (text "sk-sample-1234567890abcdef")) ∷ []

abbrev pub card_plaintext : Text
card_plaintext = text "Thông tin thẻ: 4111-1111-1111-1111"

abbrev pub sign_message : Text
sign_message = text "Mini Vault sample document v1"

-- `f"secret/{ALICE}/database"` and `f"secret/{ALICE}/payment-gateway"`
abbrev pub database_path : Text
database_path = text "secret/" ++ (alice ++ text "/database")

abbrev pub gateway_path : Text
gateway_path = text "secret/" ++ (alice ++ text "/payment-gateway")

abbrev pub payment_key : Text
payment_key = text "payment-key"

abbrev pub document_key : Text
document_key = text "document-signing-key"
