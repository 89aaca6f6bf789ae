-- ===== src/Router/Tests.antt =====
-- The handlers at concrete inputs.
use mini_vault.Base.{◌≡◌, refl, none, some, [], Text, text, same, starts_with, contains}
use mini_vault.Errors.{ok, raise, app}
use mini_vault.Platform.Sample.{sample}
use mini_vault.Utils.{validate_path}
use mini_vault.Db.{World}
use mini_vault.Vault.{require_dek}
use mini_vault.Audit.Chain.{IsIntact}
use mini_vault.Auth.{current_principal, check_session, token_digest}
use mini_vault.Transit.{key_of}
use mini_vault.Schemas.{SignRequest, VerifyRequest, sign_request, verify_request}
use mini_vault.Router.Locked.{shut, locked_refuses}
use mini_vault.Router.{
  kv_write, kv_read, kv_versions, kv_delete, kv_list, key_list, key_get, key_rotate, key_revoke,
  transit_encrypt, transit_sign, transit_verify,
}
use mini_vault.Router.Denied.{denial, IsDenied, kv-IsDenied}
use mini_vault.Router.Probe.{transit-IsDenied}
use mini_vault.Samples.{
  alice_user, alice_principal, signed_world, signed_request, nonce, key_bytes, codec, path,
}

abbrev to_sign : SignRequest
to_sign = record { key_name = text "pay"; message_b64 = text "aGk="; message_type = text "RAW" }

abbrev to_verify : VerifyRequest
to_verify = record { signed = to_sign; signature_b64 = text "aGk="; signing_algorithm = none }

abbrev foreign : Text
foreign = text "secret/b@x.io/db"

signed :
    current_principal sample 8 (some (text "Bearer", text "token")) signed_world
    ≡ ok alice_principal
unfolding current_principal check_session token_digest same
signed = refl

outside : validate_path foreign (alice_user).email ≡ raise (app denial)
unfolding validate_path starts_with contains
outside = refl

empty-IsIntact : IsIntact sample []
empty-IsIntact = (tt, tt)

kv-IsDenied_example :
    IsDenied sample signed_request alice_principal
      (text "WRITE")
      (text "KV_SECRET")
      foreign
      signed_world
      (kv_write sample codec signed_request nonce 5 foreign (text "{}") signed_world)
    × IsDenied sample signed_request alice_principal
        (text "READ")
        (text "KV_SECRET")
        foreign
        signed_world
        (kv_read sample codec signed_request foreign (some 1) signed_world)
    × IsDenied sample signed_request alice_principal
        (text "LIST_VERSIONS")
        (text "KV_SECRET")
        foreign
        signed_world
        (kv_versions sample signed_request foreign signed_world)
    × IsDenied sample signed_request alice_principal
        (text "DELETE")
        (text "KV_SECRET")
        foreign
        signed_world
        (kv_delete sample signed_request foreign signed_world)
kv-IsDenied_example =
    kv-IsDenied sample codec signed_request alice_principal foreign nonce 5 (text "{}") (some 1)
      signed_world signed outside empty-IsIntact refl

transit-IsDenied_example :
    IsDenied sample signed_request alice_principal
      (text "GET")
      (text "TRANSIT_KEY")
      (text "pay")
      signed_world
      (key_get sample signed_request (text "pay") signed_world)
    × IsDenied sample signed_request alice_principal
        (text "ROTATE")
        (text "TRANSIT_KEY")
        (text "pay")
        signed_world
        (key_rotate sample signed_request key_bytes nonce (text "pay") signed_world)
    × IsDenied sample signed_request alice_principal
        (text "REVOKE")
        (text "TRANSIT_KEY")
        (text "pay")
        signed_world
        (key_revoke sample signed_request 5 (text "pay") signed_world)
    × IsDenied sample signed_request alice_principal
        (text "ENCRYPT")
        (text "TRANSIT_KEY")
        (text "pay")
        signed_world
        (transit_encrypt sample signed_request nonce (text "pay") (text "aGk=") signed_world)
    × IsDenied sample signed_request alice_principal
        (text "SIGN")
        (text "TRANSIT_KEY")
        (text "pay")
        signed_world
        (transit_sign sample signed_request to_sign signed_world)
    × IsDenied sample signed_request alice_principal
        (text "VERIFY")
        (text "TRANSIT_KEY")
        (text "pay")
        signed_world
        (transit_verify sample signed_request to_verify signed_world)
unfolding require_dek key_of sign_request verify_request same
transit-IsDenied_example =
    transit-IsDenied sample signed_request alice_principal (text "pay") key_bytes nonce key_bytes 5
      (text "aGk=") to_sign to_verify signed_world signed refl refl empty-IsIntact refl refl refl
      refl

abbrev shut_world : World
shut_world = record signed_world { dek = none }

signed_shut :
    current_principal sample 8 (some (text "Bearer", text "token")) shut_world ≡ ok alice_principal
unfolding current_principal check_session token_digest same
signed_shut = refl

inside : validate_path path (alice_user).email ≡ ok tt
unfolding validate_path starts_with contains
inside = refl

locked_refuses_example :
    (kv_write sample codec signed_request nonce 5 path (text "{}") shut_world
      ≡ (raise (app shut), shut_world))
    × (kv_read sample codec signed_request path none shut_world ≡ (raise (app shut), shut_world))
    × (kv_versions sample signed_request path shut_world ≡ (raise (app shut), shut_world))
    × (kv_delete sample signed_request path shut_world ≡ (raise (app shut), shut_world))
    × (kv_list sample signed_request shut_world ≡ (raise (app shut), shut_world))
    × (key_get sample signed_request (text "pay") shut_world ≡ (raise (app shut), shut_world))
    × (key_rotate sample signed_request key_bytes nonce (text "pay") shut_world
        ≡ (raise (app shut), shut_world))
    × (key_revoke sample signed_request 5 (text "pay") shut_world ≡ (raise (app shut), shut_world))
    × (transit_encrypt sample signed_request nonce (text "pay") (text "aGk=") shut_world
        ≡ (raise (app shut), shut_world))
    × (key_list sample signed_request shut_world ≡ (raise (app shut), shut_world))
    × (transit_sign sample signed_request to_sign shut_world ≡ (raise (app shut), shut_world))
    × (transit_verify sample signed_request to_verify shut_world ≡ (raise (app shut), shut_world))
unfolding require_dek sign_request verify_request same
locked_refuses_example =
    locked_refuses sample codec signed_request alice_principal path (text "pay") (text "aGk=")
      key_bytes nonce 5 (text "{}") none to_sign to_verify shut_world refl signed_shut inside refl
      refl refl
