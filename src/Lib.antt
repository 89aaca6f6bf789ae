-- ===== src/Lib.antt =====
-- Mini Vault: a service that keeps secrets and named keys encrypted under one data key, which is
-- itself wrapped under a master passphrase, for users who log in and are audited.
--
-- The program is a Python web service. A request passes the size limit of app/main.py and comes to
-- one of the handlers of app/router.py, which authenticate the caller (app/dependencies.py) and
-- call one of the services below on a body that app/schemas.py admits; app/exceptions.py turns what
-- comes of it into an answer. The services share the database session and the one key in memory.
--
-- Files:
--   Base                texts, lists, decimals and tests on the native numbers
--   Errors              app/exceptions.py: AppError, the other exceptions, and outcomes
--   Platform            what the program calls and does not implement: AESGCM, argon2, Ed25519,
--                       base64, SHA-256, json, the tables of Unicode. `IsSound` holds the laws that
--                       the theorems use; Platform/Sample is a concrete instance that has them
--   Db                  app/models.py and app/database.py: tables, session, commit, rollback
--   Utils               app/utils/validation.py and app/utils/base64_utils.py
--   PyInt               Python's str.strip and int(str), as the services and app/main.py use them
--   Vault               app/core: VaultState, crypto_service, key_derivation, VaultService
--   Auth                app/auth/service.py and current_principal of app/dependencies.py
--   Kv                  app/kv/service.py, its rows and queries in Kv/Tables; Kv/Shelf is what its
--                       calls promise, a list of values for each path, with no ids, rows or
--                       ciphertexts
--   Transit             app/transit/service.py: creation, rotation, revocation and listing of keys;
--                       Transit/Tables has the rows and queries, Transit/Messages the material of a
--                       key, encryption and signing
--   Audit               app/audit/service.py and audit_verify of app/router.py
--   Schemas             app/schemas.py: the bodies of requests and what refuses them
--   Router              the handlers of app/router.py: authentication, session, audit of denials
--   Http                app/exceptions.py: the envelope of an answer, and of what is raised
--   App                 app/main.py and app/config.py: start and stop, size limit, a request's way
--   Scripts             scripts/make_samples.py: its requests in their order, its assertions, its files
--   Samples             states and inputs for the tests
-- The other files under a component hold proofs, such as Kv/Write.antt; Tests.antt applies them.
--
-- The model. A text is its list of code points and a string of bytes the list of its bytes, all
-- over the native numbers; a time is a number of microseconds, and what isoformat prints of it
-- depends on whether the request has set it or a query has given it. What os.urandom, secrets and
-- the clock give is an argument. A `World` holds the committed tables, the tables as the request's
-- session sees them, and the key in memory. A service call is an `Action`: it takes a world to a
-- result or an exception and the world that is left; `commit` is written where the source commits.
-- A query reads the pending changes, as the session flushes before it. A new primary key is one
-- more than the greatest in use, and a row that breaks a UNIQUE constraint raises an
-- IntegrityError. Columns that no code reads (both times of VaultConfig and User, created_at of
-- Session and TransitKeyVersion, updated_at of TransitKey) are left out.
--
-- Bounds: a secret and a plaintext have at most 1,048,576 bytes, a path 512 characters, a key name
-- 3 to 64, int() reads at most 4300 digits, AESGCM takes less than 2^31 bytes. The decimal digits of
-- n are computed on fuel n + 1: each step divides by ten, so that n steps reach 0. All other
-- recursion is structural.
--
-- Not modelled: the routing of FastAPI and the parsing of a request into the fields of a body, of
-- which a definition takes the result; the order is FastAPI's, the authentication first and then
-- the body. pydantic's EmailStr is a parameter (what it promises, an address with one @, is a
-- hypothesis where it is needed). The database engine (with it the OverflowError for a version
-- number that is more than its 64-bit integers hold, which the model answers as one without a row),
-- threads, the shell scripts, the tests, the file I/O of make_samples.py and its last check, on the
-- bytes of the database's file, are left out, and so are the health check and the URL of the
-- database.
pub mod Base
pub mod Errors
pub mod Platform
pub mod Db
pub mod Utils
pub mod PyInt
pub mod Vault
pub mod Audit
pub mod Auth
pub mod Kv
pub mod Transit
pub mod Router
pub mod Http
pub mod Schemas
pub mod App
pub mod Samples
pub mod Scripts
