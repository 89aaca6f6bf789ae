-- ===== src/Scripts/Steps.antt =====
-- One request of the script: from what its handler does to what the script makes of the answer.
use mini_vault.Base.{
  ℕ, ◌≡◌, refl, ◌∙◌, ap, Bool, true, false, none, some, Option, ⊤, arith, ◌==◌, Text,
}
use mini_vault.Errors.{Result, ok, raise, app, AppError}
use mini_vault.Platform.{Platform}
use mini_vault.Db.{World, Action, reads}
use mini_vault.Auth.{Principal, current_principal}
use mini_vault.Router.{Request, authenticated, audited_call}
use mini_vault.Router.Denied.{opened, closed, authenticated-closed}
use mini_vault.App.Secrets.{audited_call-ok}
use mini_vault.Http.{respond, answered}
use mini_vault.App.{default_settings, too_large, serve}
use mini_vault.App.Accounts.{passed}
use mini_vault.Scripts.{Script, ◌>>=◌, check, expect, payload}

-- A part that succeeds is followed by the next.
pub then :
    {A B : Type 0} (m : Script A) (k : A → Script B) (w u : World) (a : A)
    → m w ≡ (some a, u)
    → (m >>= k) w ≡ k a u
unfolding ◌>>=◌
then m k w u a done = ap (λ r. elim r.0 [ none ↦ (none, r.1) | some x ↦ k x r.1 ]) done

same_status : (n : ℕ) → (n == n) ≡ true
same_status n = ground arith

pub then_check :
    {B : Type 0} (b : Bool) (k : ⊤ → Script B) (w : World) → b ≡ true → (check b >>= k) w ≡ k tt w
unfolding check
then_check b k w holds = then (check b) k w w tt (rw holds refl)

-- An authenticated call that only reads, and does not raise, leaves all as it was.
pub audited_read-ok :
    (p : Platform) {A : Type 0} (req : Request) (who : Principal) (action kind identifier : Text)
    (f : Principal → World → Result A) (w : World) (a : A)
    → current_principal p req.arrived req.credentials (opened p req who w) ≡ ok who
    → f who (opened p req who w) ≡ ok a
    → authenticated p req (λ x. audited_call p req x action kind identifier (reads (f x))) w
      ≡ (ok a, opened p req who w)
audited_read-ok p req who action kind identifier f w a signed done =
    authenticated-closed p req who (λ x. audited_call p req x action kind identifier (reads (f x)))
      w signed
    ∙ ap (closed p req who) (
        audited_call-ok p req who action kind identifier (reads (f who)) (opened p req who w)
          (opened p req who w) a (ap (λ r. (r, opened p req who w)) done))

module _ (p : Platform) {A : Type 0} (header : Option Text) (status : ℕ) (m : Action A)
    (w u : World) (passes : too_large p default_settings header ≡ false) where
  pub expect-ok :
      (a : A)
      → m w ≡ (ok a, u)
      → expect status (serve p default_settings header status m) w ≡ (some tt, u)
  unfolding expect check answered respond
  expect-ok a done =
      rw (passed p default_settings header status m w passes, done, same_status status) refl

  pub expect-refused :
      (e : AppError)
      → m w ≡ (raise (app e), u)
      → expect e.status_code (serve p default_settings header status m) w ≡ (some tt, u)
  unfolding expect check answered respond
  expect-refused e done =
      rw (passed p default_settings header status m w passes, done, same_status e.status_code) refl

  pub payload-ok :
      (a : A) → m w ≡ (ok a, u) → payload (serve p default_settings header status m) w ≡ (some a, u)
  unfolding payload answered respond
  payload-ok a done = rw (passed p default_settings header status m w passes, done) refl

  -- The same, with what follows.
  pub then_expect-ok :
      {B : Type 0} (k : ⊤ → Script B) (a : A)
      → m w ≡ (ok a, u)
      → (expect status (serve p default_settings header status m) >>= k) w ≡ k tt u
  then_expect-ok k a done =
      then (expect status (serve p default_settings header status m)) k w u tt (expect-ok a done)

  pub then_expect-refused :
      {B : Type 0} (k : ⊤ → Script B) (e : AppError)
      → m w ≡ (raise (app e), u)
      → (expect e.status_code (serve p default_settings header status m) >>= k) w ≡ k tt u
  then_expect-refused k e done =
      then (expect e.status_code (serve p default_settings header status m)) k w u tt
        (expect-refused e done)

  pub then_payload-ok :
      {B : Type 0} (k : A → Script B) (a : A)
      → m w ≡ (ok a, u)
      → (payload (serve p default_settings header status m) >>= k) w ≡ k a u
  then_payload-ok k a done =
      then (payload (serve p default_settings header status m)) k w u a (payload-ok a done)
