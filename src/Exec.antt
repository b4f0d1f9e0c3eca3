-- ===== src/Exec.antt =====
-- Service calls and request handlers: they read and write a state and may raise. What was written
-- before a raise stays written, so the state comes back beside the error too. The exceptions are
-- those of app/services, `APIException` of app/api/errors.py, and one of pwdlib that nobody catches.
use ticketflow.Base.{ℕ, ◌≡◌, ap, Bool, Option, none, some, List, String}
use ticketflow.Base.{if◌then◌else◌}

pub data Header : Type 0 where
  www_authenticate_bearer : Header
  retry_after : ℕ → Header

pub data Error : Type 0 where
  ticket_not_found : Error
  ticket_state : (message code : String) → Error
  duplicate_email : Error
  authentication : Error
  invalid_refresh_token : Error
  webhook_not_found : Error
  unknown_hash : Error
  api_exception : (status_code : ℕ) (code message : String) (headers : List Header) → Error

pub data Result {ℓ} (A : Type ℓ) : Type ℓ where
  ok : A → Result A
  err : Error → Result A

abbrev pub Exec : Type 0 → Type 0 → Type 0
Exec S A = S → Result A × S

module _ {S A : Type 0} where
  abbrev pub pure : A → Exec S A
  pure a s = (ok a, s)

  abbrev pub raise : Error → Exec S A
  raise e s = (err e, s)

  abbrev pub gets : (S → A) → Exec S A
  gets f s = (ok (f s), s)

  -- `x = await session.scalar(…); if x is None: raise e`
  abbrev pub or_raise : Option A → Error → Exec S A
  or_raise none e = raise e
  or_raise (some a) e = pure a

infixl 5 ◌>>=◌ ◌>>◌
abbrev pub ◌>>=◌ : {S A B : Type 0} → Exec S A → (A → Exec S B) → Exec S B
◌>>=◌ m f s = let (r, s') = m s in elim r [ ok a ↦ f a s' | err e ↦ (err e, s') ]

abbrev pub ◌>>◌ : {S A B : Type 0} → Exec S A → Exec S B → Exec S B
m >> k = m >>= λ _. k

module _ {S : Type 0} where
  abbrev pub modify : (S → S) → Exec S Unit
  modify f s = (ok tt, f s)

  abbrev pub raise_if : Bool → Error → Exec S Unit
  raise_if b e s = (if b then err e else ok tt, s)

-- Runs a call on one part of a larger state.
abbrev pub on : {S T A : Type 0} → (T → S) → (S → T → T) → Exec S A → Exec T A
on get put m t = let (r, s) = m (get t) in (r, put s t)

module _ {S A B : Type 0} where
  pub bind_ok :
      (m : Exec S A) (f : A → Exec S B) {s s' : S} {a : A} → m s ≡ (ok a, s') → (m >>= f) s ≡ f a s'
  bind_ok m f h = ap (λ r. elim r.0 [ ok a ↦ f a r.1 | err e ↦ (err e, r.1) ]) h

  pub bind_err :
      (m : Exec S A) (f : A → Exec S B) {s s' : S} {e : Error}
      → m s ≡ (err e, s')
      → (m >>= f) s ≡ (err e, s')
  bind_err m f h = ap (λ r. elim r.0 [ ok a ↦ f a r.1 | err e ↦ (err e, r.1) ]) h
