-- ===== src/Auth/Guards.antt =====
-- The dependencies of app/core/deps.py let a user through or raise, and write nothing.
use ticketflow.Base.{
  ℕ, ◌≡◌, refl, ◌∙◌, inl, inr, ◌⊎◌, not, Option, Elem, Bool-cases, Option-cases, ◌==◌, nat_eq,
}
use ticketflow.Exec.{Exec, Error, ok, err, pure, raise_if, ◌>>=◌, ◌>>◌, bind_ok, bind_err}
use ticketflow.Models.{User, UserRole, Db, customer, agent, role_eq}
use ticketflow.Auth.Libraries.{Jwt, Uuids, Letters, Settings}
use ticketflow.Auth.Security.{access, decode_token}
use ticketflow.Auth.Deps.{
  Credentials, bearer_token, get_current_user, require_agent, require_customer, agent_required,
  customer_required, authentication_exception,
}
use ticketflow.Auth.Service.{get_user_by_id}
use ticketflow.Auth.Roles.{looked_up, guarded}

-- A dependency writes nothing: it lets a user through, or raises.
abbrev pub Reads : Exec Db User → Db → Type 0
Reads m db = ((u : User) × (m db ≡ (ok u, db))) ⊎ ((e : Error) × (m db ≡ (err e, db)))

guard-Reads :
    (m : Exec Db User) (role : UserRole) (e : Error) (db : Db)
    → Reads m db
    → Reads (λ s. (m >>= λ v. raise_if (not (v.role == role)) e >> pure v) s) db
guard-Reads m role e db h =
    let check : User → Exec Db User = λ v. raise_if (not (v.role == role)) e >> pure v in
    elim h [
      | inl (u, p) ↦ elim (Bool-cases (u.role == role)) [
        | inl q ↦ inl (u, bind_ok m check p ∙ rw q refl)
        | inr q ↦ inr (e, bind_ok m check p ∙ rw q refl)
      ]
      | inr (x, p) ↦ inr (x, bind_err m check p)
    ]

module _ (jwt : Jwt) (uuids : Uuids) (settings : Settings) (letters : Letters) where
  pub user-Reads :
      (now : ℕ) (credentials : Option (Credentials jwt.Token)) (db : Db)
      → Reads (get_current_user jwt uuids settings letters now credentials) db
  unfolding get_current_user
  user-Reads now credentials db =
      elim (Option-cases (bearer_token jwt uuids settings letters credentials)) [
        | inl e ↦ inr (authentication_exception, rw (e, get_current_user) refl)
        | inr (token, e) ↦ elim (Option-cases (decode_token jwt uuids settings now token access)) [
          | inl d ↦ inr (authentication_exception, rw (e, get_current_user, d) refl)
          | inr (k, d) ↦ elim (Option-cases (get_user_by_id k db.users)) [
            | inl f ↦ inr (authentication_exception, rw (e, get_current_user, d, f) refl)
            | inr (v, f) ↦ inl (v, rw (e, get_current_user, d, f) refl)
          ]
        ]
      ]

  pub agent-Reads :
      (now : ℕ) (credentials : Option (Credentials jwt.Token)) (db : Db)
      → Reads (require_agent jwt uuids settings letters now credentials) db
  unfolding require_agent
  agent-Reads now credentials db =
      guard-Reads (get_current_user jwt uuids settings letters now credentials) agent agent_required
        db (user-Reads now credentials db)

  pub customer-Reads :
      (now : ℕ) (credentials : Option (Credentials jwt.Token)) (db : Db)
      → Reads (require_customer jwt uuids settings letters now credentials) db
  unfolding require_customer
  customer-Reads now credentials db =
      guard-Reads (get_current_user jwt uuids settings letters now credentials) customer
        customer_required db (user-Reads now credentials db)

  -- Whom a role check lets through is stored with that role.
  pub let_through :
      (now : ℕ) (credentials : Option (Credentials jwt.Token)) (db : Db) (u : User)
      → ((require_agent jwt uuids settings letters now credentials db ≡ (ok u, db))
          → Elem u db.users × (u.role ≡ agent))
        × ((require_customer jwt uuids settings letters now credentials db ≡ (ok u, db))
            → Elem u db.users × (u.role ≡ customer))
  unfolding require_agent require_customer
  let_through now credentials db u =
      let current = get_current_user jwt uuids settings letters now credentials in
      (
        λ h.
            let (c, r) = guarded current agent agent_required db u h in
            ((looked_up jwt uuids settings letters now credentials db u c).0, r),
        λ h.
            let (c, r) = guarded current customer customer_required db u h in
            ((looked_up jwt uuids settings letters now credentials db u c).0, r),
      )
