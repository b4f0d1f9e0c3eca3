-- ===== src/Auth/Roles.antt =====
-- Who passes the dependencies of app/core/deps.py.
use ticketflow.Base.{
  ℕ, ◌≡◌, refl, sym, ap, ◌∙◌, inl, inr, ◌↔◌, not, Option, some, Bool-cases, Option-cases, Elem,
  find, find_sound, Distinct, ◌==◌, nat_eq, nat_beq_iff,
}
use ticketflow.Exec.{Exec, Error, Result, ok, err, pure, raise_if, ◌>>=◌, ◌>>◌, bind_ok}
use ticketflow.Models.{User, Db, UserRole, customer, agent, role_eq, role_beq_iff}
use ticketflow.Auth.Libraries.{Jwt, Uuids, Letters, Settings}
use ticketflow.Auth.Security.{access, decode_token}
use ticketflow.Auth.Service.{get_user_by_id}
use ticketflow.Auth.Deps.{
  Credentials, bearer_token, get_current_user, require_agent, require_customer, agent_required,
  customer_required,
}
use ticketflow.Auth.Sessions.{user_key, Names, named}

ok_injective : {u v : User} → Path (Result User) (ok u) (ok v) → u ≡ v
ok_injective h = cc

pub err_not_ok : {e : Error} {v : User} → ¬ Path (Result User) (err e) (ok v)
err_not_ok h = cc

-- What a role check lets through.
pub guarded :
    (m : Exec Db User) (role : UserRole) (e : Error) (db : Db) (u : User)
    → (m >>= λ v. raise_if (not (v.role == role)) e >> pure v) db ≡ (ok u, db)
    → (m db ≡ (ok u, db)) × (u.role ≡ role)
guarded m role e db u = go (m db)
  where
    go :
        (r : Result User × Db)
        → elim r.0 [
          | ok v ↦ (raise_if (not (v.role == role)) e >> pure v) r.1
          | err x ↦ (err x, r.1)
        ]
          ≡ (ok u, db)
        → (r ≡ (ok u, db)) × (u.role ≡ role)
    go (ok v, s) h = elim (Bool-cases (v.role == role)) [
      | inl p ↦
          let q : Path (Result User × Db) (ok v, s) (ok u, db) = rw p at h in
          let b : v ≡ u = ok_injective (ap (λ r. r.0) q) in
          (q, ap (λ (x : User). x.role) (sym b) ∙ (role_beq_iff v.role role).0 p)
      | inr p ↦
          let q : Path (Result User × Db) (err e, s) (ok u, db) = rw p at h in
          absurd (err_not_ok (ap (λ r. r.0) q))
    ]
    go (err x, s) h = absurd (err_not_ok (ap (λ r. r.0) h))

module _ (jwt : Jwt) (uuids : Uuids) (settings : Settings) (letters : Letters) where
  pub looked_up :
      (now : ℕ) (credentials : Option (Credentials jwt.Token)) (db : Db) (u : User)
      → get_current_user jwt uuids settings letters now credentials db ≡ (ok u, db)
      → Elem u db.users × Names jwt uuids settings letters now credentials u.id
  unfolding get_current_user get_user_by_id
  looked_up now credentials db u h =
      elim (Option-cases (bearer_token jwt uuids settings letters credentials)) [
        | inl e ↦ absurd (err_not_ok (ap (λ r. r.0) (rw (e, get_current_user) at h)))
        | inr (token, e) ↦ elim (Option-cases (decode_token jwt uuids settings now token access)) [
          | inl d ↦ absurd (err_not_ok (ap (λ r. r.0) (rw (e, get_current_user, d) at h)))
          | inr (k, d) ↦ elim (Option-cases (find (λ (x : User). x.id == k) db.users)) [
            | inl f ↦ absurd (err_not_ok (ap (λ r. r.0) (rw (e, get_current_user, d, f) at h)))
            | inr (v, f) ↦
                let same : v ≡ u =
                  ok_injective (ap (λ r. r.0) (rw (e, get_current_user, d, f) at h)) in
                let (m, q) = find_sound (λ (x : User). x.id == k) db.users v f in
                let key : k ≡ v.id = sym ((nat_beq_iff v.id k).0 q) in
                rw (← same) (m, (token, e, d ∙ ap some key))
          ]
        ]
      ]

  module _ (now : ℕ) (credentials : Option (Credentials jwt.Token)) (db : Db) where
    -- With unique identifiers, each dependency lets a request through as a user exactly if the account
    -- is stored, an access token of the Authorization header is valid for it, and, for `require_agent`
    -- and `require_customer`, the stored role is AGENT or CUSTOMER. It writes nothing.
    pub roles_exact :
        (u : User)
        → Distinct user_key db.users
        → let Identified =
            Elem u db.users × Names jwt uuids settings letters now credentials u.id in
          ((get_current_user jwt uuids settings letters now credentials db ≡ (ok u, db))
            ↔ Identified)
          × ((require_agent jwt uuids settings letters now credentials db ≡ (ok u, db))
              ↔ (Identified × (u.role ≡ agent)))
          × ((require_customer jwt uuids settings letters now credentials db ≡ (ok u, db))
              ↔ (Identified × (u.role ≡ customer)))
    unfolding require_agent require_customer
    roles_exact u d =
        let current = get_current_user jwt uuids settings letters now credentials in
        let found = named jwt uuids settings letters now credentials db u d in
        (
          (looked_up now credentials db u, λ (m, n). found m n),
          (
            λ h.
                let (c, r) = guarded current agent agent_required db u h in
                (looked_up now credentials db u c, r),
            λ ((m, n), r).
                rw
                  (
                    bind_ok current (λ v. raise_if (not (v.role == agent)) agent_required >> pure v)
                        (found m n),
                    require_agent,
                    r,
                  )
                  refl,
          ),
          (
            λ h.
                let (c, r) = guarded current customer customer_required db u h in
                (looked_up now credentials db u c, r),
            λ ((m, n), r).
                rw
                  (
                    bind_ok current
                        (λ v. raise_if (not (v.role == customer)) customer_required >> pure v)
                        (found m n),
                    require_customer,
                    r,
                  )
                  refl,
          ),
        )
