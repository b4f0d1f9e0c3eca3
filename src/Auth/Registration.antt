-- ===== src/Auth/Registration.antt =====
-- `register_customer` of app/services/auth_service.py, also when others register meanwhile, and the
-- login that follows.
use ticketflow.Base.{
  ℕ, ◌≡◌, ◌≢◌, refl, sym, ◌⊎◌, inl, inr, Bool, true, false, ◌||◌, Option, none, some, List, [], ◌∷◌,
  ◌++◌, arith, Bool-cases, Option-cases, All, Elem, find, ◌==◌,
}
use ticketflow.Base.Text.{Text, text_eq, text_beq_iff, strip, strip-strip}
use ticketflow.Exec.{ok, err, duplicate_email}
use ticketflow.Models.{User, Db, customer}
use ticketflow.Auth.Libraries.{Passwords, Letters}
use ticketflow.Auth.Security.{verify_password}
use ticketflow.Auth.Service.{
  normalize_email, get_user_by_email, has_email, insert_user, register_customer, authenticate_user,
}

-- No two accounts share an email address.
abbrev pub UniqueEmails : List User → Type 0
UniqueEmails [] = Unit
UniqueEmails (u ∷ us) = All (λ v. v.email ≢ u.email) us × UniqueEmails us

has_email-append :
    (e : Text) (us vs : List User) → has_email e (us ++ vs) ≡ (has_email e us || has_email e vs)
has_email-append e [] vs = refl
has_email-append e (u ∷ us) vs = ground (arith, has_email-append e us vs)

has_email-none :
    (e : Text) (us : List User) → find (λ u. u.email == e) us ≡ none → has_email e us ≡ false
has_email-none e [] h = refl
has_email-none e (u ∷ us) h = elim (Bool-cases (u.email == e)) [
  | inl p ↦ let c : some u ≡ none = rw p at h in cc
  | inr p ↦ rw p (has_email-none e us (rw p at h))
]

has_email-some :
    (e : Text) (us : List User) (v : User)
    → find (λ u. u.email == e) us ≡ some v
    → has_email e us ≡ true
has_email-some e [] v h = cc
has_email-some e (u ∷ us) v h = elim (Bool-cases (u.email == e)) [
  | inl p ↦ rw p refl
  | inr p ↦ rw p (has_email-some e us v (rw p at h))
]

pub has_email-false :
    (e : Text) (us : List User) → has_email e us ≡ false → All (λ v. v.email ≢ e) us
has_email-false e [] h = tt
has_email-false e (u ∷ us) h = elim (Bool-cases (u.email == e)) [
  | inl p ↦ let c : true ≡ false = rw p at h in cc
  | inr p ↦ (
    (λ q. let r : (u.email == e) ≡ true = (text_beq_iff u.email e).1 q in cc),
    has_email-false e us (rw p at h),
  )
]

module _ (letters : Letters) where
  -- An address that was normalized is the same after it is normalized again.
  pub normalize_email_idempotent :
      (e : Text) → normalize_email letters (normalize_email letters e) ≡ normalize_email letters e
  unfolding normalize_email
  normalize_email_idempotent e =
      rw (letters.strip-lower (strip e), normalize_email, letters.lower-lower, strip-strip e) refl

  looked_up :
      (e : Text) (us : List User) (o : Option User)
      → find (λ u. u.email == normalize_email letters e) us ≡ o
      → get_user_by_email letters (normalize_email letters e) us ≡ o
  unfolding get_user_by_email
  looked_up e us o h = rw (get_user_by_email, normalize_email_idempotent e) h

email_other :
    (u v : User) (us : List User) → All (λ w. w.email ≢ v.email) us → Elem u us → u.email ≢ v.email
email_other u v [] h m = elim m [ ]
email_other u v (w ∷ us) h (inl e) = rw e h.0
email_other u v (w ∷ us) h (inr m) = email_other u v us h.1 m

-- The account of an address is found under it.
pub find_by_email :
    (us : List User) (u : User)
    → UniqueEmails us
    → Elem u us
    → find (λ v. v.email == u.email) us ≡ some u
find_by_email [] u h m = elim m [ ]
find_by_email (v ∷ us) u h (inl e) = rw (← e, (text_beq_iff u.email u.email).1 refl) refl
find_by_email (v ∷ us) u h (inr m) = elim (Bool-cases (v.email == u.email)) [
  | inl e ↦ absurd (email_other u v us h.0 m (sym ((text_beq_iff v.email u.email).0 e)))
  | inr e ↦ rw e (find_by_email us u h.1 m)
]

module _ (letters : Letters) (passwords : Passwords) where
  module _ (new_id now salt : ℕ) (email password : Text) where
    -- The row that a registration adds.
    abbrev pub account : User
    account = record {
      id = new_id;
      email = normalize_email letters email;
      password_hash = passwords.hash salt password;
      role = customer;
      created_at = now;
    }

    module _ (meanwhile : List User) (db : Db) where
      abbrev pub at_commit : List User
      at_commit = meanwhile ++ db.users

      abbrev pub taken : Bool
      taken = has_email (normalize_email letters email) at_commit

      -- With the accounts that others commit while the password is hashed: `register_customer` succeeds
      -- exactly if no account has the normalized address when it commits, and then adds a row with that
      -- address, the hashed password and the role CUSTOMER; else it raises DuplicateEmailError and adds
      -- no row of its own. Addresses that were unique stay so.
      pub register_customer_exact :
          let (r, db') =
            register_customer letters passwords new_id now salt meanwhile email password db in
          (taken ≡ false → (r ≡ ok account) × (db' ≡ record db { users = account ∷ at_commit }))
          × (taken ≡ true
              → (r ≡ err duplicate_email) × ((db' ≡ db) ⊎ (db' ≡ record db { users = at_commit })))
          × (UniqueEmails db.users → UniqueEmails at_commit → UniqueEmails db'.users)
      unfolding register_customer insert_user
      register_customer_exact =
          elim (Option-cases (find (λ u. u.email == normalize_email letters email) db.users)) [
            | inl e ↦
                rw (looked_up letters email db.users none e, register_customer)
                  (elim (Bool-cases taken) [
                    | inl t ↦ rw t ((λ c. cc), (λ _. (refl, inr refl)), λ _ h. h)
                    | inr t ↦ rw t (
                      (λ _. (refl, refl)),
                      (λ c. cc),
                      λ _ h. (has_email-false (normalize_email letters email) at_commit t, h),
                    )
                  ])
            | inr (v, e) ↦
                let before : has_email (normalize_email letters email) db.users ≡ true =
                  has_email-some _ db.users v e in
                let t : taken ≡ true =
                  rw (has_email-append (normalize_email letters email) meanwhile db.users, before)
                    (ground arith) in
                rw (looked_up letters email db.users (some v) e, register_customer, t)
                  ((λ c. cc), (λ _. (refl, inl refl)), λ h _. h)
          ]

    -- In any later state of the accounts in which the new row stands and addresses are unique, its owner
    -- logs in with the password, under any spelling of the address that normalizes to the same.
    pub registered_login :
        (spelling : Text) (db : Db)
        → normalize_email letters spelling ≡ normalize_email letters email
        → UniqueEmails db.users
        → Elem account db.users
        → authenticate_user letters passwords spelling password db ≡ (ok account, db)
    unfolding authenticate_user get_user_by_email verify_password
    registered_login spelling db same unique m =
        rw
          (
            same,
            authenticate_user,
            find_by_email db.users account unique m,
            passwords.verify-hash salt password,
            verify_password,
          )
          refl
