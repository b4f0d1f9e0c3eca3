-- ===== src/Histories/Accounts.antt =====
-- The accounts in the histories of app/services/auth_service.py and app/seed.py: they are only ever added,
-- and no identifier and no address is given twice.
use ticketflow.Base.{
  prefix_grows, ℕ, ◌≡◌, refl, inl, inr, false, not, ◌||◌, List, [], ◌∷◌, ◌++◌, arith, any, find,
  Elem, Distinct, Bool-cases, Option-cases, ◌==◌, nat_eq, subst, sym,
}
use ticketflow.Base.Text.{Text, text_eq}
use ticketflow.Models.{User, Db}
use ticketflow.Auth.Libraries.{Letters, Passwords}
use ticketflow.Auth.Service.{has_email, register_customer}
use ticketflow.Auth.Registration.{UniqueEmails, has_email-false, register_customer_exact, account}
use ticketflow.Auth.Seed.{Chances, seed_agent, commit_agent, seed_account, seed_email}
use ticketflow.Auth.Sessions.{user_key}
use ticketflow.Workflow.Refinement.{any-none}
use ticketflow.Histories.{committed}

-- No two accounts share an identifier or an address.
pub record AreSeparate (users : List User) : Type 0 where
  pub ids : Distinct user_key users
  pub emails : UniqueEmails users

add-AreSeparate :
    (a : User) (us : List User)
    → any (λ u. u.id == a.id) us ≡ false
    → has_email a.email us ≡ false
    → AreSeparate us
    → AreSeparate (a ∷ us)
add-AreSeparate a us fresh new s = record {
  ids = (any-none user_key a.id us fresh, s.ids);
  emails = (has_email-false a.email us new, s.emails);
}

pub committed-AreSeparate :
    (others us : List User) → AreSeparate us → AreSeparate (committed others us ++ us)
unfolding committed
committed-AreSeparate [] us s = s
committed-AreSeparate (a ∷ rest) us s =
    let all_users = committed rest us ++ us in
    let h = committed-AreSeparate rest us s in
    elim (Bool-cases (any (λ u. u.id == a.id) all_users || has_email a.email all_users)) [
      | inl e ↦ rw e h
      | inr e ↦ rw e (add-AreSeparate a all_users (ground arith) (ground arith) h)
    ]

-- What a transaction on accounts does: the accounts of before are stored, separate still, and no other
-- table is written.
pub record Grown (db db' : Db) : Type 0 where
  pub users : List User
  pub written : db' ≡ record db { users = users }
  pub kept : (u : User) → Elem u db.users → Elem u users
  pub separate : AreSeparate users

pub same-Grown : (db : Db) → AreSeparate db.users → Grown db db
same-Grown db s = record { users = db.users; written = refl; kept = λ u m. m; separate = s }

-- The accounts of others come in, and perhaps one more.
others-Grown :
    (others : List User) (db : Db)
    → AreSeparate (others ++ db.users)
    → Grown db (record db { users = others ++ db.users })
others-Grown others db s = record {
  users = others ++ db.users;
  written = refl;
  kept = prefix_grows others db.users;
  separate = s;
}

one_more-Grown :
    (a : User) (others : List User) (db : Db)
    → any (λ u. u.id == a.id) (others ++ db.users) ≡ false
    → has_email a.email (others ++ db.users) ≡ false
    → AreSeparate (others ++ db.users)
    → Grown db (record db { users = a ∷ others ++ db.users })
one_more-Grown a others db fresh new s = record {
  users = a ∷ others ++ db.users;
  written = refl;
  kept = λ u m. inr (prefix_grows others db.users u m);
  separate = add-AreSeparate a (others ++ db.users) fresh new s;
}

module _ (letters : Letters) (passwords : Passwords) where
  pub registered-Grown :
      (new_id now salt : ℕ) (others : List User) (email password : Text) (db : Db)
      → any (λ u. u.id == new_id) (others ++ db.users) ≡ false
      → AreSeparate db.users
      → AreSeparate (others ++ db.users)
      → Grown db (register_customer letters passwords new_id now salt others email password db).1
  registered-Grown new_id now salt others email password db fresh before s =
      let a = account letters passwords new_id now salt email password in
      let (free, refused, _) =
        register_customer_exact letters passwords new_id now salt email password others db in
      elim (Bool-cases (has_email a.email (others ++ db.users))) [
        | inr new ↦ subst (Grown db) (sym (free new).1) (one_more-Grown a others db fresh new s)
        | inl taken ↦ elim (refused taken).1 [
          | inl e ↦ subst (Grown db) (sym e) (same-Grown db before)
          | inr e ↦ subst (Grown db) (sym e) (others-Grown others db s)
        ]
      ]

  pub seeded-Grown :
      (email password : Text) (c : Chances) (db : Db)
      → any (λ u. u.id == c.new_id) (c.meanwhile ++ db.users) ≡ false
      → AreSeparate db.users
      → AreSeparate (c.meanwhile ++ db.users)
      → Grown db (seed_agent letters passwords email password c db).1
  unfolding seed_agent commit_agent seed_account
  seeded-Grown email password c db fresh before s =
      let address = seed_email letters passwords email password in
      elim (Option-cases (find (λ u. u.email == address) db.users)) [
        | inr (v, e) ↦ rw (e, seed_agent) (same-Grown db before)
        | inl e ↦ elim (Bool-cases (not c.reached || has_email address (c.meanwhile ++ db.users))) [
          | inl failed ↦ rw (e, seed_agent, failed, commit_agent) (others-Grown c.meanwhile db s)
          | inr committed ↦
              rw (e, seed_agent, committed, commit_agent)
                (one_more-Grown (seed_account letters passwords email password c) c.meanwhile db
                  fresh (ground arith) s)
        ]
      ]
