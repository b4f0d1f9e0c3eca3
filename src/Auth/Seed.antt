-- ===== src/Auth/Seed.antt =====
-- app/seed.py: the configured agent.
use ticketflow.Base.{
  ℕ, ◌≡◌, ◌≢◌, refl, ap, Bool, true, false, not, ◌||◌, inl, inr, none, some, List, ◌∷◌, ◌++◌, find,
  ◌==◌, Bool-cases, Option-cases, if◌then◌else◌, Elem, All_at, find-none, find_sound,
}
use ticketflow.Base.Text.{Text, text_eq, text_beq_iff}
use ticketflow.Models.{User, Db, agent}
use ticketflow.Auth.Libraries.{Passwords, Letters}
use ticketflow.Auth.Service.{normalize_email, has_email}

-- How the script ends: without a change, with a new account, or with the error of the commit raised again.
pub data Seeded : Type 0 where
  skipped created failed : Seeded

-- What is outside of the script's control: the new identifier, the time and the salt, whether the commit
-- reaches the database, and the accounts that are committed between the lookup and the commit.
pub record Chances : Type 0 where
  pub new_id : ℕ
  pub now : ℕ
  pub salt : ℕ
  pub reached : Bool
  pub meanwhile : List User

module _ (letters : Letters) (passwords : Passwords)
    (seeded_agent_email seeded_agent_password : Text) where
  abbrev pub seed_email : Text
  seed_email = normalize_email letters seeded_agent_email

  unfoldable pub seed_account : Chances → User
  seed_account c = record {
    id = c.new_id;
    email = seed_email;
    password_hash = passwords.hash c.salt seeded_agent_password;
    role = agent;
    created_at = c.now;
  }

  -- INSERT and commit under the unique constraint on `email`.
  unfoldable pub commit_agent : Chances → Db → Seeded × Db
  unfolding seed_account
  commit_agent c db =
      if not c.reached || has_email seed_email db.users
      then (failed, db)
      else (created, record db { users = seed_account c ∷ db.users })

  unfoldable pub seed_agent : Chances → Db → Seeded × Db
  unfolding commit_agent
  seed_agent c db = elim (find (λ u. u.email == seed_email) db.users) [
    | none ↦ commit_agent c (record db { users = c.meanwhile ++ db.users })
    | some u ↦ (skipped, db)
  ]

  -- The address has an account.
  abbrev pub Has : Db → Type 0
  Has db = (u : User) × Elem u db.users × (u.email ≡ seed_email)

  known : (db : Db) → Has db → (v : User) × (find (λ u. u.email == seed_email) db.users ≡ some v)
  known db (u, m, e) = elim (Option-cases (find (λ u. u.email == seed_email) db.users)) [
    | inr h ↦ h
    | inl h ↦
        let a : (u.email == seed_email) ≡ false =
          All_at (λ (x : User). (x.email == seed_email) ≡ false) db.users
            (find-none (λ (x : User). x.email == seed_email) db.users h) u m in
        let b : (u.email == seed_email) ≡ true = (text_beq_iff u.email seed_email).1 e in cc
  ]

  committed : (c : Chances) (db : Db) → (commit_agent c db).0 ≢ failed → Has (commit_agent c db).1
  unfolding commit_agent seed_account
  committed c db good = elim (Bool-cases (not c.reached || has_email seed_email db.users)) [
    | inl e ↦ absurd (good (rw (e, commit_agent) refl))
    | inr e ↦ rw (e, commit_agent) (seed_account c, inl refl, refl)
  ]

  left : (c : Chances) (db : Db) → (seed_agent c db).0 ≢ failed → Has (seed_agent c db).1
  unfolding seed_agent
  left c db good = elim (Option-cases (find (λ u. u.email == seed_email) db.users)) [
    | inl e ↦
        rw (e, seed_agent)
          (committed c (record db { users = c.meanwhile ++ db.users }) (rw (e, seed_agent) at good))
    | inr (v, e) ↦
        let (m, q) = find_sound (λ (u : User). u.email == seed_email) db.users v e in
        rw (e, seed_agent) (v, m, (text_beq_iff v.email seed_email).0 q)
  ]

  again : (c : Chances) (db : Db) → Has db → seed_agent c db ≡ (skipped, db)
  unfolding seed_agent
  again c db h = let (v, e) = known db h in rw (e, seed_agent) refl

  -- A run that does not fail leaves an account with the configured address; where there is one already, a
  -- run changes nothing, whatever role and password that account has. So every further run after one that
  -- did not fail changes nothing, with whatever identifier, time and salt.
  pub seed_agent-again :
      (first later : Chances) (db : Db)
      → let (r, db') = seed_agent first db in
        (Has db → (r ≡ skipped) × (db' ≡ db))
        × (r ≢ failed → Has db' × (seed_agent later db' ≡ (skipped, db')))
  seed_agent-again first later db = (
    λ h. let e = again first db h in (ap (λ r. r.0) e, ap (λ r. r.1) e),
    λ good. let h = left first db good in (h, again later (seed_agent first db).1 h),
  )
