-- ===== src/Auth/Tests.antt =====
-- The properties of accounts and sessions, with the sample libraries.
use ticketflow.Base.{
  ◌+◌, ◌*◌, ◌<◌, ◌≡◌, ◌≢◌, refl, sym, inl, inr, ◌⊎◌, ◌↔◌, true, false, Option, some, [], ◌∷◌, arith,
  Elem,
}
use ticketflow.Base.Text.{text_eq, strip, lstrip, rstrip, is_space}
use ticketflow.Exec.{ok, err, duplicate_email, invalid_refresh_token}
use ticketflow.Models.{User, Db, customer, agent}
use ticketflow.Models.Samples.{ann, bob, eve, desk}
use ticketflow.Auth.Security.{
  access, decode_token, create_token, create_access_token, verify_password,
}
use ticketflow.Auth.Service.{
  normalize_email, register_customer, authenticate_user, login_user, token_pair,
  issue_access_token_from_refresh,
}
use ticketflow.Auth.Deps.{
  Credentials, bearer, get_current_user, require_agent, require_customer, authentication_exception,
}
use ticketflow.Auth.Samples.{jwt, uuids, letters, passwords, settings}
use ticketflow.Auth.Tokens.{decode_token-create_token}
use ticketflow.Auth.Registration.{UniqueEmails, account, taken, register_customer_exact}
use ticketflow.Auth.Sessions.{authenticate_user_exact, session_exact, Names}
use ticketflow.Auth.Seed.{Chances, skipped, failed, Has, seed_agent, seed_agent-again}
use ticketflow.Auth.Roles.{roles_exact}

accepted :
    decode_token jwt uuids settings 1500 (create_token jwt uuids settings 1000 2 access 900) access
    ≡ some 2
accepted =
    decode_token-create_token jwt uuids settings 1000 1500 2 900 access access (omega arith)
      (omega arith)

desk-UniqueEmails : UniqueEmails desk.users
desk-UniqueEmails = (ground arith, ground arith)

-- " b " is bob's address with spaces around it; another user registers it meanwhile.
register_customer_exact_example :
    let (r, db') =
      register_customer letters passwords 4 100 9 [] (32 ∷ 98 ∷ 32 ∷ []) (112 ∷ []) desk in
    let new = account letters passwords 4 100 9 (32 ∷ 98 ∷ 32 ∷ []) (112 ∷ []) in
    let known = taken letters passwords 4 100 9 (32 ∷ 98 ∷ 32 ∷ []) (112 ∷ []) [] desk in
    (known ≡ false → (r ≡ ok new) × (db' ≡ record desk { users = new ∷ desk.users }))
    × (known ≡ true → (r ≡ err duplicate_email) × ((db' ≡ desk) ⊎ (db' ≡ desk)))
    × (UniqueEmails desk.users → UniqueEmails desk.users → UniqueEmails db'.users)
register_customer_exact_example =
    register_customer_exact letters passwords 4 100 9 (32 ∷ 98 ∷ 32 ∷ []) (112 ∷ []) [] desk

bob_normal : normalize_email letters (98 ∷ []) ≡ 98 ∷ []
unfolding normalize_email strip lstrip rstrip is_space
bob_normal = refl

bob_logs_in : authenticate_user letters passwords (98 ∷ []) (2 ∷ []) desk ≡ (ok bob, desk)
unfolding verify_password
bob_logs_in =
    (authenticate_user_exact letters passwords (98 ∷ []) (2 ∷ []) desk desk-UniqueEmails).0 bob
      (inr (inl refl)) (sym bob_normal, refl)

-- A new customer, registered as "z".
abbrev zoe : User
zoe = account letters passwords 4 100 9 (122 ∷ []) (112 ∷ [])

abbrev desk' : Db
desk' = record desk { users = zoe ∷ desk.users }

desk'-UniqueEmails : UniqueEmails desk'.users
unfolding normalize_email strip lstrip rstrip is_space
desk'-UniqueEmails = (ground arith, ground arith)

-- bob's account as it is later, when bob has become an agent.
abbrev promoted : User
promoted = record bob { role = agent }

abbrev desk'' : Db
desk'' = record desk { users = ann ∷ promoted ∷ [] }

session_exact_example :
    let pair = token_pair jwt uuids settings 1000 bob in
    let request = λ (token : jwt.Token).
      get_current_user jwt uuids settings letters 1500
        (some (record { scheme = bearer; token = token }))
        desk'' in
    let exchange =
      λ (token : jwt.Token). issue_access_token_from_refresh jwt uuids settings 1500 token desk'' in
    (login_user jwt uuids settings letters passwords 1000 (98 ∷ []) (2 ∷ []) desk ≡ (ok pair, desk))
    × (1500 < 1000 + 15 * 60
        → (request pair.access_token ≡ (ok promoted, desk''))
          × (exchange pair.access_token ≡ (err invalid_refresh_token, desk'')))
    × (1500 < 1000 + 7 * 86400
        → (request pair.refresh_token ≡ (err authentication_exception, desk''))
          × (exchange pair.refresh_token ≡ (
            ok (record {
              access_token = create_access_token jwt uuids settings 1500 2;
              access_expires_in = 15 * 60;
            }),
            desk'',
          )))
session_exact_example =
    session_exact jwt uuids settings letters 1000 1500 bob promoted desk desk'' passwords (98 ∷ [])
      (2 ∷ []) bearer bob_logs_in (ground arith) (inr (inl refl)) refl refl (omega arith)

abbrev credentials : Option (Credentials jwt.Token)
credentials =
    some (record { scheme = bearer; token = create_access_token jwt uuids settings 1000 3 })

roles_exact_example :
    let Identified = Elem eve desk.users × Names jwt uuids settings letters 1500 credentials 3 in
    ((get_current_user jwt uuids settings letters 1500 credentials desk ≡ (ok eve, desk))
      ↔ Identified)
    × ((require_agent jwt uuids settings letters 1500 credentials desk ≡ (ok eve, desk))
        ↔ (Identified × (eve.role ≡ agent)))
    × ((require_customer jwt uuids settings letters 1500 credentials desk ≡ (ok eve, desk))
        ↔ (Identified × (eve.role ≡ customer)))
roles_exact_example = roles_exact jwt uuids settings letters 1500 credentials desk eve (omega arith)

abbrev first_run : Chances
first_run = record { new_id = 80; now = 1; salt = 2; reached = true; meanwhile = [] }

abbrev second_run : Chances
second_run = record { new_id = 81; now = 3; salt = 4; reached = true; meanwhile = [] }

seed_agent-again_example :
    let (r, db') = seed_agent letters passwords (122 ∷ []) (113 ∷ []) first_run desk in
    (Has letters passwords (122 ∷ []) (113 ∷ []) desk → (r ≡ skipped) × (db' ≡ desk))
    × (r ≢ failed
        → Has letters passwords (122 ∷ []) (113 ∷ []) db'
          × (seed_agent letters passwords (122 ∷ []) (113 ∷ []) second_run db' ≡ (skipped, db')))
seed_agent-again_example =
    seed_agent-again letters passwords (122 ∷ []) (113 ∷ []) first_run second_run desk
