-- ===== src/Auth/Sessions.antt =====
-- Logins through app/services/auth_service.py, and the tokens of a login at later requests.
use ticketflow.Base.{
  ℕ, ◌+◌, ◌*◌, ◌≤◌, ◌<◌, ◌≡◌, refl, sym, ap, ◌∙◌, inl, inr, Bool, true, false, Option, none, some,
  List, Option-cases, Elem, find, find_sound, find_complete, Distinct, ◌==◌, nat_eq, nat_beq_iff,
}
use ticketflow.Base.Text.{Text, text_eq, text_beq_iff}
use ticketflow.Exec.{
  pure, Error, ok, err, authentication, unknown_hash, invalid_refresh_token, bind_ok, or_raise,
}
use ticketflow.Models.{User, Db, role_eq}
use ticketflow.Auth.Libraries.{Jwt, Uuids, Letters, Passwords, Settings}
use ticketflow.Auth.Security.{
  access, refresh, decode_token, create_access_token, create_refresh_token, verify_password,
}
use ticketflow.Auth.Service.{
  normalize_email, get_user_by_email, get_user_by_id, authenticate_user, login_user, token_pair,
  issue_access_token_from_refresh,
}
use ticketflow.Auth.Deps.{
  Credentials, bearer, bearer_token, get_current_user, authentication_exception,
}
use ticketflow.Auth.Tokens.{decode_token-create_token}
use ticketflow.Auth.Registration.{UniqueEmails, find_by_email}

abbrev pub user_key : User → ℕ
user_key u = u.id

found_by_id :
    (us : List User) (u : User) → Distinct user_key us → Elem u us → get_user_by_id u.id us ≡ some u
unfolding get_user_by_id
found_by_id us u d m =
    find_complete user_key (λ x. x.id == u.id) us u d m ((nat_beq_iff u.id u.id).1 refl)
      (λ x e. (nat_beq_iff x.id u.id).0 e)

module _ (letters : Letters) (passwords : Passwords) (email password : Text) (db : Db) where
  abbrev pub Verifies : User → Option Bool → Type 0
  Verifies u answer = verify_password passwords password u.password_hash ≡ answer

  -- The user's password is the one given.
  abbrev pub Knows : User → Type 0
  Knows u =
      (u.email ≡ normalize_email letters email)
      × (verify_password passwords password u.password_hash ≡ some true)

  -- With unique addresses, `authenticate_user` returns the account of the normalized address if the
  -- password verifies against its hash; where no account has the address, or the password does not verify, also
  -- because the hash is malformed, it raises AuthenticationError, the same for all these causes. A hash of
  -- another scheme makes it raise pwdlib's UnknownHashError.
  pub authenticate_user_exact :
      UniqueEmails db.users
      → ((u : User)
          → Elem u db.users
          → Knows u
          → authenticate_user letters passwords email password db ≡ (ok u, db))
        × (((u : User)
              → Elem u db.users
              → u.email ≡ normalize_email letters email
              → Verifies u (some false))
            → authenticate_user letters passwords email password db ≡ (err authentication, db))
        × ((u : User)
            → Elem u db.users
            → u.email ≡ normalize_email letters email
            → Verifies u none
            → authenticate_user letters passwords email password db ≡ (err unknown_hash, db))
  unfolding authenticate_user get_user_by_email
  authenticate_user_exact unique = (
    λ u m (e, v). rw (← e, authenticate_user, find_by_email db.users u unique m, v) refl,
    λ nobody. elim (Option-cases (find (λ u. u.email == normalize_email letters email) db.users)) [
      | inl e ↦ rw (e, authenticate_user) refl
      | inr (u, e) ↦
          let (m, q) =
            find_sound (λ (u : User). u.email == normalize_email letters email) db.users u e in
          rw
            (
              e,
              authenticate_user,
              nobody u m ((text_beq_iff u.email (normalize_email letters email)).0 q),
            )
            refl
    ],
    λ u m e v. rw (← e, authenticate_user, find_by_email db.users u unique m, v) refl,
  )

or_raise-ok :
    {A : Type 0} (o : Option A) (e : Error) (db db' : Db) (a : A)
    → or_raise o e db ≡ (ok a, db')
    → (o ≡ some a) × (db' ≡ db)
or_raise-ok none e db db' a h = cc (ap (λ r. r.0) h)
or_raise-ok (some x) e db db' a h =
    let p : ok x ≡ ok a = ap (λ r. r.0) h in (cc, sym (ap (λ r. r.1) h))

module _ (jwt : Jwt) (uuids : Uuids) (settings : Settings) (letters : Letters) where
  -- The user whom the header's access token names.
  abbrev pub Names : (now : ℕ) → Option (Credentials jwt.Token) → ℕ → Type 0
  Names now credentials user_id =
      (token : jwt.Token) × (bearer_token jwt uuids settings letters credentials ≡ some token)
      × (decode_token jwt uuids settings now token access ≡ some user_id)

  pub named :
      (now : ℕ) (credentials : Option (Credentials jwt.Token)) (db : Db) (u : User)
      → Distinct user_key db.users
      → Elem u db.users
      → Names now credentials u.id
      → get_current_user jwt uuids settings letters now credentials db ≡ (ok u, db)
  unfolding get_current_user
  named now credentials db u d m (token, b, t) =
      rw (b, get_current_user, t, found_by_id db.users u d m) refl

  unnamed :
      (now : ℕ) (credentials : Option (Credentials jwt.Token)) (db : Db) (token : jwt.Token)
      → bearer_token jwt uuids settings letters credentials ≡ some token
      → decode_token jwt uuids settings now token access ≡ none
      → get_current_user jwt uuids settings letters now credentials db
        ≡ (err authentication_exception, db)
  unfolding get_current_user
  unnamed now credentials db token b t = rw (b, get_current_user, t) refl

  header :
      (scheme : Text) (token : jwt.Token)
      → letters.lower scheme ≡ bearer
      → bearer_token jwt uuids settings letters (some (record { scheme = scheme; token = token }))
        ≡ some token
  unfolding bearer_token
  header scheme token h = rw ((text_beq_iff (letters.lower scheme) bearer).1 h, bearer_token) refl

  exchanged :
      (later : ℕ) (token : jwt.Token) (v : User) (db : Db)
      → decode_token jwt uuids settings later token refresh ≡ some v.id
      → Distinct user_key db.users
      → Elem v db.users
      → issue_access_token_from_refresh jwt uuids settings later token db ≡ (
        ok (record {
          access_token = create_access_token jwt uuids settings later v.id;
          access_expires_in = settings.access_token_expire_minutes * 60;
        }),
        db,
      )
  unfolding issue_access_token_from_refresh
  exchanged later token v db t d m =
      rw
        (t, issue_access_token_from_refresh, found_by_id db.users v d m, found_by_id db.users v d m)
        refl

  not_exchanged :
      (later : ℕ) (token : jwt.Token) (db : Db)
      → decode_token jwt uuids settings later token refresh ≡ none
      → issue_access_token_from_refresh jwt uuids settings later token db
        ≡ (err invalid_refresh_token, db)
  unfolding issue_access_token_from_refresh
  not_exchanged later token db t = rw (t, issue_access_token_from_refresh) refl

  -- The access token of a login stands for the user at every later request within its lifetime, as
  -- long as the account is stored, with the role that the account has by then; the refresh token does
  -- not, but is exchanged for such an access token within its own lifetime; an access token is not.
  pub session_exact :
      (now later : ℕ) (u v : User) (db db' : Db) (passwords : Passwords)
      (email password scheme : Text)
      → authenticate_user letters passwords email password db ≡ (ok u, db)
      → Distinct user_key db'.users
      → Elem v db'.users
      → v.id ≡ u.id
      → letters.lower scheme ≡ bearer
      → now ≤ later
      → let pair = token_pair jwt uuids settings now u in
        let request = λ (token : jwt.Token).
          get_current_user jwt uuids settings letters later
            (some (record { scheme = scheme; token = token }))
            db' in
        let exchange = λ (token : jwt.Token).
          issue_access_token_from_refresh jwt uuids settings later token db' in
        (login_user jwt uuids settings letters passwords now email password db ≡ (ok pair, db))
        × (later < now + settings.access_token_expire_minutes * 60
            → (request pair.access_token ≡ (ok v, db'))
              × (exchange pair.access_token ≡ (err invalid_refresh_token, db')))
        × (later < now + settings.refresh_token_expire_days * 86400
            → (request pair.refresh_token ≡ (err authentication_exception, db'))
              × (exchange pair.refresh_token ≡ (
                ok (record {
                  access_token = create_access_token jwt uuids settings later v.id;
                  access_expires_in = settings.access_token_expire_minutes * 60;
                }),
                db',
              )))
  unfolding login_user create_access_token create_refresh_token token_pair
  session_exact now later u v db db' passwords email password scheme auth d m same lower h =
      let decoded = decode_token-create_token jwt uuids settings now later u.id in
      (
        bind_ok (authenticate_user letters passwords email password)
            (λ user. pure (token_pair jwt uuids settings now user)) auth,
        λ k. (
          named later _ db' v d m
              (_, header scheme _ lower, decoded _ access access h k ∙ ap some (sym same)),
          not_exchanged later _ db' (decoded _ access refresh h k),
        ),
        λ k. (
          unnamed later _ db' _ (header scheme _ lower) (decoded _ refresh access h k),
          exchanged later _ v db' (decoded _ refresh refresh h k ∙ ap some (sym same)) d m,
        ),
      )
