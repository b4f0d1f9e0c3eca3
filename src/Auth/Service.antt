-- ===== src/Auth/Service.antt =====
-- app/services/auth_service.py: registration, login and the exchange of a refresh token.
use ticketflow.Base.{
  ℕ, ◌*◌, Bool, not, Option, none, some, List, ◌∷◌, ◌++◌, any, find, ◌==◌, nat_eq,
}
use ticketflow.Base.Text.{Text, text_eq, strip}
use ticketflow.Exec.{
  Exec, pure, raise, raise_if, gets, modify, or_raise, duplicate_email, authentication,
  invalid_refresh_token, unknown_hash, ◌>>=◌, ◌>>◌,
}
use ticketflow.Models.{User, Db, customer}
use ticketflow.Auth.Libraries.{Jwt, Passwords, Uuids, Letters, Settings}
use ticketflow.Auth.Security.{
  create_access_token, create_refresh_token, decode_token, verify_password, refresh,
}

unfoldable pub normalize_email : Letters → Text → Text
normalize_email letters email = letters.lower (strip email)

unfoldable pub get_user_by_email : Letters → Text → List User → Option User
unfolding normalize_email
get_user_by_email letters email users = find (λ u. u.email == normalize_email letters email) users

unfoldable pub get_user_by_id : ℕ → List User → Option User
get_user_by_id user_id users = find (λ u. u.id == user_id) users

abbrev pub has_email : Text → List User → Bool
has_email email = any (λ u. u.email == email)

-- INSERT under the unique constraint on `email`: the commit raises IntegrityError, which becomes
-- DuplicateEmailError after the rollback.
unfoldable pub insert_user : User → Exec Db User
insert_user user = do
  taken ← gets (λ db. has_email user.email db.users)
  raise_if taken duplicate_email
  modify (λ db. record db { users = user ∷ db.users })
  pure user

module _ (letters : Letters) (passwords : Passwords) where
  -- `meanwhile` are the accounts that other requests commit between the lookup and the commit.
  unfoldable pub register_customer :
      (new_id now salt : ℕ) (meanwhile : List User) → (email password : Text) → Exec Db User
  unfolding get_user_by_email insert_user
  register_customer new_id now salt meanwhile email password = do
    let normalized_email = normalize_email letters email
    known ← gets (λ db. get_user_by_email letters normalized_email db.users)
    elim known [ none ↦ pure tt | some u ↦ raise duplicate_email ]
    modify (λ db. record db { users = meanwhile ++ db.users })
    let user : User = record {
      id = new_id;
      email = normalized_email;
      password_hash = passwords.hash salt password;
      role = customer;
      created_at = now;
    }
    insert_user user

  unfoldable pub authenticate_user : (email password : Text) → Exec Db User
  unfolding get_user_by_email
  authenticate_user email password = do
    found ← gets (λ db. get_user_by_email letters email db.users)
    user ← or_raise found authentication
    password_is_valid ←
        or_raise (verify_password passwords password user.password_hash) unknown_hash
    raise_if (not password_is_valid) authentication
    pure user

module _ (jwt : Jwt) where
  pub record TokenPair : Type 0 where
    pub access_token : jwt.Token
    pub refresh_token : jwt.Token
    pub access_expires_in : ℕ

  pub record FreshAccessToken : Type 0 where
    pub access_token : jwt.Token
    pub access_expires_in : ℕ

module _ (jwt : Jwt) (uuids : Uuids) (settings : Settings) where
  -- The tokens that `login_user` returns for an authenticated user.
  unfoldable pub token_pair : (now : ℕ) → User → TokenPair jwt
  token_pair now user = record {
    access_token = create_access_token jwt uuids settings now user.id;
    refresh_token = create_refresh_token jwt uuids settings now user.id;
    access_expires_in = settings.access_token_expire_minutes * 60;
  }

  unfoldable pub login_user :
      Letters → Passwords → (now : ℕ) → (email password : Text) → Exec Db (TokenPair jwt)
  login_user letters passwords now email password = do
    user ← authenticate_user letters passwords email password
    pure (token_pair now user)

  unfoldable pub issue_access_token_from_refresh :
      (now : ℕ) → jwt.Token → Exec Db (FreshAccessToken jwt)
  unfolding get_user_by_id
  issue_access_token_from_refresh now refresh_token = do
    user_id ←
        or_raise (decode_token jwt uuids settings now refresh_token refresh) invalid_refresh_token
    found ← gets (λ db. get_user_by_id user_id db.users)
    user ← or_raise found invalid_refresh_token
    pure (record {
      access_token = create_access_token jwt uuids settings now user.id;
      access_expires_in = settings.access_token_expire_minutes * 60;
    })
