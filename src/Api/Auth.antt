-- ===== src/Api/Auth.antt =====
-- app/api/v1/auth.py, after the validation of the bodies.
use ticketflow.Base.{ℕ, String, not, Option, none, some, List}
use ticketflow.Base.Text.{Text}
use ticketflow.Exec.{Exec, pure, raise_if, ◌>>=◌, ◌>>◌}
use ticketflow.Models.{User, UserRole}
use ticketflow.Auth.Libraries.{Jwt, Uuids, Letters, Passwords, Settings}
use ticketflow.Auth.Service.{
  register_customer, login_user, issue_access_token_from_refresh, TokenPair, FreshAccessToken,
}
use ticketflow.Auth.Deps.{Credentials, get_current_user}
use ticketflow.RateLimit.{Link, login_rate_limit, login_rate_limit_key}
use ticketflow.RateLimit.Commands
use ticketflow.Schemas.Requests.{EmailPasswordRequest, RefreshTokenRequest}
use ticketflow.Api.App.{App, in_db, consume}
use ticketflow.Api.Tickets.{rate_limit_exception, or_one}

-- The account without its password hash.
pub record CurrentUserResponse : Type 0 where
  pub id : ℕ
  pub email : Text
  pub role : UserRole
  pub created_at : ℕ

-- `CurrentUserResponse.model_validate(user)`
unfoldable pub current_user_response : User → CurrentUserResponse
current_user_response user = record {
  id = user.id;
  email = user.email;
  role = user.role;
  created_at = user.created_at;
}

-- `request.client.host if request.client is not None else "unknown"`
unfoldable pub client_ip : Option String → String
client_ip none = "unknown"
client_ip (some host) = host

module _ {Counters Cache : Type 0} where
  unfoldable pub register :
      Letters
      → Passwords
      → (new_id now salt : ℕ) (meanwhile : List User) → EmailPasswordRequest
      → Exec (App Counters Cache) CurrentUserResponse
  unfolding current_user_response
  register letters passwords new_id now salt meanwhile payload = do
    user ← in_db (
        register_customer letters passwords new_id now salt meanwhile payload.email
          payload.password)
    pure (current_user_response user)

  unfoldable pub get_me :
      (jwt : Jwt)
      → Uuids
      → Settings
      → Letters
      → (now : ℕ) → Option (Credentials jwt.Token)
      → Exec (App Counters Cache) CurrentUserResponse
  unfolding current_user_response
  get_me jwt uuids settings letters now credentials = do
    user ← in_db (get_current_user jwt uuids settings letters now credentials)
    pure (current_user_response user)

  -- The text of a refresh token is what `jwt.decode` is given.
  unfoldable pub refresh :
      (jwt : Jwt)
      → (Text → jwt.Token)
      → Uuids
      → Settings
      → (now : ℕ) → RefreshTokenRequest
      → Exec (App Counters Cache) (FreshAccessToken jwt)
  refresh jwt read uuids settings now payload =
      in_db (issue_access_token_from_refresh jwt uuids settings now (read payload.refresh_token))

module _ (limiter : Commands.Redis) {Cache : Type 0} (jwt : Jwt) (uuids : Uuids)
    (settings : Settings) (letters : Letters) (passwords : Passwords) where
  unfoldable pub login :
      Link
      → (now : ℕ) → (client : Option String) → EmailPasswordRequest
      → Exec (App limiter.State Cache) (TokenPair jwt)
  unfolding client_ip
  login link now client payload = do
    rate_limit ← consume limiter link (login_rate_limit_key (client_ip client)) login_rate_limit
    raise_if (not rate_limit.allowed) (rate_limit_exception (or_one rate_limit.retry_after_seconds))
    in_db (login_user jwt uuids settings letters passwords now payload.email payload.password)
