-- ===== src/Auth/Deps.antt =====
-- app/core/deps.py: who makes a request, and which role it needs.
use ticketflow.Base.{ℕ, not, Option, none, some, [], ◌∷◌, ◌==◌, if◌then◌else◌}
use ticketflow.Base.Text.{Text, text_eq}
use ticketflow.Exec.{
  Exec, Error, pure, raise_if, gets, or_raise, api_exception, www_authenticate_bearer, ◌>>=◌, ◌>>◌,
}
use ticketflow.Models.{User, Db, customer, agent, role_eq}
use ticketflow.Auth.Libraries.{Jwt, Uuids, Letters, Settings}
use ticketflow.Auth.Security.{decode_token, access}
use ticketflow.Auth.Service.{get_user_by_id}

abbrev pub authentication_exception : Error
authentication_exception =
    api_exception 401 "AUTHENTICATION_REQUIRED" "Could not validate credentials"
      (www_authenticate_bearer ∷ [])

abbrev pub agent_required : Error
agent_required = api_exception 403 "FORBIDDEN" "Agent access required" []

abbrev pub customer_required : Error
customer_required = api_exception 403 "FORBIDDEN" "Customer access required" []

abbrev pub bearer : Text
bearer = 98 ∷ 101 ∷ 97 ∷ 114 ∷ 101 ∷ 114 ∷ []

-- What FastAPI reads of the Authorization header.
pub record Credentials (Token : Type 0) : Type 0 where
  pub scheme : Text
  pub token : Token

module _ (jwt : Jwt) (uuids : Uuids) (settings : Settings) (letters : Letters) where
  unfoldable pub bearer_token : Option (Credentials jwt.Token) → Option jwt.Token
  bearer_token none = none
  bearer_token (some c) = if letters.lower c.scheme == bearer then some c.token else none

  unfoldable pub get_current_user : (now : ℕ) → Option (Credentials jwt.Token) → Exec Db User
  unfolding bearer_token
  get_current_user now credentials = do
    token ← or_raise (bearer_token credentials) authentication_exception
    user_id ← or_raise (decode_token jwt uuids settings now token access) authentication_exception
    found ← gets (λ db. get_user_by_id user_id db.users)
    or_raise found authentication_exception

  unfoldable pub require_agent : (now : ℕ) → Option (Credentials jwt.Token) → Exec Db User
  require_agent now credentials = do
    current_user ← get_current_user now credentials
    raise_if (not (current_user.role == agent)) agent_required
    pure current_user

  unfoldable pub require_customer : (now : ℕ) → Option (Credentials jwt.Token) → Exec Db User
  require_customer now credentials = do
    current_user ← get_current_user now credentials
    raise_if (not (current_user.role == customer)) customer_required
    pure current_user
