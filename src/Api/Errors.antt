-- ===== src/Api/Errors.antt =====
-- app/api/errors.py: the response to each exception, and what a request for a ticket that its user may
-- not see is answered.
use Prim.Native.String.{String}
use ticketflow.Base.{ℕ, ◌≡◌, refl, Option, none, some, List, [], ◌∷◌, All}
use ticketflow.Base.Text.{Text}
use ticketflow.Exec.{
  Exec, Result, Error, Header, ok, err, www_authenticate_bearer, ticket_not_found, ticket_state,
  duplicate_email, authentication, invalid_refresh_token, webhook_not_found, unknown_hash,
  api_exception, bind_err, pure, ◌>>=◌, ◌>>◌,
}
use ticketflow.Models.{User, Db}
use ticketflow.Tickets.Access.{MaySee, get_accessible_ticket_hides}
use ticketflow.Tickets.Query.{get_accessible_ticket}
use ticketflow.Tickets.Mutation.{
  FieldUpdate, update_open_ticket, update_loaded_ticket, delete_open_ticket, delete_loaded_ticket,
}
use ticketflow.Comments.{list_comments, create_comment}
use ticketflow.Comments.Thread.{comments_hidden}
use ticketflow.RateLimit.Commands
use ticketflow.Cache.Libraries.{Redis}
use ticketflow.Webhooks.{Codec}
use ticketflow.Api.App.{App, Traffic, in_db}
use ticketflow.Api.Tickets.{Environment, update, delete, invalidate}
use ticketflow.Api.Comments
use ticketflow.Api.Comments.{announce_comment}
use ticketflow.Api.Announcements.{in_db-err}

-- `ErrorResponse` without details, its status and its headers.
pub record Response : Type 0 where
  pub status_code : ℕ
  pub code : String
  pub message : String
  pub headers : List Header

-- `_authentication_response`
unfoldable pub authentication_response : (code message : String) → Response
authentication_response code message = record {
  status_code = 401;
  code = code;
  message = message;
  headers = www_authenticate_bearer ∷ [];
}

-- The handlers that `register_exception_handlers` registers for the program's own exceptions; the one of
-- InvalidRefreshTokenError is the more specific one.
unfoldable pub respond : Error → Response
unfolding authentication_response
respond ticket_not_found = record {
  status_code = 404;
  code = "TICKET_NOT_FOUND";
  message = "Ticket not found";
  headers = [];
}
respond (ticket_state message code) = record {
  status_code = 409;
  code = code;
  message = message;
  headers = [];
}
respond duplicate_email = record {
  status_code = 409;
  code = "EMAIL_ALREADY_REGISTERED";
  message = "Email is already registered";
  headers = [];
}
respond authentication = authentication_response "INVALID_CREDENTIALS" "Invalid email or password"
respond invalid_refresh_token =
    authentication_response "INVALID_REFRESH_TOKEN" "Invalid refresh token"
respond webhook_not_found = record {
  status_code = 404;
  code = "WEBHOOK_NOT_FOUND";
  message = "Webhook registration not found";
  headers = [];
}
-- No handler of its own: `unexpected_exception_handler`.
respond unknown_hash = record {
  status_code = 500;
  code = "INTERNAL_SERVER_ERROR";
  message = "An unexpected error occurred";
  headers = [];
}
respond (api_exception status_code code message headers) = record {
  status_code = status_code;
  code = code;
  message = message;
  headers = headers;
}

-- What the client sees of a failed request.
abbrev pub response_of : {A : Type 0} → Result A → Option Response
response_of (ok a) = none
response_of (err e) = some (respond e)

abbrev pub not_found : Response
not_found = record {
  status_code = 404;
  code = "TICKET_NOT_FOUND";
  message = "Ticket not found";
  headers = [];
}

module _ (limiter : Commands.Redis) (redis : Redis) (codec : Codec) (uuid_str : ℕ → String)
    (env : Environment) where
  -- The request fails with the response for a missing ticket, and nothing has changed.
  abbrev pub LooksMissing :
      {A : Type 0} → Exec (App limiter.State redis.State) A → App limiter.State redis.State → Type 0
  LooksMissing m app = (response_of (m app).0 ≡ some not_found) × ((m app).1 ≡ app)

  missing :
      {A B : Type 0} (service : Exec Db A) (next : A → Exec (App limiter.State redis.State) B)
      (app : App limiter.State redis.State)
      → service app.db ≡ (err ticket_not_found, app.db)
      → LooksMissing (in_db service >>= next) app
  unfolding respond
  missing service next app e =
      rw (bind_err (in_db service) next (in_db-err service app e)) (refl, refl)

  -- Where every ticket with the identifier is hidden from the user, whether it is another customer's or
  -- there is none: reading, updating and deleting the ticket, reading its comments and posting one all
  -- fail with the same response 404, TICKET_NOT_FOUND, and leave everything as it was.
  pub hidden_ticket_response :
      (ticket_id new_id now : ℕ) (user : User) (updates : List FieldUpdate) (body : Text)
      (to_ticket to_dashboard : Traffic) (app : App limiter.State redis.State)
      → All (λ t. t.id ≡ ticket_id → ¬ MaySee user t) app.db.tickets
      → LooksMissing (in_db (get_accessible_ticket ticket_id user)) app
        × LooksMissing (update limiter redis codec uuid_str env user ticket_id updates) app
        × LooksMissing (delete limiter redis codec uuid_str env user ticket_id) app
        × LooksMissing (in_db (list_comments ticket_id user)) app
        × LooksMissing
            (Comments.create uuid_str to_ticket to_dashboard new_id now ticket_id user body)
            app
  unfolding update delete Comments.create update_open_ticket delete_open_ticket respond
  hidden_ticket_response ticket_id new_id now user updates body to_ticket to_dashboard app h =
      let e = (get_accessible_ticket_hides ticket_id user app.db).1 h in
      let (posting, reading) = comments_hidden ticket_id new_id now user body app.db h in
      (
        rw e (refl, refl),
        missing (update_open_ticket env.now ticket_id user updates)
            (λ t. invalidate limiter redis codec uuid_str env.executing >> pure t) app
            (bind_err (get_accessible_ticket ticket_id user) (update_loaded_ticket env.now updates)
              e),
        missing (delete_open_ticket ticket_id user)
            (λ _. invalidate limiter redis codec uuid_str env.executing) app
            (bind_err (get_accessible_ticket ticket_id user) delete_loaded_ticket e),
        rw reading (refl, refl),
        missing (create_comment new_id now ticket_id user body)
            (announce_comment uuid_str to_ticket to_dashboard ticket_id) app posting,
      )
