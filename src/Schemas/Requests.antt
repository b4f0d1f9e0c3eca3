-- ===== src/Schemas/Requests.antt =====
-- The request schemas of app/schemas/ticket.py, app/schemas/comment.py, app/schemas/auth.py and
-- app/schemas/webhook.py: a body is refused, or becomes the request that the handler is given.
use ticketflow.Base.{
  Bool, true, false, not, ◌||◌, Option, none, some, List, [], ◌∷◌, ◌++◌, String, ◌==◌, string_eq,
  if◌then◌else◌, any, filter,
}
use ticketflow.Base.Text.{Text}
use ticketflow.Models.{
  TicketCategory, TicketPriority, TicketStatus, WebhookEventType, category_members,
  priority_members, status_members, event_members,
}
use ticketflow.Tickets.Mutation.{FieldUpdate}
use ticketflow.Schemas.Values.{
  Body, lookup, Pydantic, HttpUrl, strip_text, forbid_extra, required, optional, pure, ◌>>=◌, ◌>>◌,
}

pub record TicketCreateRequest : Type 0 where
  pub title : Text
  pub description : Text
  pub category : TicketCategory
  pub priority : TicketPriority

pub record TicketUpdateRequest : Type 0 where
  pub title : Option Text
  pub description : Option Text
  pub category : Option TicketCategory
  pub priority : Option TicketPriority
  pub model_fields_set : List String

pub record TicketStatusUpdateRequest : Type 0 where
  pub status : TicketStatus

pub record CommentCreateRequest : Type 0 where
  pub body : Text

-- `_EmailPasswordRequest`, which UserRegisterRequest and LoginRequest are without a change; the password is
-- what `get_secret_value` returns.
pub record EmailPasswordRequest : Type 0 where
  pub email : Text
  pub password : Text

pub record RefreshTokenRequest : Type 0 where
  pub refresh_token : Text

pub record WebhookCreateRequest : Type 0 where
  pub url : HttpUrl
  pub event_type : WebhookEventType

abbrev pub ticket_fields : List String
ticket_fields = "title" ∷ "description" ∷ "category" ∷ "priority" ∷ []

abbrev pub is_none : {A : Type 0} → Option A → Bool
is_none none = true
is_none (some a) = false

-- `getattr(self, field_name) is None`
unfoldable pub is_null : TicketUpdateRequest → String → Bool
is_null r name =
    if name == "title"
    then is_none r.title
    else if name == "description"
    then is_none r.description
    else if name == "category"
    then is_none r.category
    else is_none r.priority

unfoldable pub require_non_null_update : TicketUpdateRequest → Option TicketUpdateRequest
unfolding is_null
require_non_null_update r = elim r.model_fields_set [
  | [] ↦ none
  | name ∷ names ↦ if any (is_null r) (name ∷ names) then none else some r
]

-- One entry of `model_dump(exclude_unset=True)`; the value None does not occur in a validated request.
abbrev pub dump_field :
    {A : Type 0} → List String → String → (A → FieldUpdate) → Option A → List FieldUpdate
dump_field fields_set name update none = []
dump_field fields_set name update (some a) =
    if any (λ set. name == set) fields_set then update a ∷ [] else []

unfoldable pub dump_set : TicketUpdateRequest → List FieldUpdate
dump_set r =
    dump_field r.model_fields_set "title" FieldUpdate.title r.title
    ++ dump_field r.model_fields_set "description" FieldUpdate.description r.description
    ++ dump_field r.model_fields_set "category" FieldUpdate.category r.category
    ++ dump_field r.model_fields_set "priority" FieldUpdate.priority r.priority

-- A validator that runs after the field's own checks.
unfoldable pub reject_url_credentials : HttpUrl → Option HttpUrl
reject_url_credentials url =
    if not (is_none url.username) || not (is_none url.password) then none else some url

module _ (pydantic : Pydantic) where
  unfoldable pub ticket_create_request : Body → Option TicketCreateRequest
  unfolding forbid_extra strip_text
  ticket_create_request body = do
    forbid_extra ticket_fields body
    title ← required (λ v. pydantic.str_field 1 200 (strip_text v)) "title" body
    description ← required (λ v. pydantic.str_field 1 10000 (strip_text v)) "description" body
    category ← required (pydantic.enum_field category_members) "category" body
    priority ← required (pydantic.enum_field priority_members) "priority" body
    pure (record {
      title = title;
      description = description;
      category = category;
      priority = priority;
    })

  unfoldable pub ticket_update_request : Body → Option TicketUpdateRequest
  unfolding forbid_extra strip_text require_non_null_update
  ticket_update_request body = do
    forbid_extra ticket_fields body
    title ← optional (λ v. pydantic.str_field 1 200 (strip_text v)) "title" body
    description ← optional (λ v. pydantic.str_field 1 10000 (strip_text v)) "description" body
    category ← optional (pydantic.enum_field category_members) "category" body
    priority ← optional (pydantic.enum_field priority_members) "priority" body
    require_non_null_update (record {
      title = title;
      description = description;
      category = category;
      priority = priority;
      model_fields_set = filter (λ name. not (is_none (lookup name body))) ticket_fields;
    })

  -- `payload.model_dump(exclude_unset=True)`
  unfoldable pub update_fields : Body → Option (List FieldUpdate)
  unfolding dump_set
  update_fields body = ticket_update_request body >>= λ r. some (dump_set r)

  unfoldable pub ticket_status_update_request : Body → Option TicketStatusUpdateRequest
  unfolding forbid_extra
  ticket_status_update_request body = do
    forbid_extra ("status" ∷ []) body
    status ← required (pydantic.enum_field status_members) "status" body
    pure (record { status = status })

  unfoldable pub comment_create_request : Body → Option CommentCreateRequest
  unfolding forbid_extra strip_text
  comment_create_request body = do
    forbid_extra ("body" ∷ []) body
    text ← required (λ v. pydantic.str_field 1 5000 (strip_text v)) "body" body
    pure (record { body = text })

  unfoldable pub email_password_request : Body → Option EmailPasswordRequest
  unfolding forbid_extra strip_text
  email_password_request body = do
    forbid_extra ("email" ∷ "password" ∷ []) body
    email ← required (λ v. pydantic.email_field (strip_text v)) "email" body
    password ← required (pydantic.str_field 8 128) "password" body
    pure (record { email = email; password = password })

  unfoldable pub refresh_token_request : Body → Option RefreshTokenRequest
  unfolding forbid_extra
  refresh_token_request body = do
    forbid_extra ("refresh_token" ∷ []) body
    token ← required (pydantic.str_field 1 4096) "refresh_token" body
    pure (record { refresh_token = token })

  unfoldable pub webhook_create_request : Body → Option WebhookCreateRequest
  unfolding forbid_extra reject_url_credentials
  webhook_create_request body = do
    forbid_extra ("url" ∷ "event_type" ∷ []) body
    url ← required (λ v. pydantic.url_field 2048 v >>= reject_url_credentials) "url" body
    event_type ← required (pydantic.enum_field event_members) "event_type" body
    pure (record { url = url; event_type = event_type })
