-- ===== src/Api/Webhooks.antt =====
-- app/api/v1/webhooks.py, after the dependencies and the validation of the bodies.
use ticketflow.Base.{ℕ, Bool, ◌&&◌, Option, none, some, List, map, leb, if◌then◌else◌}
use ticketflow.Base.Text.{Text}
use ticketflow.Base.Int.{ℤ, pos, negsuc}
use ticketflow.Exec.{Exec, pure, gets, ◌>>=◌}
use ticketflow.Models.{
  User, WebhookRegistration, WebhookDeliveryLog, WebhookEventType, WebhookEventEnvelope,
}
use ticketflow.Webhooks.{
  create_webhook_registration, list_webhook_registrations, list_webhook_deliveries,
  deactivate_webhook_registration,
}
use ticketflow.Schemas.Requests.{WebhookCreateRequest}
use ticketflow.Api.App.{App, in_db}

-- The registration without its secret.
pub record WebhookRegistrationResponse : Type 0 where
  pub id : ℕ
  pub url : Text
  pub event_type : WebhookEventType
  pub is_active : Bool
  pub created_by : ℕ
  pub created_at : ℕ

-- A subclass with one more field.
pub record WebhookCreateResponse : Type 0 where
  pub registration : WebhookRegistrationResponse
  pub secret : Text

pub record WebhookDeliveryResponse : Type 0 where
  pub id : ℕ
  pub webhook_registration_id : ℕ
  pub event_type : WebhookEventType
  pub payload : WebhookEventEnvelope
  pub success : Bool
  pub response_code : Option ℕ
  pub error_message : Option Text
  pub attempted_at : ℕ

-- The three `model_validate`, which read the attributes of the same names.
unfoldable pub registration_response : WebhookRegistration → WebhookRegistrationResponse
registration_response r = record {
  id = r.id;
  url = r.url;
  event_type = r.event_type;
  is_active = r.is_active;
  created_by = r.created_by;
  created_at = r.created_at;
}

unfoldable pub create_response : WebhookRegistration → WebhookCreateResponse
unfolding registration_response
create_response r = record { registration = registration_response r; secret = r.secret }

unfoldable pub delivery_response : WebhookDeliveryLog → WebhookDeliveryResponse
delivery_response log = record {
  id = log.id;
  webhook_registration_id = log.webhook_registration_id;
  event_type = log.event_type;
  payload = log.payload;
  success = log.success;
  response_code = log.response_code;
  error_message = log.error_message;
  attempted_at = log.attempted_at;
}

-- `Annotated[int, Query(ge=1, le=200)] = 100`; a number out of bounds is refused.
unfoldable pub delivery_limit : Option ℤ → Option ℕ
delivery_limit none = some 100
delivery_limit (some (pos n)) = if leb 1 n && leb n 200 then some n else none
delivery_limit (some (negsuc n)) = none

module _ {Counters Cache : Type 0} where
  unfoldable pub create :
      (new_id now : ℕ) (secret : Text)
      → WebhookCreateRequest
      → User
      → Exec (App Counters Cache) WebhookCreateResponse
  unfolding create_response
  create new_id now secret payload agent = do
    registration ←
        in_db
          (create_webhook_registration new_id now secret agent payload.url.text payload.event_type)
    pure (create_response registration)

  unfoldable pub get_list : Exec (App Counters Cache) (List WebhookRegistrationResponse)
  get_list = gets (λ app. map registration_response (list_webhook_registrations app.db))

  unfoldable pub get_deliveries : ℕ → Exec (App Counters Cache) (List WebhookDeliveryResponse)
  get_deliveries limit = gets (λ app. map delivery_response (list_webhook_deliveries limit app.db))

  unfoldable pub delete : ℕ → Exec (App Counters Cache) Unit
  delete webhook_id = in_db (deactivate_webhook_registration webhook_id)
