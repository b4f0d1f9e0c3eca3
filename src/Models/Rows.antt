-- ===== src/Models/Rows.antt =====
-- The rows of the tables, and the database: app/models/*.py, alembic/versions.
use ticketflow.Base.{ℕ, Bool, Option, List, String}
use ticketflow.Base.Text.{Text}
use ticketflow.Models.Enums.{
  UserRole, TicketCategory, TicketPriority, TicketStatus, WebhookEventType,
}

pub record User : Type 0 where
  pub id : ℕ
  pub email : Text
  pub password_hash : Text
  pub role : UserRole
  pub created_at : ℕ

pub record Ticket : Type 0 where
  pub id : ℕ
  pub customer_id : ℕ
  pub title : Text
  pub description : Text
  pub category : TicketCategory
  pub priority : TicketPriority
  pub status : TicketStatus
  pub created_at : ℕ
  pub updated_at : ℕ

pub record Comment : Type 0 where
  pub id : ℕ
  pub ticket_id : ℕ
  pub author_id : ℕ
  pub author_role : UserRole
  pub body : Text
  pub created_at : ℕ

pub record WebhookRegistration : Type 0 where
  pub id : ℕ
  pub url : Text
  pub secret : Text
  pub event_type : WebhookEventType
  pub created_by : ℕ
  pub is_active : Bool
  pub created_at : ℕ

-- The values that an event's `data` holds, before they are written as JSON: `str(uuid)`, a text,
-- the value of an enumeration and `isoformat()` of an instant.
pub data Value : Type 0 where
  uuid : ℕ → Value
  text : Text → Value
  word : String → Value
  instant : ℕ → Value

abbrev pub JsonObject : Type 0
JsonObject = List (String × Value)

pub record WebhookEventEnvelope : Type 0 where
  pub id : ℕ
  pub event : WebhookEventType
  pub timestamp : ℕ
  pub fields : JsonObject

pub record WebhookDeliveryLog : Type 0 where
  pub id : ℕ
  pub webhook_registration_id : ℕ
  pub event_type : WebhookEventType
  pub payload : WebhookEventEnvelope
  pub success : Bool
  pub response_code : Option ℕ
  pub error_message : Option Text
  pub attempted_at : ℕ

-- The committed rows of the five tables, in no order that a statement may rely on.
pub record Db : Type 0 where
  pub users : List User
  pub tickets : List Ticket
  pub comments : List Comment
  pub webhook_registrations : List WebhookRegistration
  pub webhook_delivery_logs : List WebhookDeliveryLog
