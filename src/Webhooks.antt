-- ===== src/Webhooks.antt =====
-- app/services/webhook_service.py: registrations, the scheduling of an event, signed delivery to
-- every captured target, and the log of attempts.
pub mod Delivery
pub mod Outcome
pub mod Attempts
pub mod Scheduling
pub mod ErrorText
mod Tests
use Prim.Native.String.{◌++◌}
use ticketflow.Base.{
  ℕ, zero, suc, ◌+◌, Bool, true, false, not, ◌&&◌, ◌||◌, Option, none, some, List, [], ◌∷◌, map,
  filter, find, take, order_by, overwrite, ltb, leb, ◌==◌, nat_eq, if◌then◌else◌, String,
}
use ticketflow.Base.Text.{Text}
use ticketflow.Exec.{
  Exec, Result, ok, err, pure, modify, gets, or_raise, webhook_not_found, ◌>>=◌, ◌>>◌,
}
use ticketflow.Models.{
  User, Db, WebhookRegistration, WebhookEventType, WebhookEventEnvelope, WebhookDeliveryLog,
  JsonObject, event_eq, event_value,
}

pub record WebhookDeliveryTarget : Type 0 where
  pub registration_id : ℕ
  pub url : Text
  pub secret : Text
  pub event_type : WebhookEventType

-- `secrets.token_hex(32)` is the argument `secret`.
unfoldable pub create_webhook_registration :
    (new_id now : ℕ) (secret : Text) → User → Text → WebhookEventType → Exec Db WebhookRegistration
create_webhook_registration new_id now secret agent url event_type = do
  let registration : WebhookRegistration = record {
    id = new_id;
    url = url;
    secret = secret;
    event_type = event_type;
    created_by = agent.id;
    is_active = true;
    created_at = now;
  }
  modify (λ db. record db { webhook_registrations = registration ∷ db.webhook_registrations })
  pure registration

unfoldable pub latest_registration : WebhookRegistration → WebhookRegistration → Bool
latest_registration a b =
    ltb b.created_at a.created_at || (b.created_at == a.created_at && not (ltb a.id b.id))

unfoldable pub list_webhook_registrations : Db → List WebhookRegistration
list_webhook_registrations db = order_by latest_registration db.webhook_registrations

abbrev pub registration_key : WebhookRegistration → ℕ
registration_key r = r.id

unfoldable pub deactivate_webhook_registration : ℕ → Exec Db Unit
deactivate_webhook_registration webhook_id = do
  found ← gets (λ db. find (λ r. r.id == webhook_id && r.is_active) db.webhook_registrations)
  registration ← or_raise found webhook_not_found
  let inactive : WebhookRegistration = record registration { is_active = false }
  modify (λ db. record db {
    webhook_registrations = overwrite registration_key inactive db.webhook_registrations;
  })

unfoldable pub latest_attempt : WebhookDeliveryLog → WebhookDeliveryLog → Bool
latest_attempt a b =
    ltb b.attempted_at a.attempted_at || (b.attempted_at == a.attempted_at && not (ltb a.id b.id))

unfoldable pub list_webhook_deliveries : (limit : ℕ) → Db → List WebhookDeliveryLog
list_webhook_deliveries limit db = take limit (order_by latest_attempt db.webhook_delivery_logs)

unfoldable pub target_of : WebhookRegistration → WebhookDeliveryTarget
target_of r = record {
  registration_id = r.id;
  url = r.url;
  secret = r.secret;
  event_type = r.event_type;
}

-- `json.dumps(…).encode()` and the HMAC-SHA256 digest are the standard library's.
pub record Codec : Type 0 where
  pub serialize : WebhookEventEnvelope → Text
  pub hmac_sha256_hex : (secret body : Text) → Text

-- The call that is handed to the background tasks.
pub record Dispatch : Type 0 where
  pub targets : List WebhookDeliveryTarget
  pub envelope : WebhookEventEnvelope
  pub body : Text

unfoldable pub active_registrations : WebhookEventType → Db → List WebhookRegistration
active_registrations event_type db =
    filter (λ r. r.event_type == event_type && r.is_active) db.webhook_registrations

module _ (codec : Codec) where
  -- The new background tasks: none where nobody is subscribed.
  unfoldable pub schedule_webhook_event :
      (event_id now : ℕ) → WebhookEventType → JsonObject → Db → List Dispatch
  schedule_webhook_event event_id now event_type fields db =
      let envelope : WebhookEventEnvelope = record {
        id = event_id;
        event = event_type;
        timestamp = now;
        fields = fields;
      } in
      elim (active_registrations event_type db) [
        | [] ↦ []
        | r ∷ rs ↦
            record {
              targets = map target_of (r ∷ rs);
              envelope = envelope;
              body = codec.serialize envelope;
            }
            ∷ []
      ]

  -- `f"sha256={digest}"`
  unfoldable pub sign_webhook_payload : (secret body : Text) → Text
  sign_webhook_payload secret body =
      115 ∷ 104 ∷ 97 ∷ 50 ∷ 53 ∷ 54 ∷ 61 ∷ codec.hmac_sha256_hex secret body
