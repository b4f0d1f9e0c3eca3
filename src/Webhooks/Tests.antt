-- ===== src/Webhooks/Tests.antt =====
-- The webhook properties at two registrations of one event type, one of them inactive, and a third.
use ticketflow.Base.{ℕ, zero, suc, ◌+◌, ◌≡◌, ◌↔◌, Bool, true, false, [], ◌∷◌, ◌++◌, All, Elem}
use ticketflow.Base.Text.{Text}
use ticketflow.Models.{
  Db, WebhookRegistration, WebhookEventType, WebhookEventEnvelope, WebhookDeliveryLog,
  ticket_created, ticket_status_changed,
}
use ticketflow.Models.Samples.{desk}
use ticketflow.Webhooks.{WebhookDeliveryTarget, Codec, Dispatch, target_of}
use ticketflow.Webhooks.Delivery.{
  Attempt, Posted, response, other_exception, dispatch_webhook_event,
}
use ticketflow.Webhooks.Outcome.{Accounts, dispatch-Accounts}
use ticketflow.Webhooks.Attempts.{IsRecordable, Reports, deliver_to_target_exact}
use ticketflow.Webhooks.Delivery.{deliver_to_target}
use ticketflow.Webhooks.Scheduling.{
  Subscribed, all_targets, scheduled, schedule_webhook_event_exact,
}

abbrev hook_of : ℕ → WebhookEventType → Bool → WebhookRegistration
hook_of id event is_active = record {
  id = id;
  url = 117 ∷ [];
  secret = id ∷ [];
  event_type = event;
  created_by = 3;
  is_active = is_active;
  created_at = 50;
}

abbrev live : WebhookRegistration
live = hook_of 30 ticket_created true

abbrev hooks : Db
hooks = record desk {
  webhook_registrations =
      live ∷ hook_of 31 ticket_created false ∷ hook_of 32 ticket_status_changed true ∷ [];
}

abbrev plain : Codec
plain = record { serialize = λ e. e.id ∷ []; hmac_sha256_hex = λ secret body. secret ++ body }

abbrev digits : ℕ → Text
digits n = n ∷ []

abbrev envelope : WebhookEventEnvelope
envelope = record { id = 40; event = ticket_created; timestamp = 60; fields = [] }

abbrev two_targets : Dispatch
two_targets = record {
  targets = target_of live ∷ target_of (hook_of 33 ticket_created true) ∷ [];
  envelope = envelope;
  body = 40 ∷ [];
}

-- The first receiver answers 204 and the second breaks the client.
abbrev receivers : ℕ → Attempt
receivers i = record { delivery_id = 70 + i; attempted_at = 80; post = λ request. answer i }
  where
    answer : ℕ → Posted
    answer zero = response 204
    answer (suc n) = other_exception

dispatch-Accounts_example :
    Accounts plain digits receivers envelope
      (40 ∷ [])
      0
      two_targets.targets
      hooks
      (dispatch_webhook_event plain digits receivers two_targets hooks)
dispatch-Accounts_example = dispatch-Accounts plain digits receivers two_targets hooks

schedule_webhook_event_exact_example :
    ((target : WebhookDeliveryTarget)
      → Elem target (all_targets (scheduled plain 40 60 ticket_created [] hooks)) ↔ (
          (r : WebhookRegistration) × (Elem r hooks.webhook_registrations
            × Subscribed ticket_created r)
          × (target ≡ record {
            registration_id = r.id;
            url = r.url;
            secret = r.secret;
            event_type = r.event_type;
          })))
    × All
        (λ d.
          (d.body ≡ plain.serialize d.envelope)
          × (d.envelope.event ≡ ticket_created)
          × (d.envelope.fields ≡ []))
        (scheduled plain 40 60 ticket_created [] hooks)
schedule_webhook_event_exact_example =
    schedule_webhook_event_exact plain 40 60 ticket_created [] hooks

abbrev attempt : Attempt
attempt = record { delivery_id = 70; attempted_at = 80; post = λ request. response 404 }

deliver_to_target_exact_example :
    let left = deliver_to_target plain digits attempt (target_of live) envelope (40 ∷ []) hooks in
    (IsRecordable (response 404)
      → (row : WebhookDeliveryLog) × Reports attempt (target_of live) envelope (response 404) row
        × (left ≡ (true, record hooks { webhook_delivery_logs = row ∷ [] })))
    × (¬ IsRecordable (response 404) → left ≡ (false, hooks))
deliver_to_target_exact_example =
    deliver_to_target_exact plain digits attempt (target_of live) envelope (40 ∷ []) hooks
