-- ===== src/Api/Tickets.antt =====
-- app/api/v1/tickets.py: `create`, `update`, `delete` and `update_status`, after the dependencies and
-- the validation of the body.
use ticketflow.Base.{ℕ, zero, suc, String, not, Option, none, some, List, [], ◌∷◌, ◌++◌}
use ticketflow.Base.Text.{Text}
use ticketflow.Exec.{Exec, Error, pure, modify, raise_if, api_exception, retry_after, ◌>>=◌, ◌>>◌}
use ticketflow.Models.{
  User, Ticket, TicketStatus, TicketCategory, TicketPriority, JsonObject, uuid, text, word, instant,
  ticket_created, ticket_status_changed, status_value, category_value, priority_value,
}
use ticketflow.Tickets.Mutation.{
  TicketStatusChange, FieldUpdate, create_ticket, update_open_ticket, delete_open_ticket,
  change_ticket_status,
}
use ticketflow.RateLimit.{ticket_create_rate_limit, ticket_create_rate_limit_key, Link}
use ticketflow.RateLimit.Commands
use ticketflow.Cache.Libraries.{Redis, Fault}
use ticketflow.Cache.Service.{invalidate_ticket_caches}
use ticketflow.Websockets.{dashboard_channel, ticket_channel}
use ticketflow.Webhooks.{Codec, schedule_webhook_event}
use ticketflow.Api.App.{App, Event, Traffic, in_db, broadcast_event, consume}

-- `rate_limit_exception`
abbrev pub rate_limit_exception : ℕ → Error
rate_limit_exception seconds =
    api_exception 429 "RATE_LIMIT_EXCEEDED" "Too many requests. Please try again later."
      (retry_after seconds ∷ [])

-- `rate_limit.retry_after_seconds or 1`
abbrev pub or_one : Option ℕ → ℕ
or_one none = 1
or_one (some zero) = 1
or_one (some (suc n)) = suc n

-- The data of the two events.
unfoldable pub created_fields : Ticket → JsonObject
created_fields t =
    ("ticket_id", uuid t.id)
    ∷ ("customer_id", uuid t.customer_id)
    ∷ ("title", text t.title)
    ∷ ("category", word (category_value t.category))
    ∷ ("priority", word (priority_value t.priority))
    ∷ ("status", word (status_value t.status))
    ∷ ("created_at", instant t.created_at)
    ∷ []

unfoldable pub change_fields : User → TicketStatusChange → JsonObject
change_fields agent change =
    ("old_status", word (status_value change.old_status))
    ∷ ("new_status", word (status_value change.ticket.status))
    ∷ ("changed_by", uuid agent.id)
    ∷ ("updated_at", instant change.ticket.updated_at)
    ∷ []

-- What the environment chooses during one request.
pub record Environment : Type 0 where
  pub new_id : ℕ
  pub now : ℕ
  pub event_id : ℕ
  pub link : Link
  pub executing : Fault
  pub ticket_traffic : Traffic
  pub dashboard_traffic : Traffic

module _ (limiter : Commands.Redis) (redis : Redis) (codec : Codec) (uuid_str : ℕ → String) where
  abbrev pub Handler : Type 0 → Type 0
  Handler = Exec (App limiter.State redis.State)

  unfoldable pub invalidate : Fault → Handler Unit
  invalidate executing =
      modify (λ app. record app { cache = invalidate_ticket_caches redis executing app.cache })

  -- `change_ticket_status` has committed.
  unfoldable pub announce_change : Environment → User → TicketStatusChange → Handler Ticket
  unfolding invalidate broadcast_event change_fields
  announce_change request agent change = do
    invalidate request.executing
    let ticket : Ticket = change.ticket
    let event : Event = record {
      event = "ticket.status_changed";
      ticket_id = ticket.id;
      fields = change_fields agent change;
    }
    broadcast_event request.ticket_traffic (ticket_channel uuid_str ticket.id) event
    broadcast_event request.dashboard_traffic dashboard_channel event
    modify (λ app. record app {
      tasks =
          app.tasks
          ++ schedule_webhook_event codec request.event_id request.now ticket_status_changed
              (("ticket_id", uuid ticket.id) ∷ change_fields agent change) app.db;
    })
    pure ticket

  unfoldable pub update_status : Environment → User → ℕ → TicketStatus → Handler Ticket
  update_status request agent ticket_id new_status =
      in_db (change_ticket_status request.now ticket_id new_status)
      >>= announce_change request agent

  -- `create_ticket` has committed.
  unfoldable pub announce_ticket : Environment → Ticket → Handler Ticket
  unfolding invalidate created_fields
  announce_ticket request ticket = do
    invalidate request.executing
    modify (λ app. record app {
      tasks =
          app.tasks
          ++ schedule_webhook_event codec request.event_id request.now ticket_created
              (created_fields ticket) app.db;
    })
    pure ticket

  unfoldable pub create :
      Environment
      → User
      → (title description : Text) → TicketCategory
      → TicketPriority
      → Handler Ticket
  unfolding consume announce_ticket
  create request customer title description category priority = do
    rate_limit ←
        consume limiter request.link (ticket_create_rate_limit_key uuid_str customer.id)
          ticket_create_rate_limit
    raise_if (not rate_limit.allowed) (rate_limit_exception (or_one rate_limit.retry_after_seconds))
    ticket ←
        in_db
          (create_ticket request.new_id request.now customer title description category priority)
    announce_ticket request ticket

  unfoldable pub update : Environment → User → ℕ → List FieldUpdate → Handler Ticket
  update request customer ticket_id updates = do
    ticket ← in_db (update_open_ticket request.now ticket_id customer updates)
    invalidate request.executing
    pure ticket

  unfoldable pub delete : Environment → User → ℕ → Handler Unit
  delete request customer ticket_id = do
    in_db (delete_open_ticket ticket_id customer)
    invalidate request.executing
