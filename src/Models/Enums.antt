-- ===== src/Models/Enums.antt =====
-- The enumerations of app/models: UserRole, TicketCategory, TicketPriority, TicketStatus and
-- WebhookEventType, with Python's `==` on each.
use ticketflow.Base.{◌≡◌, ◌↔◌, Bool, true, false, String, Equality, arith}

pub data UserRole : Type 0 where
  customer agent : UserRole

pub data TicketCategory : Type 0 where
  billing technical general : TicketCategory

pub data TicketPriority : Type 0 where
  low medium high : TicketPriority

pub data TicketStatus : Type 0 where
  opened in_progress resolved closed : TicketStatus

pub data WebhookEventType : Type 0 where
  ticket_created ticket_status_changed : WebhookEventType

abbrev pub role_beq : UserRole → UserRole → Bool
role_beq customer customer = true
role_beq agent agent = true
role_beq _ _ = false

abbrev pub category_beq : TicketCategory → TicketCategory → Bool
category_beq billing billing = true
category_beq technical technical = true
category_beq general general = true
category_beq _ _ = false

abbrev pub priority_beq : TicketPriority → TicketPriority → Bool
priority_beq low low = true
priority_beq medium medium = true
priority_beq high high = true
priority_beq _ _ = false

abbrev pub status_beq : TicketStatus → TicketStatus → Bool
status_beq opened opened = true
status_beq in_progress in_progress = true
status_beq resolved resolved = true
status_beq closed closed = true
status_beq _ _ = false

abbrev pub event_beq : WebhookEventType → WebhookEventType → Bool
event_beq ticket_created ticket_created = true
event_beq ticket_status_changed ticket_status_changed = true
event_beq _ _ = false

pub role_beq_iff : (a b : UserRole) → (role_beq a b ≡ true) ↔ (a ≡ b)
role_beq_iff a b = ground arith

pub category_beq_iff : (a b : TicketCategory) → (category_beq a b ≡ true) ↔ (a ≡ b)
category_beq_iff a b = ground arith

pub priority_beq_iff : (a b : TicketPriority) → (priority_beq a b ≡ true) ↔ (a ≡ b)
priority_beq_iff a b = ground arith

pub status_beq_iff : (a b : TicketStatus) → (status_beq a b ≡ true) ↔ (a ≡ b)
status_beq_iff a b = ground arith

pub event_beq_iff : (a b : WebhookEventType) → (event_beq a b ≡ true) ↔ (a ≡ b)
event_beq_iff a b = ground arith

instance abbrev pub role_eq : Equality UserRole
role_eq = record { test = role_beq; test_iff = role_beq_iff }

instance abbrev pub category_eq : Equality TicketCategory
category_eq = record { test = category_beq; test_iff = category_beq_iff }

instance abbrev pub priority_eq : Equality TicketPriority
priority_eq = record { test = priority_beq; test_iff = priority_beq_iff }

instance abbrev pub status_eq : Equality TicketStatus
status_eq = record { test = status_beq; test_iff = status_beq_iff }

instance abbrev pub event_eq : Equality WebhookEventType
event_eq = record { test = event_beq; test_iff = event_beq_iff }

-- The members' values.
unfoldable pub status_value : TicketStatus → String
status_value opened = "OPEN"
status_value in_progress = "IN_PROGRESS"
status_value resolved = "RESOLVED"
status_value closed = "CLOSED"

unfoldable pub category_value : TicketCategory → String
category_value billing = "BILLING"
category_value technical = "TECHNICAL"
category_value general = "GENERAL"

unfoldable pub priority_value : TicketPriority → String
priority_value low = "LOW"
priority_value medium = "MEDIUM"
priority_value high = "HIGH"

unfoldable pub event_value : WebhookEventType → String
event_value ticket_created = "ticket.created"
event_value ticket_status_changed = "ticket.status_changed"

unfoldable pub role_value : UserRole → String
role_value customer = "CUSTOMER"
role_value agent = "AGENT"
