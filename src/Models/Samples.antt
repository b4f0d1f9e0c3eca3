-- ===== src/Models/Samples.antt =====
-- Rows for the tests: two customers, an agent, and their tickets.
use ticketflow.Base.{ℕ, [], ◌∷◌}
use ticketflow.Models.Enums.{customer, agent, billing, low, opened, in_progress, TicketStatus}
use ticketflow.Models.Rows.{User, Ticket, Comment, Db}

abbrev pub ann : User
ann = record { id = 1; email = 97 ∷ []; password_hash = 1 ∷ []; role = customer; created_at = 0 }

abbrev pub bob : User
bob = record { id = 2; email = 98 ∷ []; password_hash = 2 ∷ []; role = customer; created_at = 0 }

abbrev pub eve : User
eve = record { id = 3; email = 101 ∷ []; password_hash = 3 ∷ []; role = agent; created_at = 0 }

abbrev pub ticket_of : (id owner created : ℕ) → TicketStatus → Ticket
ticket_of id owner created status = record {
  id = id;
  customer_id = owner;
  title = 104 ∷ 105 ∷ [];
  description = 104 ∷ 111 ∷ [];
  category = billing;
  priority = low;
  status = status;
  created_at = created;
  updated_at = created;
}

-- Two tickets of ann's and one of bob's.
abbrev pub first : Ticket
first = ticket_of 10 1 100 opened

abbrev pub second : Ticket
second = ticket_of 11 1 200 in_progress

abbrev pub other : Ticket
other = ticket_of 12 2 150 opened

abbrev pub note : Comment
note = record {
  id = 20;
  ticket_id = 10;
  author_id = 1;
  author_role = customer;
  body = 120 ∷ [];
  created_at = 110;
}

abbrev pub desk : Db
desk = record {
  users = ann ∷ bob ∷ eve ∷ [];
  tickets = first ∷ second ∷ other ∷ [];
  comments = note ∷ [];
  webhook_registrations = [];
  webhook_delivery_logs = [];
}
