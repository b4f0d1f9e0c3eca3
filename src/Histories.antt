-- ===== src/Histories.antt =====
-- Histories of the whole program: requests with credentials (app/core/deps.py before the services of
-- app/services), registrations, runs of app/seed.py, and the background deliveries of
-- app/services/webhook_service.py, one committed transaction after the other.
pub mod Accounts
pub mod Integrity
pub mod Subscriptions
pub mod Deliveries
pub mod Requests
pub mod Whole
mod Tests
use ticketflow.Base.{
  ℕ, zero, suc, Bool, true, false, ◌||◌, Option, none, some, List, [], ◌∷◌, ◌++◌, any, ◌==◌, nat_eq,
  if◌then◌else◌,
}
use ticketflow.Base.Text.{Text, text_eq}
use ticketflow.Exec.{Exec, ok, err}
use ticketflow.Models.{
  User, Db, TicketCategory, TicketPriority, TicketStatus, WebhookEventType, JsonObject,
}
use ticketflow.Tickets.Mutation.{FieldUpdate}
use ticketflow.Auth.Libraries.{Jwt, Uuids, Letters, Passwords, Settings}
use ticketflow.Auth.Service.{has_email, register_customer}
use ticketflow.Auth.Deps.{Credentials, get_current_user, require_agent, require_customer}
use ticketflow.Auth.Seed.{Chances, seed_agent}
use ticketflow.Webhooks.{
  Codec, Dispatch, create_webhook_registration, deactivate_webhook_registration,
  schedule_webhook_event,
}
use ticketflow.Webhooks.Delivery.{Attempt, dispatch_webhook_event}
use ticketflow.Workflow.{creates, updates, deletes, moves, comments, call}

-- What a request that writes asks for, with what the environment chooses for it.
pub data Request : Type 0 where
  opening : (new_id : ℕ) → (title description : Text) → TicketCategory → TicketPriority → Request
  editing : (refreshed_at ticket_id : ℕ) → List FieldUpdate → Request
  withdrawing : (ticket_id : ℕ) → Request
  moving : (refreshed_at ticket_id : ℕ) → TicketStatus → Request
  commenting : (new_id ticket_id : ℕ) → Text → Request
  subscribing : (new_id : ℕ) → (secret url : Text) → WebhookEventType → Request
  unsubscribing : (webhook_id : ℕ) → Request

-- The rows, and the deliveries that wait in the background.
pub record World : Type 0 where
  pub db : Db
  pub tasks : List Dispatch

-- The accounts of others that reach the database: the constraints on `id` and `email` refuse the rest.
unfoldable pub committed : List User → List User → List User
committed [] users = []
committed (a ∷ rest) users =
    let others = committed rest users in
    if any (λ u. u.id == a.id) (others ++ users) || has_email a.email (others ++ users)
    then others
    else a ∷ others

-- The task at a position, and those that still wait.
unfoldable pub take_task : ℕ → List Dispatch → Option (Dispatch × List Dispatch)
take_task k [] = none
take_task zero (d ∷ ds) = some (d, ds)
take_task (suc k) (d ∷ ds) = elim (take_task k ds) [
  | none ↦ none
  | some (found, rest) ↦ some (found, d ∷ rest)
]

-- What the service writes for a request of a user who passed the dependency.
unfoldable pub act : (now : ℕ) → Request → User → Db → Db
act now (opening new_id title description category priority) user db =
    call (creates new_id now user title description category priority) db
act now (editing refreshed_at ticket_id fields) user db =
    call (updates refreshed_at ticket_id user fields) db
act now (withdrawing ticket_id) user db = call (deletes ticket_id user) db
act now (moving refreshed_at ticket_id status) user db =
    call (moves refreshed_at ticket_id status) db
act now (commenting new_id ticket_id body) user db =
    call (comments new_id now ticket_id user body) db
act now (subscribing new_id secret url event_type) user db =
    if any (λ r. r.id == new_id) db.webhook_registrations
    then db
    else (create_webhook_registration new_id now secret user url event_type db).1
act now (unsubscribing webhook_id) user db = (deactivate_webhook_registration webhook_id db).1

module _ (jwt : Jwt) (uuids : Uuids) (settings : Settings) (letters : Letters) where
  -- The dependency that the endpoint of a request names.
  unfoldable pub dependency : Request → (now : ℕ) → Option (Credentials jwt.Token) → Exec Db User
  dependency (opening _ _ _ _ _) = require_customer jwt uuids settings letters
  dependency (editing _ _ _) = require_customer jwt uuids settings letters
  dependency (withdrawing _) = require_customer jwt uuids settings letters
  dependency (moving _ _ _) = require_agent jwt uuids settings letters
  dependency (commenting _ _ _) = get_current_user jwt uuids settings letters
  dependency (subscribing _ _ _ _) = require_agent jwt uuids settings letters
  dependency (unsubscribing _) = require_agent jwt uuids settings letters

  unfoldable pub answer : (now : ℕ) → Option (Credentials jwt.Token) → Request → Db → Db
  answer now credentials r db =
      let (result, db') = dependency r now credentials db in
      elim result [ ok user ↦ act now r user db' | err e ↦ db' ]

module _ (letters : Letters) (passwords : Passwords) where
  -- A primary key that is taken refuses the commit of a new account.
  unfoldable pub register : (new_id now salt : ℕ) → List User → (email password : Text) → Db → Db
  register new_id now salt others email password db =
      let meanwhile = committed others db.users in
      if any (λ u. u.id == new_id) (meanwhile ++ db.users)
      then db
      else (register_customer letters passwords new_id now salt meanwhile email password db).1

  unfoldable pub seed : (seeded_agent_email seeded_agent_password : Text) → Chances → Db → Db
  seed seeded_agent_email seeded_agent_password c db =
      let meanwhile = committed c.meanwhile db.users in
      if any (λ u. u.id == c.new_id) (meanwhile ++ db.users)
      then db
      else (seed_agent letters passwords seeded_agent_email seeded_agent_password
          (record c { meanwhile = meanwhile }) db).1

-- One transaction. The accounts in a registration are those that others try to commit meanwhile.
pub data Transaction (Token : Type 0) : Type 0 where
  requests : (now : ℕ) → Option (Credentials Token) → Request → Transaction Token
  registers : (new_id now salt : ℕ) → List User → (email password : Text) → Transaction Token
  seeds : Chances → Transaction Token
  schedules : (event_id now : ℕ) → WebhookEventType → JsonObject → Transaction Token
  dispatches : (position : ℕ) → (ℕ → Attempt) → Transaction Token

module _ (jwt : Jwt) (uuids : Uuids) (settings : Settings) (letters : Letters)
    (passwords : Passwords) (codec : Codec) (str : ℕ → Text)
    (seeded_agent_email seeded_agent_password : Text) where
  unfoldable pub perform : Transaction jwt.Token → World → World
  perform (requests now credentials r) w = record w {
    db = answer jwt uuids settings letters now credentials r w.db;
  }
  perform (registers new_id now salt others email password) w = record w {
    db = register letters passwords new_id now salt others email password w.db;
  }
  perform (seeds c) w = record w {
    db = seed letters passwords seeded_agent_email seeded_agent_password c w.db;
  }
  perform (schedules event_id now event_type fields) w = record w {
    tasks = w.tasks ++ schedule_webhook_event codec event_id now event_type fields w.db;
  }
  perform (dispatches position env) w = elim (take_task position w.tasks) [
    | none ↦ w
    | some (d, rest) ↦ record { db = (dispatch_webhook_event codec str env d w.db).1; tasks = rest }
  ]

  unfoldable pub perform_all : List (Transaction jwt.Token) → World → World
  perform_all [] w = w
  perform_all (t ∷ ts) w = perform_all ts (perform t w)
