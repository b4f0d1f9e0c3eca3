-- ===== src/Histories/Integrity.antt =====
-- Referential integrity through the histories of app/: whom the rows of app/models name.
use ticketflow.Base.{ℕ, ◌≡◌, refl, sym, List, All, All-mono, Elem, Distinct, nat_eq, subst}
use ticketflow.Models.{
  User, UserRole, Ticket, Comment, Db, WebhookRegistration, WebhookEventType, WebhookDeliveryLog,
  customer, agent,
}
use ticketflow.Webhooks.{Dispatch, WebhookDeliveryTarget, registration_key}
use ticketflow.Workflow.{Call, call}
use ticketflow.Workflow.Rows.{Obliges, call-AllRows}
use ticketflow.Workflow.Steps.{Step, stays, opens, evolves, removes, says}
use ticketflow.Workflow.Refinement.{call-Step}
use ticketflow.Workflow.Lifecycle.{IsValid, Step-IsValid}
use ticketflow.Tickets.Mutation.{save, delete_row}
use ticketflow.Histories.{World}
use ticketflow.Histories.Accounts.{AreSeparate, Grown}

-- The identifier is that of an account with the role.
abbrev pub Stands : List User → ℕ → UserRole → Type 0
Stands users k role = (u : User) × Elem u users × (u.id ≡ k) × (u.role ≡ role)

-- The identifier is that of a subscription to the event.
abbrev pub Subscribes : List WebhookRegistration → ℕ → WebhookEventType → Type 0
Subscribes rs k event = (r : WebhookRegistration) × Elem r rs × (r.id ≡ k) × (r.event_type ≡ event)

abbrev pub TicketStands : List User → Ticket → Type 0
TicketStands users t = Stands users t.customer_id customer

abbrev pub CommentStands : List User → Comment → Type 0
CommentStands users c = Stands users c.author_id c.author_role

abbrev pub RegistrationStands : List User → WebhookRegistration → Type 0
RegistrationStands users r = Stands users r.created_by agent

abbrev pub LogStands : List WebhookRegistration → WebhookDeliveryLog → Type 0
LogStands rs log = Subscribes rs log.webhook_registration_id log.event_type

-- Every key is unique and every foreign key stored: comments belong to stored tickets, tickets to
-- customers, comments to accounts of the role that they bear, subscriptions to agents, and the log's rows
-- to subscriptions of their event.
pub record IsSound (db : Db) : Type 0 where
  pub accounts : AreSeparate db.users
  pub valid : IsValid db
  pub tickets : All (TicketStands db.users) db.tickets
  pub comments : All (CommentStands db.users) db.comments
  pub registration_ids : Distinct registration_key db.webhook_registrations
  pub registrations : All (RegistrationStands db.users) db.webhook_registrations
  pub logs : All (LogStands db.webhook_registrations) db.webhook_delivery_logs

-- The waiting deliveries are to subscriptions of their event.
abbrev pub Captured : List WebhookRegistration → Dispatch → Type 0
Captured rs d =
    All (λ (t : WebhookDeliveryTarget). Subscribes rs t.registration_id t.event_type) d.targets

pub record IsWhole (w : World) : Type 0 where
  pub db : IsSound w.db
  pub tasks : All (Captured w.db.webhook_registrations) w.tasks

-- Where the accounts of before are stored, those who stood still stand.
Stands-after :
    (us us' : List User)
    → ((u : User) → Elem u us → Elem u us')
    → {k : ℕ} {role : UserRole} → Stands us k role
    → Stands us' k role
Stands-after us us' f (u, m, e, r) = (u, f u m, e, r)

pub Grown-IsSound : (db db' : Db) → Grown db db' → IsSound db → IsSound db'
Grown-IsSound db db' g s = subst IsSound (sym g.written) (record {
  accounts = g.separate;
  valid = record { tickets = s.valid.tickets; comments = s.valid.comments; owned = s.valid.owned };
  tickets =
      All-mono {P = TicketStands db.users} {Q = TicketStands g.users}
        (λ t h. Stands-after db.users g.users g.kept h) db.tickets s.tickets;
  comments =
      All-mono {P = CommentStands db.users} {Q = CommentStands g.users}
        (λ c h. Stands-after db.users g.users g.kept h) db.comments s.comments;
  registration_ids = s.registration_ids;
  registrations =
      All-mono {P = RegistrationStands db.users} {Q = RegistrationStands g.users}
        (λ r h. Stands-after db.users g.users g.kept h) db.webhook_registrations s.registrations;
  logs = s.logs;
})

-- The tables that a call of the ticket and comment services leaves as they are.
record SameRest (db db' : Db) : Type 0 where
  users : db'.users ≡ db.users
  registrations : db'.webhook_registrations ≡ db.webhook_registrations
  logs : db'.webhook_delivery_logs ≡ db.webhook_delivery_logs

Step-SameRest : {db db' : Db} → Step db db' → SameRest db db'
unfolding save delete_row
Step-SameRest stays = record { users = refl; registrations = refl; logs = refl }
Step-SameRest (opens _ _ _) = record { users = refl; registrations = refl; logs = refl }
Step-SameRest (evolves _ _ _ _ _) = record { users = refl; registrations = refl; logs = refl }
Step-SameRest (removes _ _ _) = record { users = refl; registrations = refl; logs = refl }
Step-SameRest (says _ _ _ _ _) = record { users = refl; registrations = refl; logs = refl }

pub call-IsSound :
    (c : Call) (db : Db)
    → Obliges (TicketStands db.users) (CommentStands db.users) c
    → IsSound db
    → IsSound (call c db)
call-IsSound c db f s =
    let step = call-Step c db in
    let rest = Step-SameRest step in
    let rows =
      call-AllRows (TicketStands db.users) (CommentStands db.users) c db f
        (record { tickets = s.tickets; comments = s.comments }) in
    record {
      accounts = subst AreSeparate (sym rest.users) s.accounts;
      valid = Step-IsValid step s.valid;
      tickets =
          subst (λ us. All (TicketStands us) (call c db).tickets) (sym rest.users) rows.tickets;
      comments =
          subst (λ us. All (CommentStands us) (call c db).comments) (sym rest.users) rows.comments;
      registration_ids =
          subst (Distinct registration_key) (sym rest.registrations) s.registration_ids;
      registrations =
          subst (λ us. All (RegistrationStands us) (call c db).webhook_registrations)
            (sym rest.users)
            (subst (All (RegistrationStands db.users)) (sym rest.registrations) s.registrations);
      logs =
          subst (λ rs. All (LogStands rs) (call c db).webhook_delivery_logs)
            (sym rest.registrations)
            (subst (All (LogStands db.webhook_registrations)) (sym rest.logs) s.logs);
    }

pub call_registrations :
    (c : Call) (db : Db) → (call c db).webhook_registrations ≡ db.webhook_registrations
call_registrations c db = (Step-SameRest (call-Step c db)).registrations
