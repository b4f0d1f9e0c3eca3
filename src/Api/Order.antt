-- ===== src/Api/Order.antt =====
-- The reads of app/services do not depend on the order in which the rows of the tables are stored.
use ticketflow.Base.{
  ℕ, ◌≡◌, refl, sym, ap, ◌∙◌, Bool, true, false, none, some, all, find, take, Option-cases, inl,
  inr, filter, length, length-order_by, ◌==◌, nat_eq, arith, SameRows, order_by-SameRows,
  filter-SameRows, find-SameRows,
}
use ticketflow.Base.Text.{Text}
use ticketflow.Exec.{ok, err, ticket_not_found, bind_ok, bind_err}
use ticketflow.Models.{User, Ticket, Comment, Db, WebhookRegistration, WebhookDeliveryLog}
use ticketflow.Tickets.Query.{
  get_accessible_ticket, list_tickets, ListParameters, newest_first, conditions, matching,
}
use ticketflow.Tickets.Access.{asks_for, asks_for_iff}
use ticketflow.Tickets.Effects.{ticket_key}
use ticketflow.Tickets.Pages.{newest_first_total, newest_first_trans}
use ticketflow.Comments.{list_comments, thread_of, oldest_first}
use ticketflow.Comments.Thread.{oldest_first_total, oldest_first_trans}
use ticketflow.Webhooks.{
  list_webhook_registrations, latest_registration, registration_key, list_webhook_deliveries,
  latest_attempt,
}
use ticketflow.Workflow.Lifecycle.{comment_key}
use ticketflow.Api.History.{latest_attempt_total, latest_attempt_trans}

abbrev pub log_key : WebhookDeliveryLog → ℕ
log_key log = log.id

-- The same rows in every table that is listed.
pub record SameTables (db db' : Db) : Type 0 where
  pub tickets : SameRows ticket_key db.tickets db'.tickets
  pub comments : SameRows comment_key db.comments db'.comments
  pub registrations : SameRows registration_key db.webhook_registrations db'.webhook_registrations
  pub logs : SameRows log_key db.webhook_delivery_logs db'.webhook_delivery_logs

newest_first_antisym :
    (a b : Ticket) → newest_first a b ≡ true → newest_first b a ≡ true → ticket_key a ≡ ticket_key b
unfolding newest_first
newest_first_antisym a b h k = ground arith

oldest_first_antisym :
    (a b : Comment)
    → oldest_first a b ≡ true
    → oldest_first b a ≡ true
    → comment_key a ≡ comment_key b
unfolding oldest_first
oldest_first_antisym a b h k = ground arith

latest_attempt_antisym :
    (a b : WebhookDeliveryLog)
    → latest_attempt a b ≡ true
    → latest_attempt b a ≡ true
    → log_key a ≡ log_key b
unfolding latest_attempt
latest_attempt_antisym a b h k = ground arith

latest_registration_total :
    (a b : WebhookRegistration) → latest_registration a b ≡ false → latest_registration b a ≡ true
unfolding latest_registration
latest_registration_total a b h = ground arith

latest_registration_trans :
    (a b c : WebhookRegistration)
    → latest_registration a b ≡ true
    → latest_registration b c ≡ true
    → latest_registration a c ≡ true
unfolding latest_registration
latest_registration_trans a b c h k = ground arith

latest_registration_antisym :
    (a b : WebhookRegistration)
    → latest_registration a b ≡ true
    → latest_registration b a ≡ true
    → registration_key a ≡ registration_key b
unfolding latest_registration
latest_registration_antisym a b h k = ground arith

loaded :
    (ticket_id : ℕ) (user : User) (db : Db) (t : Ticket)
    → find (asks_for ticket_id user) db.tickets ≡ some t
    → get_accessible_ticket ticket_id user db ≡ (ok t, db)
unfolding get_accessible_ticket
loaded ticket_id user db t e = rw e refl

missing :
    (ticket_id : ℕ) (user : User) (db : Db)
    → find (asks_for ticket_id user) db.tickets ≡ none
    → get_accessible_ticket ticket_id user db ≡ (err ticket_not_found, db)
unfolding get_accessible_ticket
missing ticket_id user db e = rw e refl

module _ (db db' : Db) (s : SameTables db db') where
  page_same :
      (ilike : Text → Text → Bool) (user : User) (p : ListParameters)
      → list_tickets ilike user p db ≡ list_tickets ilike user p db'
  unfolding list_tickets matching
  page_same ilike user p =
      let passes : Ticket → Bool = λ t. all (λ c. c t) (conditions ilike user p) in
      let sorted =
        order_by-SameRows ticket_key newest_first newest_first_antisym newest_first_total
          newest_first_trans (filter passes db.tickets) (filter passes db'.tickets)
          (filter-SameRows ticket_key passes db.tickets db'.tickets s.tickets) in
      let counted : length (filter passes db.tickets) ≡ length (filter passes db'.tickets) =
        sym (length-order_by newest_first (filter passes db.tickets))
        ∙ ap length sorted
        ∙ length-order_by newest_first (filter passes db'.tickets) in
      rw (sorted, counted) refl

  found_same :
      (ticket_id : ℕ) (user : User)
      → find (asks_for ticket_id user) db.tickets ≡ find (asks_for ticket_id user) db'.tickets
  found_same ticket_id user =
      find-SameRows ticket_key (asks_for ticket_id user) db.tickets db'.tickets
        (λ x y h k.
          ((asks_for_iff ticket_id user x).0 h).0 ∙ sym ((asks_for_iff ticket_id user y).0 k).0)
        s.tickets

  ticket_same :
      (ticket_id : ℕ) (user : User)
      → (get_accessible_ticket ticket_id user db).0 ≡ (get_accessible_ticket ticket_id user db').0
  unfolding get_accessible_ticket
  ticket_same ticket_id user =
      let e = found_same ticket_id user in
      elim (Option-cases (find (asks_for ticket_id user) db'.tickets)) [
        | inl h ↦ rw (e, h) refl
        | inr (t, h) ↦ rw (e, h) refl
      ]

  thread_same :
      (ticket_id : ℕ) (user : User)
      → (list_comments ticket_id user db).0 ≡ (list_comments ticket_id user db').0
  unfolding list_comments thread_of
  thread_same ticket_id user =
      let e = found_same ticket_id user in
      let load = get_accessible_ticket ticket_id user in
      elim (Option-cases (find (asks_for ticket_id user) db'.tickets)) [
        | inl h ↦
            ap (λ r. r.0) (bind_err load thread_of (missing ticket_id user db (e ∙ h)))
            ∙ sym (ap (λ r. r.0) (bind_err load thread_of (missing ticket_id user db' h)))
        | inr (t, h) ↦
            let mine : Comment → Bool = λ c. c.ticket_id == t.id in
            let sorted =
              order_by-SameRows comment_key oldest_first oldest_first_antisym oldest_first_total
                oldest_first_trans (filter mine db.comments) (filter mine db'.comments)
                (filter-SameRows comment_key mine db.comments db'.comments s.comments) in
            ap (λ r. r.0) (bind_ok load thread_of (loaded ticket_id user db t (e ∙ h)))
            ∙ ap ok sorted
            ∙ sym (ap (λ r. r.0) (bind_ok load thread_of (loaded ticket_id user db' t h)))
      ]

-- With unique identifiers, two databases with the same rows in whatever order give the same page of tickets
-- for all filters, the same ticket or error, the same thread of comments or error, the same list of
-- subscriptions and the same deliveries.
pub reads_forget_order :
    (db db' : Db)
    → SameTables db db'
    → ((ilike : Text → Text → Bool) (user : User) (p : ListParameters)
        → list_tickets ilike user p db ≡ list_tickets ilike user p db')
      × ((ticket_id : ℕ) (user : User)
          → ((get_accessible_ticket ticket_id user db).0
              ≡ (get_accessible_ticket ticket_id user db').0)
            × ((list_comments ticket_id user db).0 ≡ (list_comments ticket_id user db').0))
      × (list_webhook_registrations db ≡ list_webhook_registrations db')
      × ((limit : ℕ) → list_webhook_deliveries limit db ≡ list_webhook_deliveries limit db')
unfolding list_webhook_registrations list_webhook_deliveries
reads_forget_order db db' s = (
  page_same db db' s,
  λ ticket_id user. (ticket_same db db' s ticket_id user, thread_same db db' s ticket_id user),
  order_by-SameRows registration_key latest_registration latest_registration_antisym
      latest_registration_total latest_registration_trans db.webhook_registrations
      db'.webhook_registrations s.registrations,
  λ limit. ap (take limit) (
      order_by-SameRows log_key latest_attempt latest_attempt_antisym latest_attempt_total
        latest_attempt_trans db.webhook_delivery_logs db'.webhook_delivery_logs s.logs),
)
