-- ===== src/Tickets/Effects.antt =====
-- What `change_ticket_status` of app/services/ticket_service.py does to the rows, on every branch.
use ticketflow.Base.{
  ℕ, ◌+◌, ◌≡◌, ◌≢◌, refl, ◌↔◌, Bool, true, false, some, arith, Elem, find, find_complete, Distinct,
  overwrite_self, overwrite_others, ◌==◌, nat_eq, nat_beq_iff, String,
}
use ticketflow.Exec.{ok, err, ticket_state}
use ticketflow.Models.{Ticket, Db, TicketStatus, opened, in_progress, resolved, closed, status_eq}
use ticketflow.Tickets.Mutation.{
  change_ticket_status, allowed_status_transitions, is_expected, save,
}

-- The place of a status in the lifecycle.
abbrev pub rank : TicketStatus → ℕ
rank opened = 0
rank in_progress = 1
rank resolved = 2
rank closed = 3

abbrev pub ticket_key : Ticket → ℕ
ticket_key t = t.id

-- The rows but for one ticket are the same before and after, and so are the other tables.
pub record OthersSame (ticket_id : ℕ) (db db' : Db) : Type 0 where
  pub tickets : (x : Ticket) → x.id ≢ ticket_id → Elem x db'.tickets ↔ Elem x db.tickets
  pub comments : db'.comments ≡ db.comments
  pub users : db'.users ≡ db.users
  pub registrations : db'.webhook_registrations ≡ db.webhook_registrations
  pub logs : db'.webhook_delivery_logs ≡ db.webhook_delivery_logs

pub save-OthersSame : (t : Ticket) (db : Db) → OthersSame t.id db (save t db)
unfolding save
save-OthersSame t db = record {
  tickets = λ x h. overwrite_others ticket_key t x db.tickets h;
  comments = refl;
  users = refl;
  registrations = refl;
  logs = refl;
}

find_row :
    (db : Db) (t : Ticket)
    → Distinct ticket_key db.tickets
    → Elem t db.tickets
    → find (λ (x : Ticket). x.id == t.id) db.tickets ≡ some t
find_row db t d m =
    find_complete ticket_key (λ x. x.id == t.id) db.tickets t d m ((nat_beq_iff t.id t.id).1 refl)
      (λ x e. (nat_beq_iff x.id t.id).0 e)

pub expected_iff :
    (old new : TicketStatus)
    → (is_expected new (allowed_status_transitions old) ≡ true) ↔ (rank new ≡ rank old + 1)
unfolding is_expected allowed_status_transitions
expected_iff old new = ground arith

pub not_true : (b : Bool) → ¬ (b ≡ true) → b ≡ false
not_true true h = absurd (h refl)
not_true false h = refl

module _ (at : ℕ) (t : Ticket) (new : TicketStatus) (db : Db) where
  -- What a successful change of status leaves.
  abbrev pub Moved : Db → Type 0
  Moved db' = Elem (record t { status = new; updated_at = at }) db'.tickets × OthersSame t.id db db'

  -- With unique identifiers, `change_ticket_status` on a stored ticket: if the new status is the next one of the lifecycle
  -- it succeeds, the ticket's row has the new status and the refreshed `updated_at` and is otherwise
  -- the same, every other row of the database is unchanged, and the old status is reported; else it
  -- raises TicketStateError with the code INVALID_STATUS_TRANSITION and no row changes.
  pub change_ticket_status_exact :
      Distinct ticket_key db.tickets
      → Elem t db.tickets
      → let (r, db') = change_ticket_status at t.id new db in
        (rank new ≡ rank t.status + 1
          → (r
              ≡ ok (record {
                ticket = record t { status = new; updated_at = at };
                old_status = t.status;
              }))
            × Moved db')
        × (rank new ≢ rank t.status + 1
            → (db' ≡ db)
              × ((message : String) × (r ≡ err (ticket_state message "INVALID_STATUS_TRANSITION"))))
  unfolding change_ticket_status
  change_ticket_status_exact d m = rw (find_row db t d m) (
    λ next.
        rw ((expected_iff t.status new).1 next)
          (refl, (overwrite_self ticket_key _ t db.tickets m refl, save-OthersSame _ db)),
    λ other.
        let e : is_expected new (allowed_status_transitions t.status) ≡ false =
          not_true _ (λ p. other ((expected_iff t.status new).0 p)) in
        rw e (refl, (_, refl)),
  )
