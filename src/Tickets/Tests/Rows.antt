-- ===== src/Tickets/Tests/Rows.antt =====
-- The access rules, the list and the mutations at the sample rows, with tests of the functions.
use mathlib.Core.List.{Perm}
use ticketflow.Base.{
  ℕ, ◌+◌, ◌-◌, ◌*◌, ◌≤◌, ◌<◌, ◌≡◌, ◌≢◌, refl, ◌↔◌, inl, inr, Bool, false, none, [], ◌∷◌, arith,
  Elem, Distinct, IsOrdered, length, String, order_by,
}
use ticketflow.Base.Text.{Text}
use ticketflow.Exec.{ok, err, ticket_state}
use ticketflow.Models.{Db, Ticket, opened, in_progress, closed, high, status_value}
use ticketflow.Models.Samples.{ann, eve, first, second, other, desk}
use ticketflow.Tickets.Query.{
  get_accessible_ticket, list_tickets, ListParameters, matching, newest_first, conditions,
  scope_conditions, filter_conditions, when_given, search_conditions, normalized_query, count_pages,
}
use ticketflow.Tickets.Mutation.{change_ticket_status, update_open_ticket, FieldUpdate}
use ticketflow.Tickets.Access.{MaySee, get_accessible_ticket_iff, customer_noninterference}
use ticketflow.Tickets.Pages.{from_newest, first_pages, page_items, found, list_tickets_pages}
use ticketflow.Tickets.Effects.{rank, Moved, OthersSame, change_ticket_status_exact}
use ticketflow.Tickets.Edits.{update_open_ticket_exact}

desk-Distinct : Distinct (λ (t : Ticket). t.id) desk.tickets
desk-Distinct = omega arith

get_accessible_ticket_iff_example :
    (get_accessible_ticket 10 ann desk ≡ (ok first, desk))
    ↔ (Elem first desk.tickets × (first.id ≡ 10) × MaySee ann first)
get_accessible_ticket_iff_example = get_accessible_ticket_iff 10 ann desk desk-Distinct first

-- The database after bob's ticket has moved on.
abbrev desk' : Db
desk' = record desk { tickets = first ∷ second ∷ [] }

abbrev everything : ListParameters
everything = record {
  status = none;
  priority = none;
  category = none;
  query = none;
  page = 1;
  page_size = 2;
}

abbrev never : Text → Text → Bool
never p s = false

customer_noninterference_example :
    (list_tickets never ann everything desk ≡ list_tickets never ann everything desk')
    × ((get_accessible_ticket 12 ann desk).0 ≡ (get_accessible_ticket 12 ann desk').0)
customer_noninterference_example =
    customer_noninterference never ann everything 12 desk desk' refl refl

list_tickets_pages_example :
    let pages = (list_tickets never eve everything desk).pages in
    Perm (first_pages never eve everything desk pages) (found never eve everything desk)
    × IsOrdered from_newest (first_pages never eve everything desk pages)
    × ((list_tickets never eve everything desk).total ≡ length (found never eve everything desk))
    × ((k : ℕ) → length (page_items never eve everything desk k) ≤ 2)
    × (found never eve everything desk ≢ []
        → (0 < pages) × ((pages - 1) * 2 < length (found never eve everything desk)))
list_tickets_pages_example = list_tickets_pages never eve everything desk (omega arith)

-- Three rows on pages of two: the newest is first, and there is a second page.
list-desk :
    ((list_tickets never eve everything desk).items ≡ second ∷ other ∷ [])
    × ((list_tickets never eve everything desk).pages ≡ 2)
unfolding list_tickets matching order_by conditions scope_conditions filter_conditions when_given
    search_conditions normalized_query newest_first count_pages
list-desk = (refl, refl)

change_ticket_status_exact_example :
    let (r, db') = change_ticket_status 300 10 in_progress desk in
    (rank in_progress ≡ rank opened + 1
      → (r
          ≡ ok (record {
            ticket = record first { status = in_progress; updated_at = 300 };
            old_status = opened;
          }))
        × Moved 300 first in_progress desk db')
    × (rank in_progress ≢ rank opened + 1
        → (db' ≡ desk)
          × ((message : String) × (r ≡ err (ticket_state message "INVALID_STATUS_TRANSITION"))))
change_ticket_status_exact_example =
    change_ticket_status_exact 300 first in_progress desk desk-Distinct (inl refl)

skip-refused :
    (change_ticket_status 300 10 closed desk).0
    ≡ err (ticket_state "Invalid status transition from OPEN to CLOSED" "INVALID_STATUS_TRANSITION")
unfolding change_ticket_status status_value
skip-refused = refl

update_open_ticket_exact_example :
    let (r, db') = update_open_ticket 300 10 ann (FieldUpdate.priority high ∷ []) desk in
    (opened ≡ opened
      → (r ≡ ok (record first { priority = high; updated_at = 300 }))
        × ((x : Ticket)
            → x.id ≡ 10
            → Elem x db'.tickets ↔ (x ≡ record first { priority = high; updated_at = 300 }))
        × OthersSame 10 desk db')
    × (opened ≢ opened
        → (db' ≡ desk)
          × ((message : String) × (r ≡ err (ticket_state message "TICKET_NOT_EDITABLE"))))
update_open_ticket_exact_example =
    update_open_ticket_exact first ann desk 300 (FieldUpdate.priority high ∷ []) desk-Distinct
      (inl refl) (inr refl)
