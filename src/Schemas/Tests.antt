-- ===== src/Schemas/Tests.antt =====
-- The schemas on concrete bodies.
use ticketflow.Base.{ℕ, ◌≡◌, refl, ◌↔◌, none, some, List, [], ◌∷◌, arith, ◌≢◌, Elem}
use ticketflow.Base.Text.{codes, is_space, lstrip, rstrip, strip}
use ticketflow.Models.{
  TicketStatus, opened, in_progress, by_value, billing, low, high, category_value, priority_value,
  category_members, priority_members,
}
use ticketflow.Models.Samples.{ann, desk, ticket_of}
use ticketflow.Tickets.Mutation.{FieldUpdate}
use ticketflow.Schemas.Values.{Body, null, string, strip_text, forbid_extra}
use ticketflow.Schemas.Requests.{
  TicketCreateRequest, ticket_create_request, ticket_update_request, update_fields, dump_set,
  is_null, require_non_null_update,
}
use ticketflow.Schemas.Acceptance.{
  Describes, body_of, ticket_create_request_iff, ticket_create_request-again,
}
use ticketflow.Schemas.Patches.{Acceptable, Sets}
use ticketflow.Schemas.Patching.{update_fields_exact}
use ticketflow.Schemas.Columns.{
  Submission, creating, updating, moving, commenting, IsTidy, serve_all, TicketFits,
}
use ticketflow.Schemas.Stored.{serve_all-IsTidy}
use ticketflow.Schemas.Checks.{checks, within_bounds, member}

abbrev padded : Body
padded =
    ("title", string (32 ∷ 104 ∷ 105 ∷ []))
    ∷ ("priority", string (codes "LOW"))
    ∷ ("category", string (codes "BILLING"))
    ∷ ("description", string (104 ∷ 111 ∷ 10 ∷ []))
    ∷ []

abbrev understood : TicketCreateRequest
understood = record {
  title = 104 ∷ 105 ∷ [];
  description = 104 ∷ 111 ∷ [];
  category = billing;
  priority = low;
}

accepts_padded : ticket_create_request checks padded ≡ some understood
unfolding ticket_create_request forbid_extra strip_text strip lstrip rstrip is_space within_bounds
    member by_value category_value priority_value
accepts_padded = refl

refuses_blank :
    ticket_create_request checks (
      ("title", string (32 ∷ []))
      ∷ ("description", string (104 ∷ []))
      ∷ ("category", string (codes "BILLING"))
      ∷ ("priority", string (codes "LOW"))
      ∷ [])
    ≡ none
unfolding ticket_create_request forbid_extra strip_text strip lstrip rstrip is_space within_bounds
    member by_value category_value priority_value
refuses_blank = refl

ticket_create_request_iff_example :
    (ticket_create_request checks padded ≡ some understood) ↔ Describes padded understood
ticket_create_request_iff_example = ticket_create_request_iff checks padded understood

ticket_create_request-again_example :
    ticket_create_request checks (body_of understood) ≡ some understood
ticket_create_request-again_example =
    ticket_create_request-again checks padded understood accepts_padded

-- Two fields of a ticket.
abbrev patch : Body
patch = ("title", string (104 ∷ 105 ∷ 32 ∷ [])) ∷ ("priority", string (codes "HIGH")) ∷ []

updates_two :
    update_fields checks patch
    ≡ some (FieldUpdate.title (104 ∷ 105 ∷ []) ∷ FieldUpdate.priority high ∷ [])
unfolding update_fields ticket_update_request dump_set require_non_null_update is_null forbid_extra
    strip_text strip lstrip rstrip is_space within_bounds member by_value category_value
    priority_value
updates_two = refl

refuses_null : update_fields checks (("title", null) ∷ []) ≡ none
unfolding update_fields ticket_update_request dump_set require_non_null_update is_null forbid_extra
    strip_text strip lstrip rstrip is_space within_bounds member by_value category_value
    priority_value
refuses_null = refl

refuses_empty : update_fields checks [] ≡ none
unfolding update_fields ticket_update_request dump_set require_non_null_update is_null forbid_extra
    strip_text strip lstrip rstrip is_space within_bounds member by_value category_value
    priority_value
refuses_empty = refl

update_fields_exact_example :
    (((us : List FieldUpdate) × (update_fields checks patch ≡ some us))
      ↔ ((patch ≢ []) × Acceptable patch))
    × ((us : List FieldUpdate)
        → update_fields checks patch ≡ some us
        → (u : FieldUpdate) → Elem u us ↔ Sets patch u)
update_fields_exact_example = update_fields_exact checks patch

abbrev requests : List Submission
requests =
    creating 30 500 ann padded
    ∷ updating 600 30 ann patch
    ∷ commenting 40 700 30 ann (("body", string (32 ∷ 120 ∷ [])) ∷ [])
    ∷ moving 800 30 (("status", string (codes "IN_PROGRESS")) ∷ [])
    ∷ creating 31 900 ann (("title", null) ∷ [])
    ∷ []

ticket_of-TicketFits :
    (id owner created : ℕ) (status : TicketStatus) → TicketFits (ticket_of id owner created status)
unfolding strip lstrip rstrip is_space
ticket_of-TicketFits id owner created status = record {
  title = (omega arith, omega arith, refl);
  description = (omega arith, omega arith, refl);
}

desk-IsTidy : IsTidy desk
unfolding strip lstrip rstrip is_space
desk-IsTidy = record {
  tickets = (
    ticket_of-TicketFits 10 1 100 opened,
    (ticket_of-TicketFits 11 1 200 in_progress, (ticket_of-TicketFits 12 2 150 opened, tt)),
  );
  comments = ((omega arith, omega arith, refl), tt);
}

serve_all-IsTidy_example : IsTidy (serve_all checks requests desk)
serve_all-IsTidy_example = serve_all-IsTidy checks requests desk desk-IsTidy
