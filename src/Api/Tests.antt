-- ===== src/Api/Tests.antt =====
-- The handlers at the sample rows: a change of status that two sockets hear of, one that is refused, and
-- a new ticket.
mod Accounts
use Prim.Native.String.{String}
use ticketflow.Base.{
  All, ◌↔◌, Option, some, Elem, ℕ, ◌+◌, ◌≤◌, ◌<◌, ◌≡◌, ◌≢◌, refl, inl, true, false, none, [], ◌∷◌,
  ◌++◌, arith, string_eq,
}
use ticketflow.Exec.{ticket_not_found, ok, err, ticket_state, api_exception, retry_after}
use ticketflow.Models.{Comment, User, Ticket, agent, billing, low, in_progress}
use ticketflow.Models.Samples.{ann, eve, first, desk}
use ticketflow.Tickets.Effects.{rank}
use ticketflow.RateLimit
use ticketflow.RateLimit.Table.{Table, table}
use ticketflow.Cache.Libraries
use ticketflow.Cache.Table.{State, redis}
use ticketflow.Websockets.{ticket_channel, delivered, dashboard_channel}
use ticketflow.Webhooks.{Codec}
use ticketflow.Tickets.Access.{MaySee}
use ticketflow.Auth.Samples.{jwt, uuids, settings}
use ticketflow.Auth.Security.{create_access_token}
use ticketflow.Api.Sockets.{ticket_updates, dashboard_updates, Admits, sockets_exact}
use ticketflow.Api.Comments
use ticketflow.Api.Comments.{Posted, posted_exact}
use ticketflow.Tickets.Query.{get_accessible_ticket}
use ticketflow.Comments.{list_comments}
use ticketflow.Api.Errors.{LooksMissing, hidden_ticket_response}
use ticketflow.Api.App.{in_db, App, Traffic}
use ticketflow.Api.Tickets.{
  update, delete, Environment, update_status, create, rate_limit_exception, or_one,
}
use ticketflow.Api.Announcements.{Announced, moved, update_status_exact}
use ticketflow.Api.Creation.{Created, Counted, opened_ticket, used, create_exact}

abbrev plain : Codec
plain = record { serialize = λ e. e.id ∷ []; hmac_sha256_hex = λ secret body. secret ++ body }

abbrev named : ℕ → String
named n = "ticket"

abbrev quiet : Traffic
quiet = record { outcome = λ w. delivered; meanwhile = [] }

abbrev request : Environment
request = record {
  new_id = 14;
  now = 400;
  event_id = 50;
  link = RateLimit.works;
  executing = Libraries.works;
  ticket_traffic = quiet;
  dashboard_traffic = quiet;
}

abbrev app : App Table State
app = record {
  counters = λ k. (0, none);
  cache = λ k. none;
  db = desk;
  connections = (dashboard_channel, 7 ∷ []) ∷ ("ticket:ticket", 8 ∷ []) ∷ [];
  sendings = [];
  tasks = [];
}

update_status_exact_example :
    let (r, app') = update_status table redis plain named request eve 10 in_progress app in
    (rank in_progress ≡ 0 + 1
      → (r ≡ ok (moved table redis plain named request eve first in_progress app))
        × Announced table redis plain named request eve first in_progress app app')
    × (rank in_progress ≢ 0 + 1
        → ((message : String) × (r ≡ err (ticket_state message "INVALID_STATUS_TRANSITION")))
          × (app' ≡ app))
update_status_exact_example =
    update_status_exact table redis plain named request eve first in_progress app (omega arith)
      (inl refl)

create_exact_example :
    let (r, app') =
      create table redis plain named request ann (116 ∷ []) (117 ∷ []) billing low app in
    let ticket =
      opened_ticket table redis plain named request ann (116 ∷ []) (117 ∷ []) billing low app in
    let made = Created table redis plain named request ann (116 ∷ []) (117 ∷ []) billing low app in
    let before = used table redis plain named request ann (116 ∷ []) (117 ∷ []) billing low app in
    (request.link ≡ RateLimit.works → before < 30 → (r ≡ ok ticket) × made app')
    × (request.link ≡ RateLimit.works
        → 30 ≤ before
        → (app' ≡ record app { counters = app'.counters })
          × ((seconds : ℕ) × (1 ≤ seconds)
              × (r
                  ≡ err (
                      api_exception 429 "RATE_LIMIT_EXCEEDED"
                        "Too many requests. Please try again later."
                        (retry_after seconds ∷ [])))))
    × (request.link ≡ RateLimit.works
        → Counted table redis plain named request ann (116 ∷ []) (117 ∷ []) billing low app app')
    × (request.link ≢ RateLimit.works → (r ≡ ok ticket) × made app')
create_exact_example =
    create_exact table redis plain named request ann (116 ∷ []) (117 ∷ []) billing low app

abbrev characters : jwt.Token → ℕ
characters t = 300

-- ann's token opens the channel of ann's ticket, and not that of the dashboard.
abbrev token : Option jwt.Token
token = some (create_access_token jwt uuids settings 390 1)

sockets_exact_example :
    ((ticket_updates jwt uuids settings named characters 400 token 10 desk
        ≡ some (ticket_channel named 10))
      ↔ ((u : User) × (t : Ticket) × Admits jwt uuids settings named characters 400 token desk u
          × Elem t desk.tickets
          × (t.id ≡ 10)
          × MaySee u t))
    × ((dashboard_updates jwt uuids settings named characters 400 token desk
          ≡ some dashboard_channel)
        ↔ ((u : User) × Admits jwt uuids settings named characters 400 token desk u
            × (u.role ≡ agent)))
sockets_exact_example =
    sockets_exact jwt uuids settings named characters 400 token desk 10 (omega arith) (omega arith)

-- An agent answers on ann's ticket.
posted_exact_example :
    let (r, app') = Comments.create named quiet quiet 21 300 10 eve (104 ∷ []) app in
    ((t : Ticket)
      → Elem t desk.tickets
      → t.id ≡ 10
      → MaySee eve t
      → (c : Comment) × (r ≡ ok c) × Posted named quiet quiet 21 300 10 eve (104 ∷ []) app c app')
    × (All (λ t. t.id ≡ 10 → ¬ MaySee eve t) desk.tickets
        → (r ≡ err ticket_not_found) × (app' ≡ app))
posted_exact_example = posted_exact named quiet quiet 21 300 10 eve (104 ∷ []) app (omega arith)

-- ann asks for bob's ticket.
hidden_ticket_response_example :
    LooksMissing table redis plain named request (in_db (get_accessible_ticket 12 ann)) app
    × LooksMissing table redis plain named request
        (update table redis plain named request ann 12 [])
        app
    × LooksMissing table redis plain named request
        (delete table redis plain named request ann 12)
        app
    × LooksMissing table redis plain named request (in_db (list_comments 12 ann)) app
    × LooksMissing table redis plain named request
        (Comments.create named quiet quiet 21 300 12 ann [])
        app
hidden_ticket_response_example =
    hidden_ticket_response table redis plain named request 12 21 300 ann [] [] quiet quiet app
      (ground arith, (ground arith, (ground arith, tt)))
