-- ===== src/Api/Announcements.antt =====
-- What the handlers of app/api/v1/tickets.py have done and announced when they end.
use ticketflow.Base.{ℕ, String, ◌+◌, ◌≡◌, ◌≢◌, refl, ap, ◌∙◌, [], ◌∷◌, ◌++◌, Elem, Distinct}
use ticketflow.Exec.{Exec, Error, ok, err, ticket_state, bind_ok, bind_err}
use ticketflow.Models.{
  User, Ticket, Db, TicketStatus, JsonObject, uuid, word, instant, status_value,
  ticket_status_changed,
}
use ticketflow.Tickets.Mutation.{TicketStatusChange, change_ticket_status}
use ticketflow.Tickets.Effects.{rank, ticket_key, Moved, change_ticket_status_exact}
use ticketflow.RateLimit.Commands
use ticketflow.Cache.Libraries.{Redis}
use ticketflow.Cache.Service.{invalidate_ticket_caches}
use ticketflow.Websockets.{Connections, dashboard_channel, ticket_channel, members, broadcast}
use ticketflow.Webhooks.{Codec, schedule_webhook_event}
use ticketflow.Api.App.{App, Event, in_db}
use ticketflow.Api.Tickets.{Environment, update_status, announce_change, change_fields}

module _ {C K A : Type 0} (m : Exec Db A) (app : App C K) where
  -- A service call that raises leaves its error and the rows it left.
  pub in_db-err :
      {e : Error} {db : Db} → m app.db ≡ (err e, db) → in_db m app ≡ (err e, record app { db = db })
  in_db-err h = ap (λ r. (r.0, record app { db = r.1 })) h

  pub in_db-ok :
      {a : A} {db : Db} → m app.db ≡ (ok a, db) → in_db m app ≡ (ok a, record app { db = db })
  in_db-ok h = ap (λ r. (r.0, record app { db = r.1 })) h

module _ (limiter : Commands.Redis) (redis : Redis) (codec : Codec) (uuid_str : ℕ → String) where
  module _ (request : Environment) (agent : User) (t : Ticket) (new : TicketStatus)
      (app : App limiter.State redis.State) where
    -- The ticket after the change, and what is announced of it.
    abbrev pub moved : Ticket
    moved = record t { status = new; updated_at = request.now }

    abbrev pub change : TicketStatusChange
    change = record { ticket = moved; old_status = t.status }

    abbrev pub told : JsonObject
    told =
        ("old_status", word (status_value t.status))
        ∷ ("new_status", word (status_value new))
        ∷ ("changed_by", uuid agent.id)
        ∷ ("updated_at", instant request.now)
        ∷ []

    abbrev pub event : Event
    event = record { event = "ticket.status_changed"; ticket_id = t.id; fields = told }

    abbrev pub channel : String
    channel = ticket_channel uuid_str t.id

    abbrev pub after_first : Connections
    after_first =
        (broadcast request.ticket_traffic.outcome request.ticket_traffic.meanwhile channel
          app.connections).connections

    -- What a request that succeeds has done.
    pub record Announced (app' : App limiter.State redis.State) : Type 0 where
      pub stored : Moved request.now t new app.db app'.db
      pub cache : app'.cache ≡ invalidate_ticket_caches redis request.executing app.cache
      pub sendings :
          app'.sendings
          ≡ app.sendings
            ++ (record {
              channel = channel;
              event = event;
              receivers = members channel app.connections;
            }
                ∷ [])
            ++ (record {
              channel = dashboard_channel;
              event = event;
              receivers = members dashboard_channel after_first;
            }
                ∷ [])
      pub tasks :
          app'.tasks
          ≡ app.tasks
            ++ schedule_webhook_event codec request.event_id request.now ticket_status_changed
                (("ticket_id", uuid t.id) ∷ told)
                app'.db
      pub counters : app'.counters ≡ app.counters

    -- With unique identifiers, `update_status` on a stored ticket: if the new status is the next one of the lifecycle, it returns the
    -- changed ticket, the row is changed and no other, the caches are invalidated, the event with the old and
    -- the new status is sent to the sockets of the ticket and then to those of the dashboard, and the webhook
    -- of the same change is scheduled; else it raises TicketStateError and does none of these things.
    pub update_status_exact :
        Distinct ticket_key app.db.tickets
        → Elem t app.db.tickets
        → let (r, app') = update_status limiter redis codec uuid_str request agent t.id new app in
          (rank new ≡ rank t.status + 1 → (r ≡ ok moved) × Announced app')
          × (rank new ≢ rank t.status + 1
              → ((message : String) × (r ≡ err (ticket_state message "INVALID_STATUS_TRANSITION")))
                × (app' ≡ app))
    unfolding update_status announce_change change_fields members broadcast
    update_status_exact d m =
        let service = change_ticket_status request.now t.id new in
        let after = (service app.db).1 in
        let (happy, sad) = change_ticket_status_exact request.now t new app.db d m in
        (
          λ next.
              let (r, stored) = happy next in
              let e : service app.db ≡ (ok change, after) = ap (λ x. (x, after)) r in
              rw
                (
                  bind_ok (in_db service)
                      (announce_change limiter redis codec uuid_str request agent)
                      (in_db-ok service app e),
                  update_status,
                )
                (
                  refl,
                  record {
                    stored = stored;
                    cache = refl;
                    sendings = refl;
                    tasks = refl;
                    counters = refl;
                  },
                ),
          λ other.
              let (same, (message, r)) = sad other in
              let e : service app.db
                  ≡ (err (ticket_state message "INVALID_STATUS_TRANSITION"), app.db) =
                ap (λ x. (x, after)) r
                ∙ ap (λ db. (err (ticket_state message "INVALID_STATUS_TRANSITION"), db)) same in
              rw
                (
                  bind_err (in_db service)
                      (announce_change limiter redis codec uuid_str request agent)
                      (in_db-err service app e),
                  update_status,
                )
                ((message, refl), refl),
        )
