-- ===== src/Api/Creation.antt =====
-- What `create` of app/api/v1/tickets.py does, by the customer's counter at the limiter.
use Prim.Native.Nat.{max}
use ticketflow.Base.{
  ℕ, zero, suc, String, ◌+◌, ◌/◌, ◌≤◌, ◌<◌, ◌≡◌, ◌≢◌, refl, inl, inr, ap, ◌∙◌, sym, true, false,
  some, [], ◌∷◌, ◌++◌, Bool-cases, arith, ◌==◌, string_eq, if◌then◌else◌,
}
use ticketflow.Base.Text.{Text}
use ticketflow.Exec.{Result, ok, err, api_exception, retry_after}
use ticketflow.Models.{
  User, Ticket, TicketCategory, TicketPriority, JsonObject, uuid, text, word, instant, opened,
  ticket_created, category_value, priority_value, status_value,
}
use ticketflow.Tickets.Mutation.{create_ticket}
use ticketflow.RateLimit.Commands
use ticketflow.RateLimit.Quota.{consume_rate_limit_exact}
use ticketflow.RateLimit.{
  RateLimitDecision, Link, works, down, lost, decide, consume_rate_limit, ticket_create_rate_limit,
  ticket_create_rate_limit_key, rate_limit_window_seconds,
}
use ticketflow.Cache.Libraries.{Redis}
use ticketflow.Cache.Service.{invalidate_ticket_caches}
use ticketflow.Webhooks.{Codec, schedule_webhook_event}
use ticketflow.Api.App.{App, consume}
use ticketflow.Api.Tickets.{
  Environment, create, announce_ticket, created_fields, rate_limit_exception, or_one,
}

-- A call of Redis that fails admits the request.
open_link :
    (R : Commands.Redis) (link : Link) (key : String) (limit window : ℕ) (s : R.State)
    → link ≢ works
    → (consume_rate_limit R link key limit window s).0.allowed ≡ true
unfolding consume_rate_limit decide
open_link R works key limit window s h = absurd (h refl)
open_link R down key limit window s h = refl
open_link R lost key limit window s h = refl

or_one-some : (m : ℕ) → 1 ≤ m → or_one (some m) ≡ m
or_one-some zero h = absurd (omega arith)
or_one-some (suc m) h = refl

module _ (limiter : Commands.Redis) (redis : Redis) (codec : Codec) (uuid_str : ℕ → String) where
  module _ (request : Environment) (customer : User) (title description : Text)
      (category : TicketCategory) (priority : TicketPriority)
      (app : App limiter.State redis.State) where
    abbrev pub opened_ticket : Ticket
    opened_ticket = record {
      id = request.new_id;
      customer_id = customer.id;
      title = title;
      description = description;
      category = category;
      priority = priority;
      status = opened;
      created_at = request.now;
      updated_at = request.now;
    }

    -- The limiter's decision on this customer, and the counters after it.
    abbrev pub limited : RateLimitDecision × limiter.State
    limited =
        consume_rate_limit limiter request.link (ticket_create_rate_limit_key uuid_str customer.id)
          ticket_create_rate_limit rate_limit_window_seconds app.counters

    -- The customer's key, and the requests that its counter has.
    abbrev pub key : String
    key = Prim.Native.String.◌++◌ "rate_limit:ticket_create:" (uuid_str customer.id)

    abbrev pub used : ℕ
    used = limiter.count key app.counters

    -- Where the script ran, the customer's counter has one more, and no other has changed.
    abbrev pub Counted : App limiter.State redis.State → Type 0
    Counted app' =
        (j : String)
        → limiter.count j app'.counters
          ≡ (if key == j then used + 1 else limiter.count j app.counters)

    -- The data of the event.
    abbrev pub announced : JsonObject
    announced =
        ("ticket_id", uuid request.new_id)
        ∷ ("customer_id", uuid customer.id)
        ∷ ("title", text title)
        ∷ ("category", word (category_value category))
        ∷ ("priority", word (priority_value priority))
        ∷ ("status", word (status_value opened))
        ∷ ("created_at", instant request.now)
        ∷ []

    -- What a request that is admitted has done.
    pub record Created (app' : App limiter.State redis.State) : Type 0 where
      pub db : app'.db ≡ record app.db { tickets = opened_ticket ∷ app.db.tickets }
      pub cache : app'.cache ≡ invalidate_ticket_caches redis request.executing app.cache
      pub tasks :
          app'.tasks
          ≡ app.tasks
            ++ schedule_webhook_event codec request.event_id request.now ticket_created announced
                app'.db
      pub sendings : app'.sendings ≡ app.sendings
      pub connections : app'.connections ≡ app.connections

    abbrev done : Result Ticket × App limiter.State redis.State
    done =
        create limiter redis codec uuid_str request customer title description category priority app

    decided :
        (limited.0.allowed ≡ true → (done.0 ≡ ok opened_ticket) × Created done.1)
        × (limited.0.allowed ≡ false
            → (done.0 ≡ err (rate_limit_exception (or_one limited.0.retry_after_seconds)))
              × (done.1 ≡ record app { counters = limited.1 }))
        × (done.1.counters ≡ limited.1)
    unfolding create consume announce_ticket create_ticket created_fields
    decided = elim (Bool-cases limited.0.allowed) [
      | inl good ↦
          rw (good, create)
            (
              λ _. (
                refl,
                record {
                  db = refl;
                  cache = refl;
                  tasks = refl;
                  sendings = refl;
                  connections = refl;
                },
              ),
              (λ h. cc),
              refl,
            )
      | inr bad ↦ rw (bad, create) ((λ h. cc), (λ _. (refl, refl)), refl)
    ]

    -- With a working link to Redis, a customer whose counter is below 30 gets an OPEN ticket: exactly its row
    -- is added, the caches are invalidated, and the webhook of the new ticket is scheduled with the ticket's
    -- data; from 30 on the request raises 429 with a time to wait of at least a second, and changes nothing but
    -- the counters. Either way the customer's counter has one more and no other changes. Without a working
    -- link the ticket is created, whatever the counter.
    pub create_exact :
        let (r, app') =
          create limiter redis codec uuid_str request customer title description category priority
            app in
        (request.link ≡ works → used < 30 → (r ≡ ok opened_ticket) × Created app')
        × (request.link ≡ works
            → 30 ≤ used
            → (app' ≡ record app { counters = app'.counters })
              × ((seconds : ℕ) × (1 ≤ seconds)
                  × (r
                      ≡ err (
                          api_exception 429 "RATE_LIMIT_EXCEEDED"
                            "Too many requests. Please try again later."
                            (retry_after seconds ∷ [])))))
        × (request.link ≡ works → Counted app')
        × (request.link ≢ works → (r ≡ ok opened_ticket) × Created app')
    unfolding ticket_create_rate_limit_key
    create_exact =
        let (admits, refuses, counters) = decided in
        let (n, (allowed, retry, timed, counts)) =
          consume_rate_limit_exact limiter key 30 60 app.counters in
        (
          λ e low. admits (rw (e, allowed) (ground arith)),
          λ e high.
              let (raised, kept) = refuses (rw (e, allowed) (ground arith)) in
              let wait : ℕ = max ((n + 500) / 1000) 1 in
              let told : limited.0.retry_after_seconds ≡ some wait = rw (e, retry) (ground arith) in
              (
                kept ∙ ap (λ k. record app { counters = k }) (sym counters),
                (
                  wait,
                  omega arith,
                  raised
                      ∙ ap (λ o. err (rate_limit_exception (or_one o))) told
                      ∙ ap (λ k. err (rate_limit_exception k)) (or_one-some wait (omega arith)),
                ),
              ),
          λ e j. ap (limiter.count j) counters ∙ rw e (counts j),
          λ e. admits (open_link limiter request.link key 30 60 app.counters e),
        )
