-- ===== src/Api/Reads.antt =====
-- The reads of app/api/v1: `get_list` and `get_detail` of tickets.py with their query parameters, `get_list`
-- of comments.py and `get_stats` of dashboard.py, each behind its dependency.
use ticketflow.Base.{ℕ, ◌≡◌, ap, Bool, Option, none, some, List}
use ticketflow.Base.Text.{Text}
use ticketflow.Exec.{Exec, Error, ok, err}
use ticketflow.Models.{User, Ticket, Comment, Db}
use ticketflow.Tickets.Query.{TicketPage, get_accessible_ticket}
use ticketflow.Comments.{list_comments}
use ticketflow.Dashboard.{DashboardStats}
use ticketflow.Auth.Libraries.{Jwt, Uuids, Letters, Settings}
use ticketflow.Auth.Deps.{Credentials, get_current_user, require_agent}
use ticketflow.Cache.Libraries.{Redis, Json, Printer, Fault, Faults}
use ticketflow.Cache.Service
use ticketflow.Api.Queries.{TicketQuery, list_parameters}
use ticketflow.Api.App.{App, in_db}

-- What a request is answered with: an exception of its dependency or its handler, the refusal of its
-- parameters, a response, or the 500 of an exception that no handler expects. FastAPI raises the
-- exceptions of dependencies before it refuses parameters.
pub data Reply (A : Type 0) : Type 0 where
  raised : Error → Reply A
  unprocessable : Reply A
  answered : A → Reply A
  failed : Reply A

abbrev pub shown : {A : Type 0} → Option A → Reply A
shown none = failed
shown (some a) = answered a

module _ {Counters Cache : Type 0} where
  -- A handler behind its dependency.
  unfoldable pub behind :
      {A : Type 0}
      → Exec Db User
      → (User → App Counters Cache → Reply A × App Counters Cache)
      → App Counters Cache
      → Reply A × App Counters Cache
  behind dependency handler app =
      let (who, app') = in_db dependency app in
      elim who [ err e ↦ (raised e, app') | ok user ↦ handler user app' ]

  abbrev pub reply_of :
      {A : Type 0} → Exec (App Counters Cache) A → App Counters Cache → Reply A × App Counters Cache
  reply_of m app =
      let (r, app') = m app in elim r [ ok a ↦ (answered a, app') | err e ↦ (raised e, app') ]

  pub behind-ok :
      {A : Type 0} (m : Exec Db User)
      (handler : User → App Counters Cache → Reply A × App Counters Cache)
      (app : App Counters Cache) (u : User)
      → m app.db ≡ (ok u, app.db)
      → behind m handler app ≡ handler u app
  unfolding behind
  behind-ok m handler app u h =
      ap
        (λ r. elim r.0 [
          | err e ↦ (raised e, record app { db = r.1 })
          | ok user ↦ handler user (record app { db = r.1 })
        ])
        h

  pub behind-err :
      {A : Type 0} (m : Exec Db User)
      (handler : User → App Counters Cache → Reply A × App Counters Cache)
      (app : App Counters Cache) (e : Error)
      → m app.db ≡ (err e, app.db)
      → behind m handler app ≡ (raised e, app)
  unfolding behind
  behind-err m handler app e h =
      ap
        (λ r. elim r.0 [
          | err e ↦ (raised e, record app { db = r.1 })
          | ok user ↦ handler user (record app { db = r.1 })
        ])
        h

module _ (redis : Redis) {Counters : Type 0} (jwt : Jwt) (uuids : Uuids) (settings : Settings)
    (letters : Letters) where
  unfoldable pub get_detail :
      (now : ℕ)
      → Option (Credentials jwt.Token)
      → (ticket_id : ℕ) → App Counters redis.State
      → Reply Ticket × App Counters redis.State
  get_detail now credentials ticket_id =
      behind (get_current_user jwt uuids settings letters now credentials)
        (λ user. reply_of (in_db (get_accessible_ticket ticket_id user)))

  unfoldable pub get_comments :
      (now : ℕ)
      → Option (Credentials jwt.Token)
      → (ticket_id : ℕ) → App Counters redis.State
      → Reply (List Comment) × App Counters redis.State
  get_comments now credentials ticket_id =
      behind (get_current_user jwt uuids settings letters now credentials)
        (λ user. reply_of (in_db (list_comments ticket_id user)))

  unfoldable pub get_stats :
      (reading writing : Fault)
      → Json redis.Document DashboardStats
      → (now : ℕ) → Option (Credentials jwt.Token)
      → App Counters redis.State
      → Reply DashboardStats × App Counters redis.State
  get_stats reading writing j now credentials =
      behind (require_agent jwt uuids settings letters now credentials) (λ agent app.
        let (response, cache) = Service.get_stats redis reading writing j app.db app.cache in
        (answered response, record app { cache = cache }))

  module _ (printer : Printer) (j : Json redis.Document TicketPage) (ilike : Text → Text → Bool)
      (most : ℕ) where
    unfoldable pub get_list :
        Faults
        → (now : ℕ) → Option (Credentials jwt.Token)
        → TicketQuery
        → App Counters redis.State
        → Reply TicketPage × App Counters redis.State
    get_list faults now credentials query =
        behind (get_current_user jwt uuids settings letters now credentials) (λ user app.
          elim (list_parameters query) [
            | none ↦ (unprocessable, app)
            | some p ↦
                let (page, cache) =
                  Service.get_list redis faults printer j ilike most user p app.db app.cache in
                (shown page, record app { cache = cache })
          ])
