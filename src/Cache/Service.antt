-- ===== src/Cache/Service.antt =====
-- app/services/cache_service.py, and the two endpoints that read through the caches: `get_list` of
-- app/api/v1/tickets.py and `get_stats` of app/api/v1/dashboard.py. Responses are the pages and the
-- statistics that they carry.
use ticketflow.Base.{ℕ, Bool, true, false, Option, none, some, if◌then◌else◌}
use ticketflow.Base.Text.{Text}
use ticketflow.Models.{User, Db}
use ticketflow.Tickets.Query.{ListParameters, TicketPage, list_tickets, binds}
use ticketflow.Dashboard.{DashboardStats, calculate_dashboard_stats}
use ticketflow.Cache.Libraries.{
  Redis, Json, Printer, Stored, number, json, Fault, works, down, lost, Faults,
}
use ticketflow.Cache.Keys.{ticket_list_version_key, dashboard_stats_key, ticket_list_key}

-- What a failed call leaves: nothing, or its effect with the answer lost.
abbrev pub after : {S : Type 0} → Fault → (S → S) → S → S
after works f s = f s
after lost f s = f s
after down f s = s

abbrev pub answers : Fault → Bool
answers works = true
answers _ = false

module _ (redis : Redis) where
  open redis use {State, get, set, set_nx, incr, delete}

  -- `int(raw_version)`: TypeError for None and ValueError for another text give no key.
  unfoldable pub key_for :
      Printer → User → ListParameters → Option (Stored redis.Document) → Option Text
  key_for printer user p (some (number version)) = some (ticket_list_key printer version user p)
  key_for printer user p _ = none

  -- The faults are those of SET and of GET.
  unfoldable pub resolve_ticket_list_cache_key :
      (setting getting : Fault) → Printer → User → ListParameters → State → Option Text × State
  unfolding key_for
  resolve_ticket_list_cache_key setting getting printer user p s =
      let s' = after setting (set_nx ticket_list_version_key (number 1)) s in
      (
        elim setting [
          | works ↦
              if answers getting
              then key_for printer user p (get ticket_list_version_key s')
              else none
          | down ↦ none
          | lost ↦ none
        ],
        s',
      )

  -- What a stored text holds as JSON; a number is no response.
  unfoldable pub read_json :
      {A : Type 0} → Json redis.Document A → Option (Stored redis.Document) → Option A
  read_json j none = none
  read_json j (some (number n)) = none
  read_json j (some (json t)) = j.validate t

  unfoldable pub get_cached_ticket_list :
      Fault → Json redis.Document TicketPage → Option Text → State → Option TicketPage
  unfolding read_json
  get_cached_ticket_list getting j none s = none
  get_cached_ticket_list getting j (some key) s =
      if answers getting then read_json j (get key s) else none

  unfoldable pub set_cached_ticket_list :
      Fault → Json redis.Document TicketPage → Option Text → TicketPage → State → State
  set_cached_ticket_list setting j none response s = s
  set_cached_ticket_list setting j (some key) response s =
      after setting (set key (json (j.dump response))) s

  unfoldable pub get_cached_dashboard_stats :
      Fault → Json redis.Document DashboardStats → State → Option DashboardStats
  unfolding read_json
  get_cached_dashboard_stats getting j s =
      if answers getting then read_json j (get dashboard_stats_key s) else none

  unfoldable pub set_cached_dashboard_stats :
      Fault → Json redis.Document DashboardStats → DashboardStats → State → State
  set_cached_dashboard_stats setting j response s =
      after setting (set dashboard_stats_key (json (j.dump response))) s

  -- The commands of the transaction run together or not at all.
  unfoldable pub invalidate_ticket_caches : Fault → State → State
  invalidate_ticket_caches executing = after executing (λ s.
      delete dashboard_stats_key
        (incr ticket_list_version_key (set_nx ticket_list_version_key (number 1) s)))

  -- `get_list`, from the cache lookup on; none where `list_tickets` raises.
  unfoldable pub get_list :
      Faults
      → Printer
      → Json redis.Document TicketPage
      → (ilike : Text → Text → Bool) (most : ℕ) → User
      → ListParameters
      → Db
      → State
      → Option TicketPage × State
  get_list faults printer j ilike most user p db s =
      let (cache_key, s') =
        resolve_ticket_list_cache_key faults.setting faults.getting printer user p s in
      let response = list_tickets ilike user p db in
      elim (get_cached_ticket_list faults.reading j cache_key s') [
        | some cached ↦ (some cached, s')
        | none ↦
            if binds most p
            then (some response, set_cached_ticket_list faults.writing j cache_key response s')
            else (none, s')
      ]

  -- `get_stats`, for an agent.
  unfoldable pub get_stats :
      (reading writing : Fault)
      → Json redis.Document DashboardStats
      → Db
      → State
      → DashboardStats × State
  get_stats reading writing j db s =
      let response = calculate_dashboard_stats db in
      elim (get_cached_dashboard_stats reading j s) [
        | some cached ↦ (cached, s)
        | none ↦ (response, set_cached_dashboard_stats writing j response s)
      ]
