-- ===== src/Cache/Tests.antt =====
-- The cache at the sample rows.
use ticketflow.Base.{
  ℕ, zero, suc, ◌≡◌, refl, ap, ◌⊎◌, inl, inr, Bool, false, Option, none, some, [], ◌∷◌, arith,
}
use ticketflow.Base.Text.{Text, text_eq, strip, lstrip, rstrip, is_space}
use ticketflow.Models.{
  Db, TicketStatus, TicketPriority, TicketCategory, opened, in_progress, resolved, closed, low,
  medium, high, billing, technical, general,
}
use ticketflow.Base.Int.{pos}
use ticketflow.Auth.Security.{create_access_token}
use ticketflow.Auth.Deps.{Credentials, bearer, get_current_user}
use ticketflow.Auth.Samples.{jwt, uuids, settings, letters}
use ticketflow.Api.App.{App}
use ticketflow.Api.Queries.{TicketQuery}
use ticketflow.Api.Reads
use ticketflow.Api.Listed.{IsOwed, get_list-IsOwed}
use ticketflow.Models.Samples.{ann, first, second, desk}
use ticketflow.Tickets.Query.{ListParameters, TicketPage, list_tickets, binds, normalized_query}
use ticketflow.Dashboard.{DashboardStats}
use ticketflow.Cache.Libraries.{Json, Printer, Canonical, works, lost, Faults, NoColon}
use ticketflow.Cache.Table.{Document, State, redis}
use ticketflow.Cache.Keys.{ticket_list_key, canonical_parameters, none_if_empty}
use ticketflow.Cache.Service.{read_json, get_list, invalidate_ticket_caches}
use ticketflow.Cache.Scope.{SameScope, list_tickets-key}
use ticketflow.Cache.Coherence.{IsCoherent}
use ticketflow.Cache.Freshness.{get_list_fresh}
use ticketflow.Cache.Invalidation.{invalidate_ticket_caches_fresh}

abbrev as_page : Document → Option TicketPage
as_page (inl p) = some p
as_page (inr x) = none

abbrev as_stats : Document → Option DashboardStats
as_stats (inl p) = none
as_stats (inr x) = some x

abbrev pages : Json Document TicketPage
pages = record { dump = λ p. inl p; validate = as_page; validate-dump = λ p. refl }

abbrev stats : Json Document DashboardStats
stats = record { dump = λ x. inr x; validate = as_stats; validate-dump = λ x. refl }

-- A number as so many strokes.
abbrev strokes : ℕ → Text
strokes zero = []
strokes (suc n) = 49 ∷ strokes n

strokes-NoColon : (n : ℕ) → NoColon (strokes n)
strokes-NoColon zero = tt
strokes-NoColon (suc n) = (omega arith, strokes-NoColon n)

strokes-injective : (m n : ℕ) → strokes m ≡ strokes n → m ≡ n
strokes-injective zero zero h = refl
strokes-injective zero (suc n) h = cc
strokes-injective (suc m) zero h = cc
strokes-injective (suc m) (suc n) h =
    let t : strokes m ≡ strokes n = cc in ap suc (strokes-injective m n t)

abbrev status_code : Option TicketStatus → ℕ
status_code none = 0
status_code (some opened) = 1
status_code (some in_progress) = 2
status_code (some resolved) = 3
status_code (some closed) = 4

abbrev priority_code : Option TicketPriority → ℕ
priority_code none = 0
priority_code (some low) = 1
priority_code (some medium) = 2
priority_code (some high) = 3

abbrev category_code : Option TicketCategory → ℕ
category_code none = 0
category_code (some billing) = 1
category_code (some technical) = 2
category_code (some general) = 3

abbrev text_code : Option Text → Text
text_code none = []
text_code (some t) = 0 ∷ t

abbrev coded : Canonical → Text
coded c =
    category_code c.category
    ∷ c.page
    ∷ c.page_size
    ∷ priority_code c.priority
    ∷ status_code c.status
    ∷ text_code c.q

status_code-injective : (a b : Option TicketStatus) → status_code a ≡ status_code b → a ≡ b
status_code-injective a b h = ground arith

priority_code-injective : (a b : Option TicketPriority) → priority_code a ≡ priority_code b → a ≡ b
priority_code-injective a b h = ground arith

category_code-injective : (a b : Option TicketCategory) → category_code a ≡ category_code b → a ≡ b
category_code-injective a b h = ground arith

text_code-injective : (a b : Option Text) → text_code a ≡ text_code b → a ≡ b
text_code-injective none none h = refl
text_code-injective none (some t) h = cc
text_code-injective (some s) none h = cc
text_code-injective (some s) (some t) h = cc

coded-injective : (c d : Canonical) → coded c ≡ coded d → c ≡ d
coded-injective c d h =
    let a : c.category ≡ d.category = category_code-injective c.category d.category (cc) in
    let b : c.page ≡ d.page = cc in
    let e : c.page_size ≡ d.page_size = cc in
    let f : c.priority ≡ d.priority = priority_code-injective c.priority d.priority (cc) in
    let g : c.status ≡ d.status = status_code-injective c.status d.status (cc) in
    let i : c.q ≡ d.q = text_code-injective c.q d.q (cc) in cc

abbrev printer : Printer
printer = record {
  str_int = strokes;
  str_uuid = strokes;
  filter_hash = coded;
  int-NoColon = strokes-NoColon;
  uuid-NoColon = strokes-NoColon;
  int-injective = strokes-injective;
  uuid-injective = strokes-injective;
  hash-injective = coded-injective;
}

abbrev never : Text → Text → Bool
never p s = false

abbrev everything : ListParameters
everything = record {
  status = none;
  priority = none;
  category = none;
  query = none;
  page = 1;
  page_size = 20;
}

-- The same request, with a query of nothing but a space.
abbrev spaced : ListParameters
spaced = record everything { query = some (32 ∷ []) }

abbrev empty : State
empty k = none

empty-IsCoherent : IsCoherent redis printer pages stats never desk empty
unfolding read_json
empty-IsCoherent = record {
  version = 1;
  known = inl (refl, refl);
  lists = λ u p page h. absurd (no_page page h);
  later = λ n u p l. refl;
  stats = λ x h. absurd (no_stats x h);
}
  where
    no_page : (page : TicketPage) → ¬ (read_json redis pages none ≡ some page)
    no_page page h = cc

    no_stats : (x : DashboardStats) → ¬ (read_json redis stats none ≡ some x)
    no_stats x h = cc

-- The list is written, but the answer to the write is lost.
abbrev faults : Faults
faults = record { setting = works; getting = works; reading = works; writing = lost }

first_page_fresh :
    let (page, s) = get_list redis faults printer pages never 1000000 ann everything desk empty in
    ((page ≡ some (list_tickets never ann everything desk))
      ⊎ ((page ≡ none) × (binds 1000000 everything ≡ false)))
    × IsCoherent redis printer pages stats never desk s
first_page_fresh =
    get_list_fresh redis printer pages stats never faults 1000000 ann everything desk empty
      empty-IsCoherent

-- One ticket fewer.
abbrev desk' : Db
desk' = record desk { tickets = first ∷ second ∷ [] }

invalidate_ticket_caches_fresh_example :
    let (page, s) = get_list redis faults printer pages never 1000000 ann everything desk empty in
    IsCoherent redis printer pages stats never desk' (invalidate_ticket_caches redis works s)
invalidate_ticket_caches_fresh_example =
    invalidate_ticket_caches_fresh redis printer pages stats never works desk desk'
      (get_list redis faults printer pages never 1000000 ann everything desk empty).1 (λ e. cc)
      first_page_fresh.1

same_key : ticket_list_key printer 1 ann everything ≡ ticket_list_key printer 1 ann spaced
unfolding ticket_list_key canonical_parameters normalized_query strip lstrip rstrip is_space
    none_if_empty
same_key = refl

list_tickets-key_example :
    Path ℕ 1 1
    × SameScope ann ann
    × (list_tickets never ann everything desk ≡ list_tickets never ann spaced desk)
list_tickets-key_example =
    list_tickets-key printer never 1 1 ann ann everything spaced desk same_key

-- The first page of two tickets, for eve.
abbrev two_each : TicketQuery
two_each = record {
  status = none;
  priority = none;
  category = none;
  q = none;
  page = none;
  page_size = some (pos 2);
}

abbrev application : App Unit State
application = record {
  counters = tt;
  cache = empty;
  db = desk;
  connections = [];
  sendings = [];
  tasks = [];
}

abbrev eve_asks : Option (Credentials jwt.Token)
eve_asks = some (record { scheme = bearer; token = create_access_token jwt uuids settings 1000 3 })

get_list-IsOwed_example :
    let (r, app') =
      Reads.get_list redis jwt uuids settings letters printer pages never 1000000 faults 1500
        eve_asks two_each application in
    IsOwed never 1000000
      (get_current_user jwt uuids settings letters 1500 eve_asks desk).0
      two_each
      desk
      r
    × (app' ≡ record application { cache = app'.cache })
    × IsCoherent redis printer pages stats never desk app'.cache
get_list-IsOwed_example =
    get_list-IsOwed redis {Counters = Unit} jwt uuids settings letters printer pages stats never
      1000000 faults 1500 eve_asks two_each application empty-IsCoherent
