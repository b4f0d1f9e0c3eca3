-- ===== src/Cache/Invalidation.antt =====
-- The caches after `invalidate_ticket_caches` of app/services/cache_service.py.
use ticketflow.Base.{ℕ, ◌+◌, ◌<◌, ◌≡◌, ◌≢◌, refl, ◌∙◌, inr, Bool, Option, none, some, arith}
use ticketflow.Base.Text.{Text, text_eq}
use ticketflow.Models.{User, Db}
use ticketflow.Tickets.Query.{ListParameters, TicketPage}
use ticketflow.Dashboard.{DashboardStats}
use ticketflow.Cache.Libraries.{
  Redis, Json, Printer, Stored, number, Fault, works, down, lost, bump,
}
use ticketflow.Cache.Keys.{
  dashboard_stats_key, ticket_list_key, ticket_list_key-version, ticket_list_key-dashboard,
}
use ticketflow.Cache.Service.{read_json, invalidate_ticket_caches}
use ticketflow.Cache.Coherence.{apart, IsCoherent, version_key, nx_elsewhere, nx_version, started}

nothing : {A : Type 0} {a : A} → ¬ (none ≡ some a)
nothing h = cc

module _ (redis : Redis) (printer : Printer) (j : Json redis.Document TicketPage)
    (k : Json redis.Document DashboardStats) (ilike : Text → Text → Bool) where
  open redis use {State, get, set, set_nx, incr, delete}

  abbrev Coherent : Db → State → Type 0
  Coherent = IsCoherent redis printer j k ilike

  bumped :
      (o : Option (Stored redis.Document)) (version : ℕ)
      → o ≡ some (number version)
      → bump o ≡ some (number (version + 1))
  bumped o version h = rw h refl

  abbrev reset : State → State
  reset s = delete dashboard_stats_key (incr version_key (set_nx version_key (number 1) s))

  reset_elsewhere :
      (key : Text) (s : State)
      → ¬ (key ≡ dashboard_stats_key)
      → ¬ (key ≡ version_key)
      → get key (reset s) ≡ get key s
  reset_elsewhere key s n m =
      rw
        (
          redis.get-delete key dashboard_stats_key
              (incr version_key (set_nx version_key (number 1) s)),
          apart key dashboard_stats_key n,
          redis.get-incr key version_key (set_nx version_key (number 1) s),
          apart key version_key m,
          nx_elsewhere redis printer j k ilike key s m,
        )
        refl

  reset_version :
      (version : ℕ) (s : State)
      → get version_key (set_nx version_key (number 1) s) ≡ some (number version)
      → get version_key (reset s) ≡ some (number (version + 1))
  reset_version version s h =
      rw
        (
          redis.get-delete version_key dashboard_stats_key
              (incr version_key (set_nx version_key (number 1) s)),
          redis.get-incr version_key version_key (set_nx version_key (number 1) s),
        )
        (bumped _ version h)

  invalidated : (db db' : Db) (s : State) → Coherent db s → Coherent db' (reset s)
  unfolding read_json
  invalidated db db' s h =
      let unused : (n : ℕ) (u : User) (q : ListParameters)
          → h.version < n
          → get (ticket_list_key printer n u q) (reset s) ≡ none =
        λ n u q l.
          reset_elsewhere _ s (ticket_list_key-dashboard printer n u q)
            (ticket_list_key-version printer n u q)
          ∙ h.later n u q l in
      record {
        version = h.version + 1;
        known = inr (
            reset_version h.version s (
              nx_version redis printer j k ilike s
              ∙ started redis printer j k ilike (get version_key s) h.version h.known));
        lists = λ u q page e.
            absurd (nothing (rw (unused (h.version + 1) u q (omega arith), read_json) at e));
        later = λ n u q l. unused n u q (omega arith);
        stats = λ x e. absurd (
            nothing (
              rw
                (
                  redis.get-delete dashboard_stats_key dashboard_stats_key
                      (incr version_key (set_nx version_key (number 1) s)),
                  read_json,
                )
                at e));
      }

  -- Whatever was written to the database meanwhile: where the cache agreed with the database of before,
  -- it agrees with the one of now once `invalidate_ticket_caches` has run.
  pub invalidate_ticket_caches_fresh :
      (executing : Fault) (db db' : Db) (s : State)
      → executing ≢ down
      → IsCoherent redis printer j k ilike db s
      → IsCoherent redis printer j k ilike db' (invalidate_ticket_caches redis executing s)
  unfolding invalidate_ticket_caches
  invalidate_ticket_caches_fresh down db db' s n h = absurd (n refl)
  invalidate_ticket_caches_fresh works db db' s n h = invalidated db db' s h
  invalidate_ticket_caches_fresh lost db db' s n h = invalidated db db' s h
