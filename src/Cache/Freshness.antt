-- ===== src/Cache/Freshness.antt =====
-- The endpoints of app/api/v1/tickets.py and app/api/v1/dashboard.py that read through the caches, beside
-- the database.
use ticketflow.Base.{
  ℕ, true, false, if◌then◌else◌, ◌≡◌, refl, sym, ap, ◌∙◌, subst, ◌⊎◌, inl, inr, Bool, Option, none,
  some, Option-cases,
}
use ticketflow.Base.Text.{Text, text_eq}
use ticketflow.Models.{User, Db}
use ticketflow.Tickets.Query.{ListParameters, TicketPage, list_tickets, binds}
use ticketflow.Dashboard.{DashboardStats, calculate_dashboard_stats}
use ticketflow.Cache.Libraries.{
  Redis, Json, Printer, number, json, Fault, works, down, lost, Faults,
}
use ticketflow.Cache.Keys.{
  dashboard_stats_key, ticket_list_key, ticket_list_key-dashboard, version_key-dashboard,
}
use ticketflow.Cache.Service.{
  key_for, read_json, resolve_ticket_list_cache_key, get_cached_ticket_list, set_cached_ticket_list,
  get_cached_dashboard_stats, set_cached_dashboard_stats, get_list, get_stats,
}
use ticketflow.Cache.Coherence.{
  IsCoherent, version_key, set_nx-IsCoherent, after-IsCoherent, key_version, same_version,
  set-IsCoherent, set_elsewhere,
}

nothing : {A : Type 0} {a : A} → ¬ (none ≡ some a)
nothing h = cc

module _ (redis : Redis) (printer : Printer) (j : Json redis.Document TicketPage)
    (k : Json redis.Document DashboardStats) (ilike : Text → Text → Bool) where
  open redis use {State, get, set, set_nx, incr, delete}

  abbrev Coherent : Db → State → Type 0
  Coherent = IsCoherent redis printer j k ilike

  -- The key that a request resolves is that of the current version, or there is none.
  resolved :
      (setting getting : Fault) (user : User) (p : ListParameters) (db : Db) (s : State)
      → Coherent db s
      → let (key, s') = resolve_ticket_list_cache_key redis setting getting printer user p s in
        (h : Coherent db s') × ((key ≡ none)
          ⊎ (key ≡ some (ticket_list_key printer h.version user p)))
  unfolding resolve_ticket_list_cache_key
  resolved down getting user p db s h = (h, inl refl)
  resolved lost getting user p db s h = (set_nx-IsCoherent redis printer j k ilike db s h, inl refl)
  resolved works down user p db s h = (set_nx-IsCoherent redis printer j k ilike db s h, inl refl)
  resolved works lost user p db s h = (set_nx-IsCoherent redis printer j k ilike db s h, inl refl)
  resolved works works user p db s h =
      let h' = set_nx-IsCoherent redis printer j k ilike db s h in
      let o = get version_key (set_nx version_key (number 1) s) in
      (
        h',
        elim (Option-cases (key_for redis printer user p o)) [
          | inl e ↦ inl e
          | inr (key, e) ↦
              let (n, f, g) = key_version redis printer j k ilike user p o key e in
              inr (
                e
                ∙ ap some (
                    g
                    ∙ ap (λ m. ticket_list_key printer m user p)
                        (sym (same_version redis printer j k ilike o h'.version n h'.known f))))
        ],
      )

  -- A cached answer that is right, or a computed one that is stored.
  served :
      {A : Type 0} (cached : Option A) (a : A) (db : Db) (s s' : State)
      → ((x : A) → cached ≡ some x → x ≡ a)
      → Coherent db s
      → Coherent db s'
      → let r : A × State = elim cached [ some x ↦ (x, s) | none ↦ (a, s') ] in
        (r.0 ≡ a) × Coherent db r.1
  served none a db s s' f h h' = (refl, h')
  served (some x) a db s s' f h h' = (f x refl, h)

  -- The same for a list that may not be computed.
  served_list :
      (cached : Option TicketPage) (a : TicketPage) (b : Bool) (db : Db) (s s' : State)
      → ((x : TicketPage) → cached ≡ some x → x ≡ a)
      → Coherent db s
      → Coherent db s'
      → let r : Option TicketPage × State = elim cached [
        | some x ↦ (some x, s)
        | none ↦ if b then (some a, s') else (none, s)
      ] in
        ((r.0 ≡ some a) ⊎ ((r.0 ≡ none) × (b ≡ false))) × Coherent db r.1
  served_list none a true db s s' f h h' = (inl refl, h')
  served_list none a false db s s' f h h' = (inr (refl, refl), h)
  served_list (some x) a b db s s' f h h' = (inl (ap some (f x refl)), h)

  cached_list :
      (reading : Fault) (user : User) (p : ListParameters) (db : Db) (s : State) (h : Coherent db s)
      (key : Option Text) (page : TicketPage)
      → (key ≡ none) ⊎ (key ≡ some (ticket_list_key printer h.version user p))
      → get_cached_ticket_list redis reading j key s ≡ some page
      → page ≡ list_tickets ilike user p db
  unfolding get_cached_ticket_list
  cached_list reading user p db s h key page (inl e) f =
      absurd (nothing (rw (e, get_cached_ticket_list) at f))
  cached_list down user p db s h key page (inr e) f =
      absurd (nothing (rw (e, get_cached_ticket_list) at f))
  cached_list lost user p db s h key page (inr e) f =
      absurd (nothing (rw (e, get_cached_ticket_list) at f))
  cached_list works user p db s h key page (inr e) f =
      h.lists user p page (rw (e, get_cached_ticket_list) at f)

  stored_list :
      (writing : Fault) (user : User) (p : ListParameters) (db : Db) (s : State) (h : Coherent db s)
      (key : Option Text)
      → (key ≡ none) ⊎ (key ≡ some (ticket_list_key printer h.version user p))
      → Coherent db (set_cached_ticket_list redis writing j key (list_tickets ilike user p db) s)
  unfolding set_cached_ticket_list
  stored_list writing user p db s h key (inl e) = rw (e, set_cached_ticket_list) h
  stored_list writing user p db s h key (inr e) =
      rw (e, set_cached_ticket_list)
        (after-IsCoherent redis printer j k ilike db _ writing s h
          (set-IsCoherent redis printer j k ilike db s user p h))

  -- Where the cache agrees with the database, `get_list` returns exactly what `list_tickets` returns
  -- for this user and these parameters, whichever of its calls of Redis fail, or raises, and that only where
  -- the statement's values do not reach the database; the cache still agrees with the database.
  pub get_list_fresh :
      (faults : Faults) (most : ℕ) (user : User) (p : ListParameters) (db : Db) (s : State)
      → IsCoherent redis printer j k ilike db s
      → let (r, s') = get_list redis faults printer j ilike most user p db s in
        ((r ≡ some (list_tickets ilike user p db)) ⊎ ((r ≡ none) × (binds most p ≡ false)))
        × IsCoherent redis printer j k ilike db s'
  unfolding get_list
  get_list_fresh faults most user p db s h =
      let (h', keys) = resolved faults.setting faults.getting user p db s h in
      let (key, s') =
        resolve_ticket_list_cache_key redis faults.setting faults.getting printer user p s in
      served_list (get_cached_ticket_list redis faults.reading j key s')
        (list_tickets ilike user p db) (binds most p) db s' _
        (λ page. cached_list faults.reading user p db s' h' key page keys) h'
        (stored_list faults.writing user p db s' h' key keys)

  -- Storing the statistics of the database.
  stats-Coherent :
      (db : Db) (s : State)
      → Coherent db s
      → Coherent db (set dashboard_stats_key (json (k.dump (calculate_dashboard_stats db))) s)
  unfolding read_json
  stats-Coherent db s h =
      let v = json (k.dump (calculate_dashboard_stats db)) in
      let elsewhere =
        λ (key : Text). set_elsewhere redis printer j k ilike key dashboard_stats_key v s in
      record {
        version = h.version;
        known =
            subst (λ o. ((o ≡ none) × (h.version ≡ 1)) ⊎ (o ≡ some (number h.version)))
              (sym (elsewhere version_key (λ e. version_key-dashboard (sym e)))) h.known;
        lists = λ u q page e.
            h.lists u q page
              (rw (elsewhere _ (ticket_list_key-dashboard printer h.version u q)) at e);
        later = λ n u q l. elsewhere _ (ticket_list_key-dashboard printer n u q) ∙ h.later n u q l;
        stats = λ x e.
            let f : some (calculate_dashboard_stats db) ≡ some x =
              rw
                (
                  redis.get-set dashboard_stats_key dashboard_stats_key v s,
                  read_json,
                  k.validate-dump (calculate_dashboard_stats db),
                )
                at e in
            cc;
      }

  cached_stats :
      (reading : Fault) (db : Db) (s : State) (x : DashboardStats)
      → Coherent db s
      → get_cached_dashboard_stats redis reading k s ≡ some x
      → x ≡ calculate_dashboard_stats db
  unfolding get_cached_dashboard_stats
  cached_stats works db s x h f = h.stats x f
  cached_stats down db s x h f = absurd (nothing f)
  cached_stats lost db s x h f = absurd (nothing f)

  -- Where the cache agrees with the database, `get_stats` returns the statistics of the database,
  -- whether or not its calls of Redis fail, and the cache still agrees with the database.
  pub get_stats_fresh :
      (reading writing : Fault) (db : Db) (s : State)
      → IsCoherent redis printer j k ilike db s
      → let (x, s') = get_stats redis reading writing k db s in
        (x ≡ calculate_dashboard_stats db) × IsCoherent redis printer j k ilike db s'
  unfolding get_stats set_cached_dashboard_stats
  get_stats_fresh reading writing db s h =
      served (get_cached_dashboard_stats redis reading k s) (calculate_dashboard_stats db) db s _
        (λ x. cached_stats reading db s x h) h
        (after-IsCoherent redis printer j k ilike db _ writing s h (stats-Coherent db s h))
