-- ===== src/Cache/Coherence.antt =====
-- Caches of app/services/cache_service.py that agree with the database, and the single commands on them.
use ticketflow.Base.{
  ℕ, ◌<◌, ◌≡◌, refl, sym, ◌∙◌, subst, ◌⊎◌, inl, inr, Bool, false, Option, none, some, arith,
  Bool-cases, ◌==◌,
}
use ticketflow.Base.Text.{Text, text_eq, text_beq_iff}
use ticketflow.Models.{User, Db}
use ticketflow.Tickets.Query.{ListParameters, TicketPage, list_tickets}
use ticketflow.Dashboard.{DashboardStats, calculate_dashboard_stats}
use ticketflow.Cache.Libraries.{
  Redis, Json, Printer, Stored, number, json, Fault, works, down, lost, kept_or,
}
use ticketflow.Cache.Keys.{
  ticket_list_version_key, dashboard_stats_key, ticket_list_key, ticket_list_key-version,
  ticket_list_key-dashboard, version_key-dashboard,
}
use ticketflow.Cache.Service.{after, key_for, read_json}
use ticketflow.Cache.Scope.{list_tickets-key}

pub apart : (j k : Text) → ¬ (j ≡ k) → (j == k) ≡ false
apart j k n = elim (Bool-cases (j == k)) [ inl e ↦ absurd (n ((text_beq_iff j k).0 e)) | inr e ↦ e ]

abbrev pub version_key : Text
version_key = ticket_list_version_key

-- What Redis holds agrees with the database: every readable list of the current version is the answer
-- to every request with its key, no later version has a list, and readable statistics are current.
module _ (redis : Redis) (printer : Printer) (j : Json redis.Document TicketPage)
    (k : Json redis.Document DashboardStats) (ilike : Text → Text → Bool) where
  open redis use {State, get, set, set_nx, incr, delete}

  pub record IsCoherent (db : Db) (s : State) : Type 0 where
    pub version : ℕ
    pub known :
        ((get ticket_list_version_key s ≡ none) × (version ≡ 1))
        ⊎ (get ticket_list_version_key s ≡ some (number version))
    pub lists :
        (user : User) (p : ListParameters) (page : TicketPage)
        → read_json redis j (get (ticket_list_key printer version user p) s) ≡ some page
        → page ≡ list_tickets ilike user p db
    pub later :
        (n : ℕ) (user : User) (p : ListParameters)
        → version < n
        → get (ticket_list_key printer n user p) s ≡ none
    pub stats :
        (x : DashboardStats)
        → read_json redis k (get dashboard_stats_key s) ≡ some x
        → x ≡ calculate_dashboard_stats db

  -- SET NX of the version changes no other entry.
  pub nx_elsewhere :
      (key : Text) (s : State)
      → ¬ (key ≡ version_key)
      → get key (set_nx version_key (number 1) s) ≡ get key s
  nx_elsewhere key s n =
      rw (redis.get-set_nx key version_key (number 1) s, apart key version_key n) refl

  pub nx_version :
      (s : State)
      → get version_key (set_nx version_key (number 1) s) ≡ kept_or (number 1) (get version_key s)
  nx_version s = rw (redis.get-set_nx version_key version_key (number 1) s) refl

  pub started :
      (o : Option (Stored redis.Document)) (version : ℕ)
      → ((o ≡ none) × (version ≡ 1)) ⊎ (o ≡ some (number version))
      → kept_or (number 1) o ≡ some (number version)
  started o version (inl (e, f)) = rw (e, f) refl
  started o version (inr e) = rw e refl

  pub set_nx-IsCoherent :
      (db : Db) (s : State) → IsCoherent db s → IsCoherent db (set_nx version_key (number 1) s)
  set_nx-IsCoherent db s h = record {
    version = h.version;
    known = inr (nx_version s ∙ started (get version_key s) h.version h.known);
    lists = λ u p page e.
        h.lists u p page
          (rw (nx_elsewhere _ s (ticket_list_key-version printer h.version u p)) at e);
    later = λ n u p l. nx_elsewhere _ s (ticket_list_key-version printer n u p) ∙ h.later n u p l;
    stats = λ x e. h.stats x (rw (nx_elsewhere dashboard_stats_key s version_key-dashboard) at e);
  }

  pub after-IsCoherent :
      (db : Db) (f : State → State) (fault : Fault) (s : State)
      → IsCoherent db s
      → IsCoherent db (f s)
      → IsCoherent db (after fault f s)
  after-IsCoherent db f works s h g = g
  after-IsCoherent db f lost s h g = g
  after-IsCoherent db f down s h g = h

  -- A key that is stored under is the key of the current version.
  pub key_version :
      (user : User) (p : ListParameters) (o : Option (Stored redis.Document)) (key : Text)
      → key_for redis printer user p o ≡ some key
      → (n : ℕ) × (o ≡ some (number n)) × (key ≡ ticket_list_key printer n user p)
  unfolding key_for
  key_version user p none key h = cc
  key_version user p (some (number n)) key h = (n, refl, cc)
  key_version user p (some (json t)) key h = cc

  pub same_version :
      (o : Option (Stored redis.Document)) (version n : ℕ)
      → ((o ≡ none) × (version ≡ 1)) ⊎ (o ≡ some (number version))
      → o ≡ some (number n)
      → version ≡ n
  same_version o version n (inl (e, f)) g = cc
  same_version o version n (inr e) g =
      let q : some (number version) ≡ some (number n) = sym e ∙ g in cc

  pub set_elsewhere :
      (key at : Text) (v : Stored redis.Document) (s : State)
      → ¬ (key ≡ at)
      → get key (set at v s) ≡ get key s
  set_elsewhere key at v s n = rw (redis.get-set key at v s, apart key at n) refl

  -- Storing the current answer under a key of the current version.
  pub set-IsCoherent :
      (db : Db) (s : State) (user : User) (p : ListParameters) (h : IsCoherent db s)
      → IsCoherent db (
          set
            (ticket_list_key printer h.version user p)
            (json (j.dump (list_tickets ilike user p db)))
            s)
  unfolding read_json
  set-IsCoherent db s user p h =
      let at = ticket_list_key printer h.version user p in
      let v = json (j.dump (list_tickets ilike user p db)) in
      record {
        version = h.version;
        known =
            subst (λ o. ((o ≡ none) × (h.version ≡ 1)) ⊎ (o ≡ some (number h.version)))
              (sym (
                set_elsewhere version_key at v s
                  (λ e. ticket_list_key-version printer h.version user p (sym e))))
              h.known;
        lists = λ u q page e. elim (Bool-cases (ticket_list_key printer h.version u q == at)) [
          | inl same ↦
              let keys =
                list_tickets-key printer ilike h.version h.version u user q p db
                  ((text_beq_iff _ _).0 same) in
              let stored : get (ticket_list_key printer h.version u q) (set at v s) ≡ some v =
                rw (redis.get-set (ticket_list_key printer h.version u q) at v s, same) refl in
              let f : some (list_tickets ilike user p db) ≡ some page =
                rw (stored, read_json, j.validate-dump (list_tickets ilike user p db)) at e in
              let g : list_tickets ilike user p db ≡ page = cc in sym g ∙ sym keys.2
          | inr other ↦
              h.lists u q page
                (rw (redis.get-set (ticket_list_key printer h.version u q) at v s, other) at e)
        ];
        later = λ n u q l.
            set_elsewhere (ticket_list_key printer n u q) at v s (λ e.
              let m : n ≡ h.version =
                (list_tickets-key printer ilike n h.version u user q p db e).0 in
              omega arith)
            ∙ h.later n u q l;
        stats = λ x e. h.stats x (
            rw
              (set_elsewhere dashboard_stats_key at v s
                (λ q. ticket_list_key-dashboard printer h.version user p (sym q)))
              at e);
      }
