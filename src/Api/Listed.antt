-- ===== src/Api/Listed.antt =====
-- What `get_list` of app/api/v1/tickets.py answers, to whom and for which parameters.
use mathlib.Core.Option.{some-injective}
use ticketflow.Base.{
  nat_eq, true, false, ◌⊎◌, subst, ℕ, ◌≤◌, ◌*◌, ◌-◌, ◌≡◌, refl, sym, ap, ◌∙◌, inl, inr, Bool,
  Option, none, some, arith, length, length-take-le, All, All_of, All-take, All-drop, All-order_by,
  Elem, Option-cases, drop, order_by,
}
use ticketflow.Base.Text.{Text}
use ticketflow.Exec.{Error, Result, ok, err}
use ticketflow.Models.{User, Ticket, Db}
use ticketflow.Tickets.Query.{
  ListParameters, TicketPage, list_tickets, matching, newest_first, binds,
}
use ticketflow.Tickets.Binding.{Reaches, binds_iff}
use ticketflow.Tickets.Listing.{Wanted, matching_iff}
use ticketflow.Dashboard.{DashboardStats}
use ticketflow.Auth.Libraries.{Jwt, Uuids, Letters, Settings}
use ticketflow.Auth.Deps.{Credentials, get_current_user}
use ticketflow.Cache.Libraries.{Redis, Json, Printer, Faults}
use ticketflow.Cache.Service
use ticketflow.Cache.Coherence.{IsCoherent}
use ticketflow.Cache.Freshness.{get_list_fresh}
use ticketflow.Api.Queries.{
  TicketQuery, list_parameters, Means, list_parameters_iff, page_size_bound,
}
use ticketflow.Api.App.{App}
use ticketflow.Auth.Guards.{user-Reads}
use ticketflow.Api.Reads.{
  Reply, raised, unprocessable, answered, failed, shown, behind, behind-ok, behind-err,
}
use ticketflow.Api.Reads

module _ (ilike : Text → Text → Bool) (u : User) (p : ListParameters) (db : Db) where
  -- The page for an account and the parameters that the query string stands for.
  pub record IsPageOf (page : TicketPage) : Type 0 where
    pub computed : page ≡ list_tickets ilike u p db
    pub items : All (λ t. Elem t db.tickets × Wanted ilike u p t) page.items
    pub short : length page.items ≤ 100

  listed-IsPageOf : p.page_size ≤ 100 → IsPageOf (list_tickets ilike u p db)
  unfolding list_tickets
  listed-IsPageOf most =
      let P : Ticket → Type 0 = λ t. Elem t db.tickets × Wanted ilike u p t in
      let skipped =
        drop ((p.page - 1) * p.page_size) (order_by newest_first (matching ilike u p db)) in
      let size = length-take-le p.page_size skipped in
      record {
        computed = refl;
        items = All-take P p.page_size skipped (
            All-drop P ((p.page - 1) * p.page_size) _ (
              All-order_by newest_first P (matching ilike u p db)
                (All_of (matching ilike u p db) (λ t m. (matching_iff ilike u p db t).0 m))));
        short = omega (arith, size, most);
      }

-- What a request is owed: the exception of its dependency, the refusal of a query string that stands for no
-- parameters, or its page; a page that is not cached is computed only where the statement reaches the database,
-- else the request ends in a 500.
pub record IsOwed (ilike : Text → Text → Bool) (most : ℕ) (who : Result User) (query : TicketQuery)
    (db : Db) (r : Reply TicketPage) : Type 0 where
  pub refused : (e : Error) → who ≡ err e → r ≡ raised e
  pub invalid :
      (u : User) → who ≡ ok u → ((p : ListParameters) → ¬ Means query p) → r ≡ unprocessable
  pub page :
      (u : User) (p : ListParameters)
      → who ≡ ok u
      → Means query p
      → Reaches most p
      → (shown : TicketPage) × (r ≡ answered shown) × IsPageOf ilike u p db shown
  pub beyond :
      (u : User) (p : ListParameters)
      → who ≡ ok u
      → Means query p
      → (r ≡ failed) ⊎ ((shown : TicketPage) × (r ≡ answered shown) × IsPageOf ilike u p db shown)

answered_ok : {u v : User} → Path (Result User) (ok u) (ok v) → u ≡ v
answered_ok h = cc

raised_err : {e x : Error} → Path (Result User) (err e) (err x) → e ≡ x
raised_err h = cc

either : {u : User} {e : Error} → ¬ Path (Result User) (ok u) (err e)
either h = cc

module _ (ilike : Text → Text → Bool) (most : ℕ) (who : Result User) (query : TicketQuery)
    (db : Db) where
  raised-IsOwed : (e : Error) → who ≡ err e → IsOwed ilike most who query db (raised e)
  raised-IsOwed e w = record {
    refused = λ x q. ap raised (raised_err (sym w ∙ q));
    invalid = λ u q _. absurd (either (sym q ∙ w));
    page = λ u p q _ _. absurd (either (sym q ∙ w));
    beyond = λ u p q _. absurd (either (sym q ∙ w));
  }

  unprocessable-IsOwed :
      (u : User)
      → who ≡ ok u
      → list_parameters query ≡ none
      → IsOwed ilike most who query db unprocessable
  unprocessable-IsOwed u w none_read = record {
    refused = λ e q. absurd (either (sym w ∙ q));
    invalid = λ v q _. refl;
    page = λ v p q m _. let e = (list_parameters_iff query p).1 m in cc;
    beyond = λ v p q m. let e = (list_parameters_iff query p).1 m in cc;
  }

  -- The page belongs to every account and parameters that the request stands for.
  its_page :
      (u : User) (p : ListParameters) (page : TicketPage)
      → who ≡ ok u
      → list_parameters query ≡ some p
      → page ≡ list_tickets ilike u p db
      → (v : User) (p' : ListParameters) → who ≡ ok v
      → Means query p'
      → IsPageOf ilike v p' db page
  its_page u p page w read e v p' q m =
      let same_user : u ≡ v = answered_ok (sym w ∙ q) in
      let same : p ≡ p' = some-injective _ _ (sym read ∙ (list_parameters_iff query p').1 m) in
      subst (IsPageOf ilike v p' db)
        (ap (λ (x : User). list_tickets ilike x p' db) (sym same_user)
          ∙ ap (λ (x : ListParameters). list_tickets ilike u x db) (sym same)
          ∙ sym e)
        (listed-IsPageOf ilike v p' db (page_size_bound query p' m))

  answered-IsOwed :
      (u : User) (p : ListParameters) (page : TicketPage)
      → who ≡ ok u
      → list_parameters query ≡ some p
      → page ≡ list_tickets ilike u p db
      → IsOwed ilike most who query db (answered page)
  answered-IsOwed u p page w read e = record {
    refused = λ x q. absurd (either (sym w ∙ q));
    invalid = λ v q n. absurd (n p ((list_parameters_iff query p).0 read));
    page = λ v p' q m _. (page, refl, its_page u p page w read e v p' q m);
    beyond = λ v p' q m. inr (page, refl, its_page u p page w read e v p' q m);
  }

  failed-IsOwed :
      (u : User) (p : ListParameters)
      → who ≡ ok u
      → list_parameters query ≡ some p
      → binds most p ≡ false
      → IsOwed ilike most who query db failed
  failed-IsOwed u p w read unbound = record {
    refused = λ x q. absurd (either (sym w ∙ q));
    invalid = λ v q n. absurd (n p ((list_parameters_iff query p).0 read));
    page = λ v p' q m reaches.
        let same : p ≡ p' = some-injective _ _ (sym read ∙ (list_parameters_iff query p').1 m) in
        let bound : binds most p ≡ true =
          (binds_iff most p).1 (subst (Reaches most) (sym same) reaches) in
        cc;
    beyond = λ v p' q m. inl refl;
  }

  shown-IsOwed :
      (u : User) (p : ListParameters) (r : Option TicketPage)
      → who ≡ ok u
      → list_parameters query ≡ some p
      → (r ≡ some (list_tickets ilike u p db)) ⊎ ((r ≡ none) × (binds most p ≡ false))
      → IsOwed ilike most who query db (shown r)
  shown-IsOwed u p r w read (inl e) =
      rw e (answered-IsOwed u p (list_tickets ilike u p db) w read refl)
  shown-IsOwed u p r w read (inr (e, unbound)) = rw e (failed-IsOwed u p w read unbound)

module _ (redis : Redis) {Counters : Type 0} (jwt : Jwt) (uuids : Uuids) (settings : Settings)
    (letters : Letters) (printer : Printer) (j : Json redis.Document TicketPage)
    (k : Json redis.Document DashboardStats) (ilike : Text → Text → Bool) (most : ℕ) where
  -- Where the cache agrees with the database, and whichever calls of Redis fail: a request whose dependency
  -- raises is answered with that exception, and of the others one whose query string stands for no parameters,
  -- numbers within their bounds and a text of at most 200 characters, is refused. Any other is answered with
  -- its page, that of `list_tickets`, which shows at most 100 tickets, all stored, within the user's scope and
  -- asked for; only where its OFFSET is too large for the driver, or its text has the character 0, it may end
  -- in a 500 instead. Nothing but the cache is written, and it still agrees with the database.
  pub get_list-IsOwed :
      (faults : Faults) (now : ℕ) (credentials : Option (Credentials jwt.Token))
      (query : TicketQuery) (app : App Counters redis.State)
      → IsCoherent redis printer j k ilike app.db app.cache
      → let (r, app') =
          Reads.get_list redis jwt uuids settings letters printer j ilike most faults now
            credentials query app in
        IsOwed ilike most
          (get_current_user jwt uuids settings letters now credentials app.db).0
          query
          app.db
          r
        × (app' ≡ record app { cache = app'.cache })
        × IsCoherent redis printer j k ilike app.db app'.cache
  unfolding Reads.get_list behind
  get_list-IsOwed faults now credentials query app h =
      let db = app.db in
      let m = get_current_user jwt uuids settings letters now credentials in
      let handler : User → App Counters redis.State → Reply TicketPage × App Counters redis.State =
        λ user app. elim (list_parameters query) [
          | none ↦ (unprocessable, app)
          | some p ↦
              let (page, cache) =
                Service.get_list redis faults printer j ilike most user p app.db app.cache in
              (shown page, record app { cache = cache })
        ] in
      let T : Reply TicketPage × App Counters redis.State → Type 0 = λ x.
        IsOwed ilike most (m db).0 query db x.0
        × (x.1 ≡ record app { cache = x.1.cache })
        × IsCoherent redis printer j k ilike db x.1.cache in
      elim (user-Reads jwt uuids settings letters now credentials db) [
        | inr (e, w) ↦
            let who = ap (λ r. r.0) w in
            subst T (sym (behind-err m handler app e w))
              (raised-IsOwed ilike most (m db).0 query db e who, refl, h)
        | inl (u, w) ↦
            let who = ap (λ r. r.0) w in
            subst T (sym (behind-ok m handler app u w))
              (elim (Option-cases (list_parameters query)) [
                | inl e ↦ rw e (unprocessable-IsOwed ilike most (m db).0 query db u who e, refl, h)
                | inr (p, e) ↦
                    let (fresh, h') =
                      get_list_fresh redis printer j k ilike faults most u p db app.cache h in
                    rw e (shown-IsOwed ilike most (m db).0 query db u p _ who e fresh, refl, h')
              ])
      ]
