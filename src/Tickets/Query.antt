-- ===== src/Tickets/Query.antt =====
-- The reading half of app/services/ticket_service.py: the error and page types, SQL-level scoping,
-- the filtered and paginated list, and the escaping of the search text.
use ticketflow.Base.{
  leb, any, ℕ, ◌+◌, ◌-◌, ◌*◌, ◌/◌, Bool, ◌&&◌, ◌||◌, Option, none, some, List, [], ◌∷◌, ◌++◌, not,
  ltb, ◌==◌, nat_eq, if◌then◌else◌, length, take, drop, filter, find, order_by, all,
}
use ticketflow.Base.Text.{Text, strip}
use ticketflow.Exec.{Exec, ticket_not_found, or_raise, ◌>>=◌, gets}
use ticketflow.Models.{
  User, Ticket, Db, TicketStatus, TicketPriority, TicketCategory, customer, role_eq, status_eq,
  priority_eq, category_eq,
}

pub record TicketPage : Type 0 where
  pub items : List Ticket
  pub page : ℕ
  pub page_size : ℕ
  pub total : ℕ
  pub pages : ℕ

-- The keyword arguments of `list_tickets`, which are also the cache's key parameters.
pub record ListParameters : Type 0 where
  pub status : Option TicketStatus
  pub priority : Option TicketPriority
  pub category : Option TicketCategory
  pub query : Option Text
  pub page : ℕ
  pub page_size : ℕ

abbrev pub Condition : Type 0
Condition = Ticket → Bool

-- `if current_user.role == CUSTOMER: … where(Ticket.customer_id == current_user.id)`
unfoldable pub scope_conditions : User → List Condition
scope_conditions user = if user.role == customer then (λ t. t.customer_id == user.id) ∷ [] else []

unfoldable pub get_accessible_ticket : ℕ → User → Exec Db Ticket
get_accessible_ticket ticket_id user = do
  found ← gets (λ db.
      find (λ t. all (λ p. p t) ((λ t'. t'.id == ticket_id) ∷ scope_conditions user)) db.tickets)
  or_raise found ticket_not_found

-- `value.replace(c, with)` for a text of one character.
unfoldable pub replace : ℕ → Text → Text → Text
replace c new [] = []
replace c new (d ∷ s) = (if d == c then new else d ∷ []) ++ replace c new s

abbrev pub backslash : ℕ
backslash = 92

abbrev pub percent : ℕ
percent = 37

abbrev pub underscore : ℕ
underscore = 95

unfoldable pub escape_like : Text → Text
unfolding replace
escape_like value = replace underscore (backslash ∷ underscore ∷ []) (
    replace percent (backslash ∷ percent ∷ [])
      (replace backslash (backslash ∷ backslash ∷ []) value))

-- `Ticket.created_at.desc(), Ticket.id.desc()`
unfoldable pub newest_first : Ticket → Ticket → Bool
newest_first a b =
    ltb b.created_at a.created_at || (b.created_at == a.created_at && not (ltb a.id b.id))

unfoldable pub normalized_query : Option Text → Text
normalized_query none = []
normalized_query (some q) = strip q

-- `if value is not None: conditions.append(…)`
unfoldable pub when_given : {A : Type 0} → Option A → (A → Condition) → List Condition
when_given none f = []
when_given (some v) f = f v ∷ []

-- `(total + page_size - 1) // page_size if total else 0`
unfoldable pub count_pages : (total page_size : ℕ) → ℕ
count_pages total page_size = if total == 0 then 0 else (total + page_size - 1) / page_size

-- The values of the statement reach the database: the driver refuses an OFFSET beyond the largest integer
-- that it binds, the argument `most`, and PostgreSQL a text with the character 0. Else the call raises.
unfoldable pub binds : (most : ℕ) → ListParameters → Bool
unfolding normalized_query
binds most p =
    leb ((p.page - 1) * p.page_size) most && not (any (λ c. c == 0) (normalized_query p.query))

-- `column.ilike(pattern, escape="\\")` is PostgreSQL's.
module _ (ilike : Text → Text → Bool) where
  unfoldable pub search_conditions : Text → List Condition
  search_conditions [] = []
  search_conditions (c ∷ q) =
      let pattern = percent ∷ escape_like (c ∷ q) ++ percent ∷ [] in
      (λ t. ilike pattern t.title || ilike pattern t.description) ∷ []

  unfoldable pub filter_conditions : ListParameters → List Condition
  filter_conditions p =
      when_given p.status (λ s t. t.status == s)
      ++ (when_given p.priority (λ s t. t.priority == s)
          ++ (when_given p.category (λ s t. t.category == s)
              ++ search_conditions (normalized_query p.query)))

  unfoldable pub conditions : User → ListParameters → List Condition
  conditions user p = scope_conditions user ++ filter_conditions p

  -- `select(Ticket).where(*conditions)`
  unfoldable pub matching : User → ListParameters → Db → List Ticket
  matching user p db = filter (λ t. all (λ c. c t) (conditions user p)) db.tickets

  -- The page where the statements run, which `binds` says. The request validation gives `page` and
  -- `page_size` at least 1.
  unfoldable pub list_tickets : User → ListParameters → Db → TicketPage
  list_tickets user p db =
      let found = matching user p db in
      let total = length found in
      record {
        items = take p.page_size (drop ((p.page - 1) * p.page_size) (order_by newest_first found));
        page = p.page;
        page_size = p.page_size;
        total = total;
        pages = count_pages total p.page_size;
      }
