-- ===== src/Tickets/Listing.antt =====
-- Which rows `list_tickets` of app/services/ticket_service.py returns.
use ticketflow.Base.{
  ◌≡◌, refl, ◌↔◌, ◌⊎◌, Bool, true, ◌&&◌, Option, none, some, List, [], ◌∷◌, ◌++◌, arith, all, Elem,
  ◌==◌, nat_eq, Elem-filter, filter_subset, filter_passes, All_at, Equality,
}
use ticketflow.Base.Text.{Text}
use ticketflow.Models.{User, Ticket, Db, role_eq, status_eq, priority_eq, category_eq}
use ticketflow.Tickets.Query.{
  scope_conditions, conditions, filter_conditions, search_conditions, normalized_query, matching,
  ListParameters, Condition, when_given, percent, escape_like,
}
use ticketflow.Tickets.Access.{MaySee}

-- What one optional filter asks: nothing where it is absent, else that the field is the value.
abbrev pub Asks : {A : Type 0} → Option A → A → Type 0
Asks none a = Unit
Asks (some v) a = a ≡ v

-- What the text search asks: nothing of an empty query, else that the title or the description
-- matches the pattern of the escaped query.
abbrev pub AsksText : (Text → Text → Bool) → Text → Ticket → Type 0
AsksText ilike [] t = Unit
AsksText ilike (c ∷ q) t =
    let pattern = percent ∷ escape_like (c ∷ q) ++ percent ∷ [] in
    (ilike pattern t.title ≡ true) ⊎ (ilike pattern t.description ≡ true)

abbrev pub Wanted : (Text → Text → Bool) → User → ListParameters → Ticket → Type 0
Wanted ilike u p t =
    MaySee u t
    × Asks p.status t.status
    × Asks p.priority t.priority
    × Asks p.category t.category
    × AsksText ilike (normalized_query p.query) t

all-append {ℓ} :
    {A : Type ℓ} (f : A → Bool) (xs ys : List A) → all f (xs ++ ys) ≡ (all f xs && all f ys)
all-append f [] ys = refl
all-append f (x ∷ xs) ys = ground (arith, all-append f xs ys)

append_iff :
    {A B : Type 0} (t : Ticket) (cs ds : List Condition)
    → (all (λ c. c t) cs ≡ true) ↔ A
    → (all (λ c. c t) ds ≡ true) ↔ B
    → (all (λ c. c t) (cs ++ ds) ≡ true) ↔ (A × B)
append_iff t cs ds f g = (
  λ h.
      let e : (all (λ c. c t) cs && all (λ c. c t) ds) ≡ true = rw all-append at h in
      let parts : (all (λ c. c t) cs ≡ true) × (all (λ c. c t) ds ≡ true) = ground arith in
      (f.0 parts.0, g.0 parts.1),
  λ h. rw (all-append, f.1 h.0, g.1 h.1),
)

filter_iff :
    {A : Type 0} ⦃e : Equality A⦄ (field : Ticket → A) (o : Option A) (t : Ticket)
    → (all (λ (c : Condition). c t) (when_given o (λ s t'. field t' == s)) ≡ true)
      ↔ Asks o (field t)
unfolding when_given
filter_iff field none t = (λ _. tt, λ _. refl)
filter_iff ⦃e⦄ field (some s) t =
    (λ h. (e.test_iff (field t) s).0 (ground arith), λ h. rw ((e.test_iff (field t) s).1 h))

scope_iff :
    (u : User) (t : Ticket)
    → (all (λ (c : Condition). c t) (scope_conditions u) ≡ true) ↔ MaySee u t
unfolding scope_conditions
scope_iff u t = ground arith

search_iff :
    (ilike : Text → Text → Bool) (q : Text) (t : Ticket)
    → (all (λ (c : Condition). c t) (search_conditions ilike q) ≡ true) ↔ AsksText ilike q t
unfolding search_conditions
search_iff ilike [] t = (λ _. tt, λ _. refl)
search_iff ilike (c ∷ q) t = ground arith

conditions_iff :
    (ilike : Text → Text → Bool) (u : User) (p : ListParameters) (t : Ticket)
    → (all (λ c. c t) (conditions ilike u p) ≡ true) ↔ Wanted ilike u p t
unfolding conditions filter_conditions
conditions_iff ilike u p t =
    let text = search_conditions ilike (normalized_query p.query) in
    let with_category = when_given p.category (λ s x. x.category == s) in
    let with_priority = when_given p.priority (λ s x. x.priority == s) in
    let with_status = when_given p.status (λ s x. x.status == s) in
    let e =
      append_iff t (scope_conditions u) (with_status ++ (with_priority ++ (with_category ++ text)))
        (scope_iff u t)
        (append_iff t with_status (with_priority ++ (with_category ++ text))
          (filter_iff (λ x. x.status) p.status t)
          (append_iff t with_priority (with_category ++ text)
            (filter_iff (λ x. x.priority) p.priority t)
            (append_iff t with_category text (filter_iff (λ x. x.category) p.category t)
              (search_iff ilike (normalized_query p.query) t)))) in
    (
      λ h. let (a, (b, (c, (d, f)))) = e.0 h in (a, b, c, d, f),
      λ (a, b, c, d, f). e.1 (a, (b, (c, (d, f)))),
    )

-- A row matches the statement of `list_tickets` exactly when it is stored, the user may see it,
-- and it passes every filter that is given and the text search.
pub matching_iff :
    (ilike : Text → Text → Bool) (u : User) (p : ListParameters) (db : Db) (t : Ticket)
    → Elem t (matching ilike u p db) ↔ (Elem t db.tickets × Wanted ilike u p t)
unfolding matching
matching_iff ilike u p db t = (
  λ m. (
    filter_subset _ db.tickets t m,
    (conditions_iff ilike u p t).0 (
        All_at (λ x. all (λ c. c x) (conditions ilike u p) ≡ true) (matching ilike u p db)
          (filter_passes _ db.tickets) t m),
  ),
  λ h. Elem-filter _ db.tickets t h.0 ((conditions_iff ilike u p t).1 h.1),
)
