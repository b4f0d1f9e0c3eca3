-- ===== src/Schemas/Patches.antt =====
-- What a body must give for `TicketUpdateRequest` of app/schemas/ticket.py.
use ticketflow.Base.{
  ◌≡◌, ◌≢◌, refl, sym, ap, ◌∙◌, subst, ◌↔◌, inl, inr, true, false, not, Option, none, some, List,
  [], ◌∷◌, String, any, filter, Elem, Elem-filter, Bool-cases, if◌then◌else◌, ◌==◌, string_eq,
}
use ticketflow.Base.Text.{Text}
use ticketflow.Models.{TicketCategory, TicketPriority, category_members, priority_members}
use ticketflow.Tickets.Mutation.{FieldUpdate}
use ticketflow.Schemas.Values.{Json, Body, lookup}
use ticketflow.Schemas.Requests.{
  TicketUpdateRequest, ticket_fields, is_none, is_null, require_non_null_update,
}
use ticketflow.Schemas.Reading.{OnlyNames, Stripped, Names}
use ticketflow.Schemas.Acceptance.{some-injective}

-- The body sets the field so.
abbrev pub Sets : Body → FieldUpdate → Type 0
Sets body (FieldUpdate.title t) = Stripped 1 200 "title" body t
Sets body (FieldUpdate.description t) = Stripped 1 10000 "description" body t
Sets body (FieldUpdate.category c) = Names category_members "category" body c
Sets body (FieldUpdate.priority p) = Names priority_members "priority" body p

abbrev pub field_name : FieldUpdate → String
field_name (FieldUpdate.title t) = "title"
field_name (FieldUpdate.description t) = "description"
field_name (FieldUpdate.category c) = "category"
field_name (FieldUpdate.priority p) = "priority"

abbrev pub fields_set : Body → List String
fields_set body = filter (λ name. not (is_none (lookup name body))) ticket_fields

given_true : {A : Type 0} (o : Option A) → o ≢ none → not (is_none o) ≡ true
given_true none n = absurd (n refl)
given_true (some a) n = refl

pub in_set :
    (body : Body) (name : String)
    → Elem name ticket_fields
    → lookup name body ≢ none
    → Elem name (fields_set body)
in_set body name m n =
    Elem-filter (λ k. not (is_none (lookup k body))) ticket_fields name m
      (given_true (lookup name body) n)

pub lookup_head : (k : String) (v : Json) (rest : Body) → lookup k ((k, v) ∷ rest) ≢ none
lookup_head k v rest h = let c : some v ≡ none = rw ((string_eq.test_iff k k).1 refl) at h in cc

-- A body with those names only is empty exactly if no field is set.
pub set_empty_iff :
    (body : Body) → OnlyNames ticket_fields body → (fields_set body ≡ []) ↔ (body ≡ [])
set_empty_iff [] h = (λ e. refl, λ e. refl)
set_empty_iff ((k, v) ∷ rest) h = (
  λ e.
      let m : Elem k [] = subst (Elem k) e (in_set ((k, v) ∷ rest) k h.0 (lookup_head k v rest)) in
      elim m [ ],
  λ e. cc,
)

pub require_iff :
    (r r' : TicketUpdateRequest)
    → (require_non_null_update r ≡ some r')
      ↔ ((r ≡ r') × (r.model_fields_set ≢ []) × (any (is_null r) r.model_fields_set ≡ false))
unfolding require_non_null_update
require_iff r r' = go r.model_fields_set
  where
    go :
        (xs : List String)
        → ((elim xs [
          | [] ↦ none
          | name ∷ names ↦ if any (is_null r) (name ∷ names) then none else some r
        ]
              ≡ some r')
            ↔ ((r ≡ r') × (xs ≢ []) × (any (is_null r) xs ≡ false)))
    go [] = (λ h. cc, λ (a, b, c). absurd (b refl))
    go (x ∷ xs) = elim (Bool-cases (any (is_null r) (x ∷ xs))) [
      | inl e ↦ rw e (λ h. cc, λ (a, b, c). cc)
      | inr e ↦ rw e (λ h. (some-injective r r' h, (λ k. cc), refl), λ (a, b, c). ap some a)
    ]

-- Every field that the body gives is one that it may set, with a value that it may have.
abbrev pub Acceptable : Body → Type 0
Acceptable body =
    (name : String)
    → lookup name body ≢ none
    → (u : FieldUpdate) × (field_name u ≡ name) × Sets body u

pub field_name-Elem : (u : FieldUpdate) → Elem (field_name u) ticket_fields
field_name-Elem (FieldUpdate.title t) = inl refl
field_name-Elem (FieldUpdate.description t) = inr (inl refl)
field_name-Elem (FieldUpdate.category c) = inr (inr (inl refl))
field_name-Elem (FieldUpdate.priority p) = inr (inr (inr (inl refl)))

-- A name of an entry is found, in a body with more entries too.
pub lookup_more :
    (name k : String) (v : Json) (rest : Body)
    → lookup name rest ≢ none
    → lookup name ((k, v) ∷ rest) ≢ none
lookup_more name k v rest n h = elim (Bool-cases (k == name)) [
  | inl e ↦ let c : some v ≡ none = rw e at h in cc
  | inr e ↦ n (rw e at h)
]

only_names :
    (body : Body)
    → ((name : String) → lookup name body ≢ none → Elem name ticket_fields)
    → OnlyNames ticket_fields body
only_names [] f = tt
only_names ((k, v) ∷ rest) f =
    (f k (lookup_head k v rest), only_names rest (λ name n. f name (lookup_more name k v rest n)))

pub Acceptable-OnlyNames : (body : Body) → Acceptable body → OnlyNames ticket_fields body
Acceptable-OnlyNames body f =
    only_names body (λ name n.
      let (u, e, _) = f name n in subst (λ k. Elem k ticket_fields) e (field_name-Elem u))

-- The two names differ.
apart : (j k : String) → (j == k) ≡ false → j ≢ k
apart j k h e = let c = (string_eq.test_iff j k).1 e in let d : true ≡ false = sym c ∙ h in cc

module _ (body : Body) (f : Acceptable body) where
  pub set_title : lookup "title" body ≢ none → (t : Text) × Stripped 1 200 "title" body t
  set_title n = let (u, e, sets) = f "title" n in go u e sets
    where
      go :
          (u : FieldUpdate)
          → field_name u ≡ "title"
          → Sets body u
          → (t : Text) × Stripped 1 200 "title" body t
      go (FieldUpdate.title t) e sets = (t, sets)
      go (FieldUpdate.description t) e sets = absurd (apart "description" "title" refl e)
      go (FieldUpdate.category c) e sets = absurd (apart "category" "title" refl e)
      go (FieldUpdate.priority p) e sets = absurd (apart "priority" "title" refl e)

  pub set_description :
      lookup "description" body ≢ none → (t : Text) × Stripped 1 10000 "description" body t
  set_description n = let (u, e, sets) = f "description" n in go u e sets
    where
      go :
          (u : FieldUpdate)
          → field_name u ≡ "description"
          → Sets body u
          → (t : Text) × Stripped 1 10000 "description" body t
      go (FieldUpdate.description t) e sets = (t, sets)
      go (FieldUpdate.title t) e sets = absurd (apart "title" "description" refl e)
      go (FieldUpdate.category c) e sets = absurd (apart "category" "description" refl e)
      go (FieldUpdate.priority p) e sets = absurd (apart "priority" "description" refl e)

  pub set_category :
      lookup "category" body ≢ none
      → (c : TicketCategory) × Names category_members "category" body c
  set_category n = let (u, e, sets) = f "category" n in go u e sets
    where
      go :
          (u : FieldUpdate)
          → field_name u ≡ "category"
          → Sets body u
          → (c : TicketCategory) × Names category_members "category" body c
      go (FieldUpdate.category c) e sets = (c, sets)
      go (FieldUpdate.title t) e sets = absurd (apart "title" "category" refl e)
      go (FieldUpdate.description t) e sets = absurd (apart "description" "category" refl e)
      go (FieldUpdate.priority p) e sets = absurd (apart "priority" "category" refl e)

  pub set_priority :
      lookup "priority" body ≢ none
      → (p : TicketPriority) × Names priority_members "priority" body p
  set_priority n = let (u, e, sets) = f "priority" n in go u e sets
    where
      go :
          (u : FieldUpdate)
          → field_name u ≡ "priority"
          → Sets body u
          → (p : TicketPriority) × Names priority_members "priority" body p
      go (FieldUpdate.priority p) e sets = (p, sets)
      go (FieldUpdate.title t) e sets = absurd (apart "title" "priority" refl e)
      go (FieldUpdate.description t) e sets = absurd (apart "description" "priority" refl e)
      go (FieldUpdate.category c) e sets = absurd (apart "category" "priority" refl e)
