-- ===== src/Schemas/Patching.antt =====
-- Which bodies `TicketUpdateRequest` of app/schemas/ticket.py accepts, and what `update_open_ticket` is
-- then given.
use ticketflow.Base.{
  ℕ, ◌≡◌, ◌≢◌, refl, sym, ap, ◌∙◌, subst, ◌↔◌, ◌⊎◌, inl, inr, true, false, not, Option, none, some,
  List, [], ◌∷◌, ◌++◌, String, any, Elem, filter_subset, filter_passes, All_at, Bool-cases, ◌==◌,
  string_eq,
}
use ticketflow.Base.Text.{Text, strip}
use ticketflow.Models.{
  Enumeration, by_value_iff, TicketCategory, TicketPriority, category_members, priority_members,
}
use ticketflow.Tickets.Mutation.{FieldUpdate}
use ticketflow.Schemas.Values.{
  Json, Body, string, lookup, Pydantic, strip_text, forbid_extra, optional,
}
use ticketflow.Schemas.Requests.{
  TicketUpdateRequest, ticket_fields, is_none, is_null, dump_field, dump_set, ticket_update_request,
  update_fields,
}
use ticketflow.Schemas.Reading.{some_bind_iff, OnlyNames, forbid_extra_iff, Stripped, Names}
use ticketflow.Schemas.Acceptance.{some-injective}
use ticketflow.Schemas.Updates.{
  any-false_at, any-false, Elem-append_iff, Settled, strip-Reads, Names-Reads, optional-Settled,
  accept_optional, dump_field_iff,
}
use ticketflow.Schemas.Patches.{
  Sets, field_name, fields_set, in_set, set_empty_iff, require_iff, Acceptable,
  Acceptable-OnlyNames, set_title, set_description, set_category, set_priority,
}

-- What is known of the request that a body became.
record Validated (body : Body) (r : TicketUpdateRequest) : Type 0 where
  pub title : Settled "title" body (Stripped 1 200 "title" body) r.title
  pub description : Settled "description" body (Stripped 1 10000 "description" body) r.description
  pub category : Settled "category" body (Names category_members "category" body) r.category
  pub priority : Settled "priority" body (Names priority_members "priority" body) r.priority
  pub names : OnlyNames ticket_fields body
  pub set : r.model_fields_set ≡ fields_set body
  pub some_set : fields_set body ≢ []

module _ (pydantic : Pydantic) where
  abbrev text_check : ℕ → Json → Option Text
  text_check most v = pydantic.str_field 1 most (strip_text v)

  abbrev category_check : Json → Option TicketCategory
  category_check = pydantic.enum_field category_members

  abbrev priority_check : Json → Option TicketPriority
  priority_check = pydantic.enum_field priority_members

  request-Validated :
      (body : Body) (r : TicketUpdateRequest)
      → ticket_update_request pydantic body ≡ some r
      → Validated body r
  unfolding ticket_update_request is_null
  request-Validated body r h =
      let (u, a, h1) = (some_bind_iff (forbid_extra ticket_fields body) _ r).0 h in
      let (t, b, h2) = (some_bind_iff (optional (text_check 200) "title" body) _ r).0 h1 in
      let (d, c, h3) = (some_bind_iff (optional (text_check 10000) "description" body) _ r).0 h2 in
      let (k, e, h4) = (some_bind_iff (optional category_check "category" body) _ r).0 h3 in
      let (p, f, h5) = (some_bind_iff (optional priority_check "priority" body) _ r).0 h4 in
      let made : TicketUpdateRequest = record {
        title = t;
        description = d;
        category = k;
        priority = p;
        model_fields_set = fields_set body;
      } in
      let (same, filled, no_null) = (require_iff made r).0 h5 in
      let set : (name : String)
          → Elem name ticket_fields
          → lookup name body ≢ none
          → is_null made name ≡ false =
        λ name m n.
          any-false_at (is_null made) (fields_set body) name no_null (in_set body name m n) in
      subst (Validated body) same (record {
        title =
            optional-Settled (strip-Reads pydantic 200 "title" body) t b (set "title" (inl refl));
        description =
            optional-Settled (strip-Reads pydantic 10000 "description" body) d c
              (set "description" (inr (inl refl)));
        category =
            optional-Settled (Names-Reads pydantic category_members "category" body) k e
              (set "category" (inr (inr (inl refl))));
        priority =
            optional-Settled (Names-Reads pydantic priority_members "priority" body) p f
              (set "priority" (inr (inr (inr (inl refl)))));
        names = (forbid_extra_iff ticket_fields body).0 a;
        set = refl;
        some_set = filled;
      })

string-injective : (s t : Text) → string s ≡ string t → s ≡ t
string-injective s t h = cc

same_string :
    (name : String) (body : Body) {s t : Text}
    → lookup name body ≡ some (string s)
    → lookup name body ≡ some (string t)
    → s ≡ t
same_string name body {s} {t} e f =
    string-injective s t (some-injective (string s) (string t) (sym e ∙ f))

only_text :
    (lo hi : ℕ) (name : String) (body : Body) (a b : Text)
    → Stripped lo hi name body a
    → Stripped lo hi name body b
    → a ≡ b
only_text lo hi name body a b (s, e, q, _, _) (t, f, p, _, _) =
    q ∙ ap strip (same_string name body e f) ∙ sym p

only_member :
    {A : Type 0} (enum : Enumeration A) (name : String) (body : Body) (a b : A)
    → Names enum name body a
    → Names enum name body b
    → a ≡ b
only_member enum name body a b e f =
    let same : enum.value a ≡ enum.value b = same_string name body e f in
    let by_a = (by_value_iff ⦃enum = enum⦄ (enum.value a) a).1 refl in
    let by_b = (by_value_iff ⦃enum = enum⦄ (enum.value a) b).1 same in
    some-injective a b (sym by_a ∙ by_b)

lookup-names :
    (names : List String) (name : String) (body : Body)
    → OnlyNames names body
    → lookup name body ≢ none
    → Elem name names
lookup-names names name [] h n = absurd (n refl)
lookup-names names name ((k, v) ∷ rest) h n = elim (Bool-cases (k == name)) [
  | inl e ↦ subst (λ x. Elem x names) ((string_eq.test_iff k name).0 e) h.0
  | inr e ↦ lookup-names names name rest h.1 (λ q. n (rw e q))
]

settled_given :
    {A : Type 0} (name : String) (body : Body) (S : A → Type 0) (o : Option A)
    → lookup name body ≢ none
    → Settled name body S o
    → (a : A) × S a
unfolding Settled
settled_given name body S o n (inl (e, _)) = absurd (n e)
settled_given name body S o n (inr (a, _, sets)) = (a, sets)

Validated-Acceptable : (body : Body) (r : TicketUpdateRequest) → Validated body r → Acceptable body
Validated-Acceptable body r v name n = go (lookup-names ticket_fields name body v.names n) n
  where
    go :
        Elem name ticket_fields
        → lookup name body ≢ none
        → (u : FieldUpdate) × (field_name u ≡ name) × Sets body u
    go (inl e) k =
        let (t, sets) =
          settled_given "title" body (Stripped 1 200 "title" body) r.title
            (λ q. k (ap (λ x. lookup x body) e ∙ q)) v.title in
        (FieldUpdate.title t, sym e, sets)
    go (inr (inl e)) k =
        let (t, sets) =
          settled_given "description" body (Stripped 1 10000 "description" body) r.description
            (λ q. k (ap (λ x. lookup x body) e ∙ q)) v.description in
        (FieldUpdate.description t, sym e, sets)
    go (inr (inr (inl e))) k =
        let (c, sets) =
          settled_given "category" body (Names category_members "category" body) r.category
            (λ q. k (ap (λ x. lookup x body) e ∙ q)) v.category in
        (FieldUpdate.category c, sym e, sets)
    go (inr (inr (inr (inl e)))) k =
        let (p, sets) =
          settled_given "priority" body (Names priority_members "priority" body) r.priority
            (λ q. k (ap (λ x. lookup x body) e ∙ q)) v.priority in
        (FieldUpdate.priority p, sym e, sets)
    go (inr (inr (inr (inr m)))) k = absurd m

-- A member of a list in four parts.
four_iff :
    {A : Type 0} (u : A) (xs ys zs ws : List A)
    → Elem u (xs ++ ys ++ zs ++ ws) ↔ (((Elem u xs ⊎ Elem u ys) ⊎ Elem u zs) ⊎ Elem u ws)
four_iff u xs ys zs ws =
    let f = Elem-append_iff u (xs ++ ys ++ zs) ws in
    let g = Elem-append_iff u (xs ++ ys) zs in
    let h = Elem-append_iff u xs ys in
    (
      λ m. first_of (λ k. first_of h.0 (g.0 k)) (f.0 m),
      λ m. f.1 (first_of (λ k. g.1 (first_of h.1 k)) m),
    )
  where
    first_of : {P Q R : Type 0} → (P → Q) → P ⊎ R → Q ⊎ R
    first_of p (inl x) = inl (p x)
    first_of p (inr y) = inr y

module _ (pydantic : Pydantic) where
  dump_set_iff :
      (body : Body) (r : TicketUpdateRequest)
      → Validated body r
      → (u : FieldUpdate) → Elem u (dump_set r) ↔ Sets body u
  unfolding dump_set
  dump_set_iff body r v u =
      let there : (name : String)
          → Elem name ticket_fields
          → lookup name body ≢ none
          → Elem name r.model_fields_set =
        λ name m n. subst (Elem name) (sym v.set) (in_set body name m n) in
      let f =
        four_iff u (dump_field r.model_fields_set "title" FieldUpdate.title r.title)
          (dump_field r.model_fields_set "description" FieldUpdate.description r.description)
          (dump_field r.model_fields_set "category" FieldUpdate.category r.category)
          (dump_field r.model_fields_set "priority" FieldUpdate.priority r.priority) in
      let a =
        dump_field_iff (strip-Reads pydantic 200 "title" body) r.model_fields_set FieldUpdate.title
          r.title (only_text 1 200 "title" body) (there "title" (inl refl)) v.title u in
      let b =
        dump_field_iff (strip-Reads pydantic 10000 "description" body) r.model_fields_set
          FieldUpdate.description r.description (only_text 1 10000 "description" body)
          (there "description" (inr (inl refl))) v.description u in
      let c =
        dump_field_iff (Names-Reads pydantic category_members "category" body) r.model_fields_set
          FieldUpdate.category r.category (only_member category_members "category" body)
          (there "category" (inr (inr (inl refl)))) v.category u in
      let d =
        dump_field_iff (Names-Reads pydantic priority_members "priority" body) r.model_fields_set
          FieldUpdate.priority r.priority (only_member priority_members "priority" body)
          (there "priority" (inr (inr (inr (inl refl))))) v.priority u in
      (
        λ m. elim (f.0 m) [
          | inl (inl (inl k)) ↦ let (t, e, sets) = a.0 k in subst (Sets body) (sym e) sets
          | inl (inl (inr k)) ↦ let (t, e, sets) = b.0 k in subst (Sets body) (sym e) sets
          | inl (inr k) ↦ let (t, e, sets) = c.0 k in subst (Sets body) (sym e) sets
          | inr k ↦ let (t, e, sets) = d.0 k in subst (Sets body) (sym e) sets
        ],
        λ sets. f.1 (go u sets a.1 b.1 c.1 d.1),
      )
    where
      go :
          {X Y Z W : Type 0} (u : FieldUpdate)
          → Sets body u
          → ((t : Text) × (u ≡ FieldUpdate.title t) × Stripped 1 200 "title" body t → X)
          → ((t : Text) × (u ≡ FieldUpdate.description t) × Stripped 1 10000 "description" body t
              → Y)
          → ((k : TicketCategory) × (u ≡ FieldUpdate.category k)
                × Names category_members "category" body k
              → Z)
          → ((p : TicketPriority) × (u ≡ FieldUpdate.priority p)
                × Names priority_members "priority" body p
              → W)
          → ((X ⊎ Y) ⊎ Z) ⊎ W
      go (FieldUpdate.title t) sets a b c d = inl (inl (inl (a (t, refl, sets))))
      go (FieldUpdate.description t) sets a b c d = inl (inl (inr (b (t, refl, sets))))
      go (FieldUpdate.category k) sets a b c d = inl (inr (c (k, refl, sets)))
      go (FieldUpdate.priority p) sets a b c d = inr (d (p, refl, sets))

  set_field :
      (body : Body) (name : String)
      → Elem name (fields_set body)
      → Elem name ticket_fields × (lookup name body ≢ none)
  set_field body name m = (
    filter_subset (λ k. not (is_none (lookup k body))) ticket_fields name m,
    λ e.
        let t : not (is_none (lookup name body)) ≡ true =
          All_at (λ k. not (is_none (lookup k body)) ≡ true) (fields_set body)
            (filter_passes (λ k. not (is_none (lookup k body))) ticket_fields) name m in
        let c : false ≡ true = rw e at t in cc,
  )

  filled :
      {A : Type 0} (name : String) (body : Body) (S : A → Type 0) (o : Option A)
      → lookup name body ≢ none
      → Settled name body S o
      → is_none o ≡ false
  unfolding Settled
  filled name body S o n (inl (e, _)) = absurd (n e)
  filled name body S o n (inr (a, e, _)) = rw e refl

  no_null :
      (body : Body) (r : TicketUpdateRequest)
      → Validated body r
      → any (is_null r) (fields_set body) ≡ false
  unfolding is_null
  no_null body r v =
      any-false (is_null r) (fields_set body)
        (λ name m. let (k, n) = set_field body name m in go name k n)
    where
      go :
          (name : String)
          → Elem name ticket_fields
          → lookup name body ≢ none
          → is_null r name ≡ false
      go name (inl e) n = rw e (
          filled "title" body (Stripped 1 200 "title" body) r.title
            (subst (λ x. lookup x body ≢ none) e n) v.title)
      go name (inr (inl e)) n = rw e (
          filled "description" body (Stripped 1 10000 "description" body) r.description
            (subst (λ x. lookup x body ≢ none) e n) v.description)
      go name (inr (inr (inl e))) n = rw e (
          filled "category" body (Names category_members "category" body) r.category
            (subst (λ x. lookup x body ≢ none) e n) v.category)
      go name (inr (inr (inr (inl e)))) n = rw e (
          filled "priority" body (Names priority_members "priority" body) r.priority
            (subst (λ x. lookup x body ≢ none) e n) v.priority)
      go name (inr (inr (inr (inr m)))) n = absurd m

  accepted :
      (body : Body)
      → body ≢ []
      → Acceptable body
      → (r : TicketUpdateRequest) × (ticket_update_request pydantic body ≡ some r)
  unfolding ticket_update_request
  accepted body filled_in f =
      let names = Acceptable-OnlyNames body f in
      let (t, e, st) = accept_optional (strip-Reads pydantic 200 "title" body) (set_title body f) in
      let (d, e', sd) =
        accept_optional (strip-Reads pydantic 10000 "description" body) (set_description body f) in
      let (c, e'', sc) =
        accept_optional (Names-Reads pydantic category_members "category" body)
          (set_category body f) in
      let (p, e''', sp) =
        accept_optional (Names-Reads pydantic priority_members "priority" body)
          (set_priority body f) in
      let made : TicketUpdateRequest = record {
        title = t;
        description = d;
        category = c;
        priority = p;
        model_fields_set = fields_set body;
      } in
      let some_set : fields_set body ≢ [] = λ q. filled_in ((set_empty_iff body names).0 q) in
      let v : Validated body made = record {
        title = st;
        description = sd;
        category = sc;
        priority = sp;
        names = names;
        set = refl;
        some_set = some_set;
      } in
      (
        made,
        rw ((forbid_extra_iff ticket_fields body).1 names, e, e', e'', e''')
            ((require_iff made made).1 (refl, some_set, no_null body made v)),
      )

  -- A body is accepted as an update of a ticket exactly if it is not empty and each of its fields is one
  -- of title, description, category and priority with a value that this field may have, so that a null
  -- is not accepted; the updates are then exactly what the fields of the body set, the texts stripped.
  pub update_fields_exact :
      (body : Body)
      → (((us : List FieldUpdate) × (update_fields pydantic body ≡ some us))
          ↔ ((body ≢ []) × Acceptable body))
        × ((us : List FieldUpdate)
            → update_fields pydantic body ≡ some us
            → (u : FieldUpdate) → Elem u us ↔ Sets body u)
  unfolding update_fields
  update_fields_exact body =
      let f = some_bind_iff (ticket_update_request pydantic body) (λ r. some (dump_set r)) in
      (
        (
          λ (us, h).
              let (r, e, q) = (f us).0 h in
              let v = request-Validated pydantic body r e in
              (λ z. v.some_set ((set_empty_iff body v.names).1 z), Validated-Acceptable body r v),
          λ (n, a). let (r, e) = accepted body n a in (dump_set r, (f (dump_set r)).1 (r, e, refl)),
        ),
        λ us h u.
            let (r, e, q) = (f us).0 h in
            subst (λ xs. Elem u xs ↔ Sets body u) (some-injective (dump_set r) us q)
              (dump_set_iff body r (request-Validated pydantic body r e) u),
      )
