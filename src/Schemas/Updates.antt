-- ===== src/Schemas/Updates.antt =====
-- One optional field of `TicketUpdateRequest` in app/schemas/ticket.py: what its check reads, and what it
-- adds to the updates.
use ticketflow.Base.{
  ℕ, ◌≡◌, ◌≢◌, refl, sym, ap, ◌∙◌, ◌↔◌, ◌⊎◌, inl, inr, Bool, true, false, Option, none, some, List,
  [], ◌∷◌, ◌++◌, String, any, Elem, arith, Option-cases, string_eq,
}
use ticketflow.Base.Text.{Text}
use ticketflow.Models.{Enumeration, category_members, priority_members}
use ticketflow.Tickets.Mutation.{FieldUpdate}
use ticketflow.Schemas.Values.{
  Json, Body, null, string, compound, lookup, Pydantic, strip_text, optional, or_null,
}
use ticketflow.Schemas.Requests.{is_none, dump_field}
use ticketflow.Schemas.Reading.{some_bind_iff, named_iff, Stripped, Names, strip_check_iff}
use ticketflow.Schemas.Acceptance.{some-injective}

pub any-false_at :
    {A : Type 0} (p : A → Bool) (xs : List A) (x : A) → any p xs ≡ false → Elem x xs → p x ≡ false
any-false_at p [] x h m = elim m [ ]
any-false_at p (y ∷ ys) x h (inl e) = rw e (ground arith)
any-false_at p (y ∷ ys) x h (inr m) = any-false_at p ys x (ground arith) m

pub any-false :
    {A : Type 0} (p : A → Bool) (xs : List A)
    → ((x : A) → Elem x xs → p x ≡ false)
    → any p xs ≡ false
any-false p [] h = refl
any-false p (y ∷ ys) h = rw (h y (inl refl)) (any-false p ys (λ x m. h x (inr m)))

pub Elem-append_iff :
    {A : Type 0} (a : A) (xs ys : List A) → Elem a (xs ++ ys) ↔ (Elem a xs ⊎ Elem a ys)
Elem-append_iff a [] ys = (λ m. inr m, λ m. elim m [ inl k ↦ absurd k | inr k ↦ k ])
Elem-append_iff a (x ∷ xs) ys = grow (Elem-append_iff a xs ys)
  where
    grow :
        Elem a (xs ++ ys) ↔ (Elem a xs ⊎ Elem a ys)
        → Elem a (x ∷ (xs ++ ys)) ↔ (Elem a (x ∷ xs) ⊎ Elem a ys)
    grow ih = (
      λ m. elim m [
        | inl e ↦ inl (inl e)
        | inr k ↦ elim (ih.0 k) [ inl k' ↦ inl (inr k') | inr k' ↦ inr k' ]
      ],
      λ m. elim m [
        | inl k ↦ elim k [ inl e ↦ inl e | inr k' ↦ inr (ih.1 (inl k')) ]
        | inr k ↦ inr (ih.1 (inr k))
      ],
    )

-- What a field without an explicit null came to: it is missing, or it has a value that the body sets.
unfoldable pub Settled : {A : Type 0} → String → Body → (A → Type 0) → Option A → Type 0
Settled {A} name body S o =
    ((lookup name body ≡ none) × (o ≡ none)) ⊎ ((a : A) × (o ≡ some a) × S a)

-- What a check accepts, and that it sets the field.
pub record Reads {A : Type 0} (check : Json → Option A) (name : String) (body : Body)
    (S : A → Type 0) : Type 0 where
  pub given : (v : Json) (a : A) → lookup name body ≡ some v → check v ≡ some a → S a
  pub accepts :
      (a : A)
      → S a
      → (s : Text) × (lookup name body ≡ some (string s)) × (check (string s) ≡ some a)

module _ (pydantic : Pydantic) where
  pub strip-Reads :
      (most : ℕ) (name : String) (body : Body)
      → Reads (λ v. pydantic.str_field 1 most (strip_text v)) name body (Stripped 1 most name body)
  strip-Reads most name body = record {
    given = λ v t e c.
        let (s, q, u, a, b) = (strip_check_iff pydantic 1 most v t).0 c in
        (s, e ∙ ap some q, u, a, b);
    accepts = λ t (s, e, u, a, b).
        (s, e, (strip_check_iff pydantic 1 most (string s) t).1 (s, refl, u, a, b));
  }

  pub Names-Reads :
      {A : Type 0} (enum : Enumeration A) (name : String) (body : Body)
      → Reads (pydantic.enum_field enum) name body (Names enum name body)
  Names-Reads enum name body = record {
    given = λ v a e c. e ∙ ap some ((pydantic.enum_field_iff enum v a).0 c);
    accepts = λ a e. (enum.value a, e, (pydantic.enum_field_iff enum _ a).1 refl);
  }

or_null_cases :
    {A : Type 0} (check : Json → Option A) (v : Json) (o : Option A)
    → or_null check v ≡ some o
    → (o ≡ none) ⊎ ((a : A) × (o ≡ some a) × (check v ≡ some a))
or_null_cases check null o h = inl (sym (some-injective none o h))
or_null_cases check (string s) o h =
    let (a, e, f) = (some_bind_iff (check (string s)) (λ a. some (some a)) o).0 h in
    inr (a, sym (some-injective (some a) o f), e)
or_null_cases check compound o h =
    let (a, e, f) = (some_bind_iff (check compound) (λ a. some (some a)) o).0 h in
    inr (a, sym (some-injective (some a) o f), e)

module _ {A : Type 0} {check : Json → Option A} {name : String} {body : Body} {S : A → Type 0}
    (reads : Reads check name body S) where
  -- Without an explicit null.
  pub optional-Settled :
      (o : Option A)
      → optional check name body ≡ some o
      → (lookup name body ≢ none → is_none o ≡ false)
      → Settled name body S o
  unfolding Settled
  optional-Settled o h n = elim (Option-cases (lookup name body)) [
    | inl e ↦ inl (e, sym (some-injective none o (rw (optional, e) at h)))
    | inr (v, e) ↦ elim (or_null_cases check v o (rw (optional, e) at h)) [
      | inl z ↦
          let c : is_none o ≡ false = n (λ q. let d : some v ≡ none = sym e ∙ q in cc) in
          let d : true ≡ false = rw z at c in cc
      | inr (a, f, g) ↦ inr (a, f, reads.given v a e g)
    ]
  ]

  pub accept_optional :
      (lookup name body ≢ none → (a : A) × S a)
      → (o : Option A) × (optional check name body ≡ some o) × Settled name body S o
  unfolding Settled
  accept_optional f = elim (Option-cases (lookup name body)) [
    | inl e ↦ (none, rw (optional, e) refl, inl (e, refl))
    | inr (v, e) ↦
        let (a, sets) = f (λ q. let d : some v ≡ none = sym e ∙ q in cc) in
        let (s, g, c) = reads.accepts a sets in
        (some a, rw (optional, g, c) refl, inr (a, refl, sets))
  ]

  -- What the field adds to the updates.
  pub dump_field_iff :
      (set : List String) (update : A → FieldUpdate) (o : Option A)
      → ((a b : A) → S a → S b → a ≡ b)
      → (lookup name body ≢ none → Elem name set)
      → Settled name body S o
      → (u : FieldUpdate) → Elem u (dump_field set name update o) ↔ ((a : A) × (u ≡ update a) × S a)
  unfolding Settled
  dump_field_iff set update o only in_set (inl (e, z)) u = rw z (
    λ m. absurd m,
    λ (a, q, sets).
        let (s, g, c) = reads.accepts a sets in let d : none ≡ some (string s) = sym e ∙ g in cc,
  )
  dump_field_iff set update o only in_set (inr (a, z, sets)) u =
      let (s, g, c) = reads.accepts a sets in
      let there : Elem name set = in_set (λ q. let d : some (string s) ≡ none = sym g ∙ q in cc) in
      rw (z, (named_iff name set).1 there)
        (
          λ m. elim m [ inl e ↦ (a, e, sets) | inr k ↦ absurd k ],
          λ (b, e, sets'). inl (e ∙ ap update (only b a sets' sets)),
        )
