-- ===== src/Cache/Scope.antt =====
-- What the keys of app/services/cache_service.py tell apart, beside what the lists depend on.
use ticketflow.Base.{
  ℕ, ◌≡◌, refl, sym, ap, ◌⊎◌, inl, inr, Bool, false, [], ◌∷◌, ◌++◌, arith, Bool-cases, ◌==◌,
}
use ticketflow.Base.Text.{Text}
use ticketflow.Models.{User, UserRole, Db, agent, customer, role_eq, role_beq_iff}
use ticketflow.Tickets.Query.{
  ListParameters, normalized_query, list_tickets, scope_conditions, filter_conditions, matching,
  conditions,
}
use ticketflow.Cache.Libraries.{Canonical, Printer}
use ticketflow.Cache.Keys.{
  ticket_list_key, scope_of, canonical_parameters, none_if_empty, cancel, split_colon, list_prefix,
  agent_word, customer_word,
}

-- Both are agents, or both are the same customer.
abbrev pub SameScope : User → User → Type 0
SameScope u v =
    ((u.role ≡ agent) × (v.role ≡ agent))
    ⊎ ((u.role ≡ customer) × (v.role ≡ customer) × (u.id ≡ v.id))

not_agent : (r : UserRole) → (r == agent) ≡ false → r ≡ customer
not_agent r h = ground arith

words_apart : ¬ (agent_word ≡ customer_word)
words_apart h = cc

module _ (printer : Printer) where
  scope-split :
      (u v : User) (h k : Text)
      → scope_of printer u ++ 58 ∷ h ≡ scope_of printer v ++ 58 ∷ k
      → SameScope u v × (h ≡ k)
  unfolding scope_of
  scope-split u v h k e = elim (Bool-cases (u.role == agent)) [
    | inl a ↦ elim (Bool-cases (v.role == agent)) [
      | inl b ↦
          let f : agent_word ++ 58 ∷ h ≡ agent_word ++ 58 ∷ k = rw (a, b) at e in
          (
            inl ((role_beq_iff u.role agent).0 a, (role_beq_iff v.role agent).0 b),
            (split_colon agent_word agent_word h k (omega arith) (omega arith) f).1,
          )
      | inr b ↦
          let f : agent_word ++ 58 ∷ h ≡ customer_word ++ 58 ∷ (printer.str_uuid v.id ++ 58 ∷ k) =
            rw (a, b) at e in
          absurd
            (words_apart (split_colon agent_word customer_word _ _ (omega arith) (omega arith) f).0)
    ]
    | inr a ↦ elim (Bool-cases (v.role == agent)) [
      | inl b ↦
          let f : customer_word ++ 58 ∷ (printer.str_uuid u.id ++ 58 ∷ h) ≡ agent_word ++ 58 ∷ k =
            rw (a, b) at e in
          absurd (
            words_apart
              (sym (split_colon customer_word agent_word _ _ (omega arith) (omega arith) f).0))
      | inr b ↦
          let f : customer_word ++ 58 ∷ (printer.str_uuid u.id ++ 58 ∷ h)
              ≡ customer_word ++ 58 ∷ (printer.str_uuid v.id ++ 58 ∷ k) =
            rw (a, b) at e in
          let g = (split_colon customer_word customer_word _ _ (omega arith) (omega arith) f).1 in
          let (i, j) =
            split_colon (printer.str_uuid u.id) (printer.str_uuid v.id) h k
              (printer.uuid-NoColon u.id) (printer.uuid-NoColon v.id) g in
          (inr (not_agent u.role a, not_agent v.role b, printer.uuid-injective u.id v.id i), j)
    ]
  ]

  -- A key determines the version, the scope and the canonical parameters.
  pub key_determines :
      (m n : ℕ) (u v : User) (p q : ListParameters)
      → ticket_list_key printer m u p ≡ ticket_list_key printer n v q
      → (m ≡ n) × SameScope u v × (canonical_parameters p ≡ canonical_parameters q)
  unfolding ticket_list_key
  key_determines m n u v p q e =
      let f = cancel list_prefix _ _ e in
      let (i, g) =
        split_colon (printer.str_int m) (printer.str_int n)
          (scope_of printer u ++ 58 ∷ printer.filter_hash (canonical_parameters p))
          (scope_of printer v ++ 58 ∷ printer.filter_hash (canonical_parameters q))
          (printer.int-NoColon m) (printer.int-NoColon n) f in
      let (s, h) =
        scope-split u v (printer.filter_hash (canonical_parameters p))
          (printer.filter_hash (canonical_parameters q)) g in
      (printer.int-injective m n i, s, printer.hash-injective _ _ h)

none_if_empty-injective : (s t : Text) → none_if_empty s ≡ none_if_empty t → s ≡ t
unfolding none_if_empty
none_if_empty-injective [] [] h = refl
none_if_empty-injective [] (c ∷ t) h = cc
none_if_empty-injective (c ∷ s) [] h = cc
none_if_empty-injective (c ∷ s) (d ∷ t) h = cc

same_scope : (u v : User) → SameScope u v → scope_conditions u ≡ scope_conditions v
unfolding scope_conditions
same_scope u v (inl (a, b)) = rw (a, b) refl
same_scope u v (inr (a, b, c)) = rw (a, b, c) refl

same_filters :
    (ilike : Text → Text → Bool) (p q : ListParameters)
    → canonical_parameters p ≡ canonical_parameters q
    → filter_conditions ilike p ≡ filter_conditions ilike q
unfolding filter_conditions canonical_parameters
same_filters ilike p q h =
    let a : p.status ≡ q.status = ap (λ (c : Canonical). c.status) h in
    let b : p.priority ≡ q.priority = ap (λ (c : Canonical). c.priority) h in
    let d : p.category ≡ q.category = ap (λ (c : Canonical). c.category) h in
    let e : normalized_query p.query ≡ normalized_query q.query =
      none_if_empty-injective _ _ (ap (λ (c : Canonical). c.q) h) in
    rw (a, b, d, e) refl

-- Two requests with the same cache key, by whichever users and with whichever parameters, were made at
-- one version of the cache, by two agents or by one customer, and have the same answer from
-- `list_tickets` on every database.
pub list_tickets-key :
    (printer : Printer) (ilike : Text → Text → Bool) (m n : ℕ) (u v : User) (p q : ListParameters)
    (db : Db)
    → ticket_list_key printer m u p ≡ ticket_list_key printer n v q
    → (m ≡ n) × SameScope u v × (list_tickets ilike u p db ≡ list_tickets ilike v q db)
unfolding list_tickets matching conditions canonical_parameters
list_tickets-key printer ilike m n u v p q db e =
    let (i, s, c) = key_determines printer m n u v p q e in
    let a : p.page ≡ q.page = ap (λ (c : Canonical). c.page) c in
    let b : p.page_size ≡ q.page_size = ap (λ (c : Canonical). c.page_size) c in
    (i, s, rw (same_scope u v s, same_filters ilike p q c, a, b) refl)
