-- ===== src/Cache/Keys.antt =====
-- The keys of app/services/cache_service.py: what they are made of.
use ticketflow.Base.{
  ℕ, ◌≡◌, refl, sym, ap, subst, Option, none, some, [], ◌∷◌, ◌++◌, arith, ◌==◌, if◌then◌else◌,
  nat_eq,
}
use ticketflow.Base.Text.{Text}
use ticketflow.Models.{User, agent, role_eq}
use ticketflow.Tickets.Query.{ListParameters, normalized_query}
use ticketflow.Cache.Libraries.{Canonical, NoColon, Printer}

abbrev pub ticket_list_version_key : Text
ticket_list_version_key =
    116 ∷ 105 ∷ 99 ∷ 107 ∷ 101 ∷ 116 ∷ 115 ∷ 58 ∷ 108 ∷ 105 ∷ 115 ∷ 116 ∷ 58 ∷ 118 ∷ 101 ∷ 114 ∷ 115
    ∷ 105 ∷ 111 ∷ 110 ∷ []

abbrev pub dashboard_stats_key : Text
dashboard_stats_key =
    100 ∷ 97 ∷ 115 ∷ 104 ∷ 98 ∷ 111 ∷ 97 ∷ 114 ∷ 100 ∷ 58 ∷ 115 ∷ 116 ∷ 97 ∷ 116 ∷ 115 ∷ []

-- `tickets:list:v`
abbrev pub list_prefix : Text
list_prefix = 116 ∷ 105 ∷ 99 ∷ 107 ∷ 101 ∷ 116 ∷ 115 ∷ 58 ∷ 108 ∷ 105 ∷ 115 ∷ 116 ∷ 58 ∷ 118 ∷ []

abbrev pub agent_word : Text
agent_word = 97 ∷ 103 ∷ 101 ∷ 110 ∷ 116 ∷ []

abbrev pub customer_word : Text
customer_word = 99 ∷ 117 ∷ 115 ∷ 116 ∷ 111 ∷ 109 ∷ 101 ∷ 114 ∷ []

-- `normalized_query or None`
unfoldable pub none_if_empty : Text → Option Text
none_if_empty [] = none
none_if_empty (c ∷ s) = some (c ∷ s)

unfoldable pub canonical_parameters : ListParameters → Canonical
unfolding none_if_empty
canonical_parameters p = record {
  category = p.category;
  page = p.page;
  page_size = p.page_size;
  priority = p.priority;
  q = none_if_empty (normalized_query p.query);
  status = p.status;
}

module _ (printer : Printer) where
  unfoldable pub scope_of : User → Text
  scope_of user =
      if user.role == agent then agent_word else customer_word ++ 58 ∷ printer.str_uuid user.id

  -- `f"tickets:list:v{version}:{scope}:{filter_hash}"`
  unfoldable pub ticket_list_key : (version : ℕ) → User → ListParameters → Text
  ticket_list_key version user p =
      list_prefix
      ++ (printer.str_int version
          ++ 58 ∷ (scope_of user ++ 58 ∷ printer.filter_hash (canonical_parameters p)))

abbrev first_of : Text → ℕ
first_of [] = 0
first_of (c ∷ s) = c

pub cancel : (xs a b : Text) → xs ++ a ≡ xs ++ b → a ≡ b
cancel [] a b h = h
cancel (x ∷ xs) a b h = cancel xs a b (cc)

-- A text up to its first colon, and after it, are determined.
pub split_colon :
    (a a' b b' : Text) → NoColon a → NoColon a' → a ++ 58 ∷ b ≡ a' ++ 58 ∷ b' → (a ≡ a') × (b ≡ b')
split_colon [] [] b b' n n' h = (refl, cc)
split_colon [] (c ∷ a') b b' n n' h = absurd (n'.0 (cc))
split_colon (c ∷ a) [] b b' n n' h = absurd (n.0 (cc))
split_colon (c ∷ a) (c' ∷ a') b b' n n' h =
    let t : a ++ 58 ∷ b ≡ a' ++ 58 ∷ b' = cc in
    let d : c ≡ c' = cc in let (p, q) = split_colon a a' b b' n.1 n'.1 t in (cc, q)

colon_inside : (a b : Text) → ¬ NoColon (a ++ 58 ∷ b)
colon_inside [] b n = n.0 refl
colon_inside (c ∷ a) b n = colon_inside a b n.1

-- `ersion`
abbrev ending : Text
ending = 101 ∷ 114 ∷ 115 ∷ 105 ∷ 111 ∷ 110 ∷ []

module _ (printer : Printer) (version : ℕ) (user : User) (p : ListParameters) where
  -- No list is kept under the key of the version, nor under that of the statistics.
  pub ticket_list_key-version : ¬ (ticket_list_key printer version user p ≡ ticket_list_version_key)
  unfolding ticket_list_key
  ticket_list_key-version h =
      let tail : Text =
        scope_of printer user ++ 58 ∷ printer.filter_hash (canonical_parameters p) in
      let e = cancel list_prefix (printer.str_int version ++ 58 ∷ tail) ending h in
      colon_inside (printer.str_int version) tail (subst NoColon (sym e) (omega arith))

  pub ticket_list_key-dashboard : ¬ (ticket_list_key printer version user p ≡ dashboard_stats_key)
  unfolding ticket_list_key
  ticket_list_key-dashboard h = let e : Path ℕ 116 100 = ap first_of h in absurd (omega arith)

pub version_key-dashboard : ¬ (dashboard_stats_key ≡ ticket_list_version_key)
version_key-dashboard h = let e : Path ℕ 100 116 = ap first_of h in absurd (omega arith)
