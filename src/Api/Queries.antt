-- ===== src/Api/Queries.antt =====
-- The query parameters of `get_list` in app/api/v1/tickets.py.
use ticketflow.Base.{
  ℕ, ◌≤◌, ◌≡◌, refl, sym, ap, inl, inr, ◌↔◌, Bool, true, false, ◌&&◌, Option, none, some, arith,
  length, leb, Bool-cases, if◌then◌else◌, subst,
}
use mathlib.Core.Option.{some-injective}
use ticketflow.Base.Int.{ℤ, pos, negsuc}
use ticketflow.Base.Text.{Text}
use ticketflow.Models.{TicketStatus, TicketPriority, TicketCategory}
use ticketflow.Tickets.Query.{ListParameters}
use ticketflow.Schemas.Values.{◌>>=◌}
use ticketflow.Schemas.Reading.{some_bind_iff}

-- The query string of `get_list`, its values read as the types that are annotated.
pub record TicketQuery : Type 0 where
  pub status : Option TicketStatus
  pub priority : Option TicketPriority
  pub category : Option TicketCategory
  pub q : Option Text
  pub page : Option ℤ
  pub page_size : Option ℤ

-- `Query(max_length=200)`
unfoldable pub query_text : Option Text → Option (Option Text)
query_text none = some none
query_text (some q) = if leb (length q) 200 then some (some q) else none

-- `Query(ge=1)` with the default 1
unfoldable pub page_number : Option ℤ → Option ℕ
page_number none = some 1
page_number (some (pos n)) = if leb 1 n then some n else none
page_number (some (negsuc n)) = none

-- `Query(ge=1, le=100)` with the default 20
unfoldable pub page_length : Option ℤ → Option ℕ
page_length none = some 20
page_length (some (pos n)) = if leb 1 n && leb n 100 then some n else none
page_length (some (negsuc n)) = none

unfoldable pub list_parameters : TicketQuery → Option ListParameters
list_parameters query = query_text query.q >>= λ q. page_number query.page >>= λ page.
    page_length query.page_size >>= λ page_size. some (record {
      status = query.status;
      priority = query.priority;
      category = query.category;
      query = q;
      page = page;
      page_size = page_size;
    })

-- A number that a parameter may be, between its bounds, or the default where it is left out.
abbrev pub Chosen : (default : ℕ) → Option ℤ → (ℕ → Type 0) → ℕ → Type 0
Chosen default none Within n = n ≡ default
Chosen default (some z) Within n = (z ≡ pos n) × Within n

abbrev pub ShortText : Option Text → Type 0
ShortText none = Unit
ShortText (some q) = length q ≤ 200

abbrev pub IsPage : ℕ → Type 0
IsPage n = 1 ≤ n

abbrev pub IsPageSize : ℕ → Type 0
IsPageSize n = (1 ≤ n) × (n ≤ 100)

-- The parameters that a query string stands for.
pub record Means (query : TicketQuery) (p : ListParameters) : Type 0 where
  pub filters :
      (p.status ≡ query.status)
      × (p.priority ≡ query.priority)
      × (p.category ≡ query.category)
      × (p.query ≡ query.q)
  pub text : ShortText query.q
  pub page : Chosen 1 query.page IsPage p.page
  pub page_size : Chosen 20 query.page_size IsPageSize p.page_size

query_text_iff : (q r : Option Text) → (query_text q ≡ some r) ↔ ((r ≡ q) × ShortText q)
unfolding query_text
query_text_iff none r = (λ h. (sym (some-injective _ _ h), tt), λ (e, _). ap some (sym e))
query_text_iff (some q) r = elim (Bool-cases (leb (length q) 200)) [
  | inl e ↦ rw e (λ h. (sym (some-injective _ _ h), ground arith), λ (f, _). ap some (sym f))
  | inr e ↦ rw e (λ h. cc, λ (f, k). ground arith)
]

unsigned : ℤ → ℕ
unsigned (pos n) = n
unsigned (negsuc n) = n

pos-injective : (m n : ℕ) → pos m ≡ pos n → m ≡ n
unfolding unsigned
pos-injective m n h = ap unsigned h

negative : (m n : ℕ) → ¬ (negsuc m ≡ pos n)
negative m n h = cc

-- A number that passes a test is taken.
tested_iff :
    (b : Bool) (P : ℕ → Type 0) (m n : ℕ)
    → ((b ≡ true) ↔ P m)
    → ((if b then some m else none) ≡ some n) ↔ ((pos m ≡ pos n) × P n)
tested_iff true P m n f = (
  λ h. let e = some-injective _ _ h in (ap pos e, subst P e (f.0 refl)),
  λ (e, _). ap some (pos-injective m n e),
)
tested_iff false P m n f =
    (λ h. cc, λ (e, k). let c : false ≡ true = f.1 (subst P (sym (pos-injective m n e)) k) in cc)

page_number_iff : (z : Option ℤ) (n : ℕ) → (page_number z ≡ some n) ↔ Chosen 1 z IsPage n
unfolding page_number
page_number_iff none n = (λ h. sym (some-injective _ _ h), λ e. ap some (sym e))
page_number_iff (some (pos m)) n = tested_iff (leb 1 m) IsPage m n (ground arith)
page_number_iff (some (negsuc m)) n = (λ h. cc, λ (e, _). absurd (negative m n e))

page_length_iff : (z : Option ℤ) (n : ℕ) → (page_length z ≡ some n) ↔ Chosen 20 z IsPageSize n
unfolding page_length
page_length_iff none n = (λ h. sym (some-injective _ _ h), λ e. ap some (sym e))
page_length_iff (some (pos m)) n = tested_iff (leb 1 m && leb m 100) IsPageSize m n (ground arith)
page_length_iff (some (negsuc m)) n = (λ h. cc, λ (e, _). absurd (negative m n e))

pub list_parameters_iff :
    (query : TicketQuery) (p : ListParameters) → (list_parameters query ≡ some p) ↔ Means query p
unfolding list_parameters
list_parameters_iff query p = (
  λ h.
      let (q, a, h1) = (some_bind_iff (query_text query.q) _ p).0 h in
      let (page, b, h2) = (some_bind_iff (page_number query.page) _ p).0 h1 in
      let (page_size, c, h3) = (some_bind_iff (page_length query.page_size) _ p).0 h2 in
      subst (Means query) (some-injective _ _ h3) (record {
        filters = (refl, refl, refl, ((query_text_iff query.q q).0 a).0);
        text = ((query_text_iff query.q q).0 a).1;
        page = (page_number_iff query.page page).0 b;
        page_size = (page_length_iff query.page_size page_size).0 c;
      }),
  λ m.
      let (a, b, c, d) = m.filters in
      let text = (query_text_iff query.q p.query).1 (d, m.text) in
      let page = (page_number_iff query.page p.page).1 m.page in
      let page_size = (page_length_iff query.page_size p.page_size).1 m.page_size in
      rw (text, page, page_size, ← a, ← b, ← c) refl,
)

pub page_size_bound : (query : TicketQuery) (p : ListParameters) → Means query p → p.page_size ≤ 100
page_size_bound query p m = go query.page_size m.page_size
  where
    go : (z : Option ℤ) → Chosen 20 z IsPageSize p.page_size → p.page_size ≤ 100
    go none e = omega (arith, e)
    go (some z) (_, (_, h)) = h
