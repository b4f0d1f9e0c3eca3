-- ===== src/Tickets/Pages.antt =====
-- How `list_tickets` of app/services/ticket_service.py orders the rows and divides them into pages.
use mathlib.Core.List.{Perm}
use native.Mathlib.Nat.{div-add-mod, mod-lt, div-mul-le_self, zero-add, suc-add, zero-mul, suc-mul}
use ticketflow.Base.{
  if◌then◌else◌, leb, ltb, ℕ, zero, suc, ◌+◌, ◌-◌, ◌*◌, ◌/◌, ◌≤◌, ◌<◌, ◌≡◌, ◌≢◌, refl, sym, ap, ◌∙◌,
  inl, inr, Bool, true, false, List, [], ◌∷◌, ◌++◌, arith, ◌==◌, nat_eq, take, drop, length,
  length-take-le, order_by, order_by-perm, order_by-IsOrdered, IsOrdered, Bool-cases, subst,
  length-order_by, dec_lt,
}
use ticketflow.Base.Text.{Text}
use ticketflow.Models.{User, Ticket, Db, role_eq, status_eq, priority_eq, category_eq}
use ticketflow.Tickets.Query.{
  conditions, filter_conditions, matching, list_tickets, ListParameters, newest_first, count_pages,
}

take-add {ℓ} :
    {A : Type ℓ} (n m : ℕ) (xs : List A) → take (n + m) xs ≡ take n xs ++ take m (drop n xs)
take-add zero m xs = rw zero-add
take-add (suc n) zero [] = rw suc-add
take-add (suc n) (suc m) [] = rw suc-add
take-add (suc n) m (x ∷ xs) = rw suc-add (ap (◌∷◌ x) (take-add n m xs))

take_of_length-le {ℓ} : {A : Type ℓ} (n : ℕ) (xs : List A) → length xs ≤ n → take n xs ≡ xs
take_of_length-le zero [] h = refl
take_of_length-le (suc n) [] h = refl
take_of_length-le zero (x ∷ xs) h = absurd (omega arith)
take_of_length-le (suc n) (x ∷ xs) h = ap (◌∷◌ x) (take_of_length-le n xs (omega arith))

pub newest_first_total : (a b : Ticket) → newest_first a b ≡ false → newest_first b a ≡ true
unfolding newest_first
newest_first_total a b h = ground arith

pub newest_first_trans :
    (a b c : Ticket) → newest_first a b ≡ true → newest_first b c ≡ true → newest_first a c ≡ true
unfolding newest_first
newest_first_trans a b c h k = ground arith

ceil_covers : (total size : ℕ) → 1 ≤ size → total ≤ ((total + size - 1) / size) * size
ceil_covers total size h = grind (arith, div-add-mod, mod-lt)

ceil_tight :
    (total size : ℕ) → 1 ≤ size → 1 ≤ total → ((total + size - 1) / size) * size < total + size
ceil_tight total size h k = omega (arith, div-mul-le_self (total + size - 1) size)

pred-mul : (q size total : ℕ) → q * size < total + size → 1 ≤ q → (q - 1) * size < total
pred-mul zero size total h k = absurd (omega arith)
pred-mul (suc q) size total h k =
    let back : suc q - 1 ≡ q = omega arith in rw back (omega (arith, suc-mul q size))

ceil_pos : (total size : ℕ) → 1 ≤ size → 1 ≤ total → 1 ≤ (total + size - 1) / size
ceil_pos total size h k = elim (dec_lt 0 ((total + size - 1) / size)) [
  | yes p ↦ p
  | no p ↦
      let e : (total + size - 1) / size ≡ 0 = omega arith in
      absurd
        (omega (arith, subst (λ q. total ≤ q * size) e (ceil_covers total size h), zero-mul size))
]

count_pages_covers : (total size : ℕ) → 1 ≤ size → total ≤ count_pages total size * size
unfolding count_pages
count_pages_covers total size h = ground (arith, ceil_covers total size h)

count_pages_tight :
    (total size : ℕ)
    → 1 ≤ size
    → 1 ≤ total
    → (0 < count_pages total size) × ((count_pages total size - 1) * size < total)
unfolding count_pages
count_pages_tight total size h k = elim (Bool-cases (total == 0)) [
  | inl e ↦ absurd (ground arith)
  | inr e ↦ rw e (
    ceil_pos total size h k,
    pred-mul _ size total (ceil_tight total size h k) (ceil_pos total size h k),
  )
]

length-pos {ℓ} : {A : Type ℓ} (xs : List A) → xs ≢ [] → 1 ≤ length xs
length-pos [] h = absurd (h refl)
length-pos (x ∷ xs) h = omega arith

-- The order of the pages: the later ticket first, and of two of one time the one with the greater identifier.
abbrev pub from_newest : Ticket → Ticket → Bool
from_newest a b =
    if a.created_at == b.created_at then leb b.id a.id else ltb b.created_at a.created_at

newest_first-from_newest : (a b : Ticket) → newest_first a b ≡ from_newest a b
unfolding newest_first
newest_first-from_newest a b = ground arith

module _ (ilike : Text → Text → Bool) (user : User) (p : ListParameters) (db : Db) where
  -- The items of the page with number `k`.
  abbrev pub page_items : ℕ → List Ticket
  page_items k = (list_tickets ilike user (record p { page = k }) db).items

  -- The items of the pages 1 to `n`, one after the other.
  abbrev pub first_pages : ℕ → List Ticket
  first_pages zero = []
  first_pages (suc n) = first_pages n ++ page_items (suc n)

  abbrev pub found : List Ticket
  found = matching ilike user p db

  matching_page : (k : ℕ) → matching ilike user (record p { page = k }) db ≡ found
  unfolding matching conditions filter_conditions
  matching_page k = refl

  first_pages-eq-take :
      (n : ℕ) → first_pages n ≡ take (n * p.page_size) (order_by newest_first found)
  unfolding list_tickets
  first_pages-eq-take zero = rw zero-mul
  first_pages-eq-take (suc n) =
      let back : suc n - 1 ≡ n = omega arith in
      rw (matching_page (suc n), back, suc-mul n p.page_size, first_pages-eq-take n)
        (sym (take-add (n * p.page_size) p.page_size (order_by newest_first found)))

  -- The pages divide the result: with a positive page size, the items of the pages 1 to `pages`,
  -- one after the other, are the matching rows, each as often as it is stored, sorted by creation
  -- time and identifier from the newest on; `total` counts them, no page holds more than
  -- `page_size`, and where there are rows at all the pages but the last do not hold them all.
  pub list_tickets_pages :
      1 ≤ p.page_size
      → let pages = (list_tickets ilike user p db).pages in
        Perm (first_pages pages) found
        × IsOrdered from_newest (first_pages pages)
        × ((list_tickets ilike user p db).total ≡ length found)
        × ((k : ℕ) → length (page_items k) ≤ p.page_size)
        × (found ≢ [] → (0 < pages) × ((pages - 1) * p.page_size < length found))
  unfolding list_tickets
  list_tickets_pages h =
      let covered : first_pages (list_tickets ilike user p db).pages ≡ order_by newest_first found =
        first_pages-eq-take (list_tickets ilike user p db).pages
        ∙ take_of_length-le ((list_tickets ilike user p db).pages * p.page_size)
            (order_by newest_first found)
            (rw (length-order_by newest_first found)
              (count_pages_covers (length found) p.page_size h)) in
      (
        rw covered (order_by-perm newest_first found),
        subst (λ le. IsOrdered le (first_pages (list_tickets ilike user p db).pages))
            (λ i a b. newest_first-from_newest a b i)
            (rw covered
              (order_by-IsOrdered newest_first newest_first_total newest_first_trans found)),
        refl,
        λ k. length-take-le p.page_size _,
        λ some_rows. count_pages_tight (length found) p.page_size h (length-pos found some_rows),
      )
