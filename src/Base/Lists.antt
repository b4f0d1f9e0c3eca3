-- ===== src/Base/Lists.antt =====
-- Lists measured, cut and filtered by native numbers and Boolean tests, under the library's names.
use Prim.Native.Nat.{ℕ, zero, suc, ◌+◌, ◌-◌, ◌≤◌, min}
use mathlib.Core.Path.{ap, ◌∙◌, ◌≡◌, refl, sym, subst}
use native.Mathlib.Nat.{zero-add, suc-add}
use mathlib.Core.Logic.{◌↔◌, ◌⊎◌, inl, inr}
use mathlib.Core.Bool.{Bool, true, false, ◌&&◌, ◌||◌}
use mathlib.Core.List.{List, [], ◌∷◌, ◌++◌, map}
use mathlib.Core.Option.{Option, none, some}
use native.Mathlib.Omega.{arith}
use ticketflow.Base.Tests.{if◌then◌else◌, Bool-cases}

module _ {ℓ} {A : Type ℓ} where
  abbrev pub length : List A → ℕ
  length [] = 0
  length (x ∷ xs) = suc (length xs)

  abbrev pub take : ℕ → List A → List A
  take zero xs = []
  take (suc n) [] = []
  take (suc n) (x ∷ xs) = x ∷ take n xs

  abbrev pub drop : ℕ → List A → List A
  drop zero xs = xs
  drop (suc n) [] = []
  drop (suc n) (x ∷ xs) = drop n xs

  abbrev pub head? : List A → Option A
  head? [] = none
  head? (x ∷ xs) = some x

  abbrev pub filter : (A → Bool) → List A → List A
  filter p [] = []
  filter p (x ∷ xs) = let rest = filter p xs in if p x then x ∷ rest else rest

  abbrev pub any : (A → Bool) → List A → Bool
  any p [] = false
  any p (x ∷ xs) = p x || any p xs

  abbrev pub all : (A → Bool) → List A → Bool
  all p [] = true
  all p (x ∷ xs) = p x && all p xs

  abbrev pub All {κ} : (A → Type κ) → List A → Type κ
  All P [] = Unit
  All P (x ∷ xs) = P x × All P xs

module _ {A : Type 0} where
  -- Membership as a type that computes.
  abbrev pub Elem : A → List A → Type 0
  Elem a [] = ⊥
  Elem a (x ∷ xs) = (a ≡ x) ⊎ Elem a xs

module _ {ℓ} {A : Type ℓ} where
  pub length-append : (xs ys : List A) → length (xs ++ ys) ≡ length xs + length ys
  length-append [] ys = omega arith
  length-append (x ∷ xs) ys = omega (arith, length-append xs ys)

  pub length-take-le : (n : ℕ) (xs : List A) → length (take n xs) ≤ n
  length-take-le zero xs = omega arith
  length-take-le (suc n) [] = omega arith
  length-take-le (suc n) (x ∷ xs) = omega (arith, length-take-le n xs)

  pub length-take : (n : ℕ) (xs : List A) → length (take n xs) ≡ min n (length xs)
  length-take zero xs = omega arith
  length-take (suc n) [] = omega arith
  length-take (suc n) (x ∷ xs) = omega (arith, length-take n xs)

  pub length-drop : (n : ℕ) (xs : List A) → length (drop n xs) ≡ length xs - n
  length-drop zero xs = omega arith
  length-drop (suc n) [] = omega arith
  length-drop (suc n) (x ∷ xs) = omega (arith, length-drop n xs)

  pub take-append-drop : (n : ℕ) (xs : List A) → take n xs ++ drop n xs ≡ xs
  take-append-drop zero xs = refl
  take-append-drop (suc n) [] = refl
  take-append-drop (suc n) (x ∷ xs) = rw (take-append-drop n xs)

  pub drop-drop : (n m : ℕ) (xs : List A) → drop n (drop m xs) ≡ drop (m + n) xs
  drop-drop n zero xs = rw zero-add
  drop-drop zero (suc m) [] = rw suc-add
  drop-drop (suc n) (suc m) [] = rw suc-add
  drop-drop n (suc m) (x ∷ xs) = rw suc-add (drop-drop n m xs)

  pub drop_of_length-le : (n : ℕ) (xs : List A) → length xs ≤ n → drop n xs ≡ []
  drop_of_length-le zero [] h = refl
  drop_of_length-le (suc n) [] h = refl
  drop_of_length-le zero (x ∷ xs) h = absurd (omega arith)
  drop_of_length-le (suc n) (x ∷ xs) h = drop_of_length-le n xs (omega arith)

  pub filter-append :
      (p : A → Bool) (xs ys : List A) → filter p (xs ++ ys) ≡ filter p xs ++ filter p ys
  filter-append p [] ys = refl
  filter-append p (x ∷ xs) ys = ground (arith, filter-append p xs ys)

  pub length-filter-le : (p : A → Bool) (xs : List A) → length (filter p xs) ≤ length xs
  length-filter-le p [] = omega arith
  length-filter-le p (x ∷ xs) = ground (arith, length-filter-le p xs)

  pub All-filter {κ} :
      (P : A → Type κ) (p : A → Bool) (xs : List A) → All P xs → All P (filter p xs)
  All-filter P p [] h = tt
  All-filter P p (x ∷ xs) h = ground (arith, All-filter P p xs h.1)

  pub filter_passes : (p : A → Bool) (xs : List A) → All (λ x. p x ≡ true) (filter p xs)
  filter_passes p [] = tt
  filter_passes p (x ∷ xs) = ground (arith, filter_passes p xs)

  pub All-take {κ} : (P : A → Type κ) (n : ℕ) (xs : List A) → All P xs → All P (take n xs)
  All-take P zero xs h = tt
  All-take P (suc n) [] h = tt
  All-take P (suc n) (x ∷ xs) h = (h.0, All-take P n xs h.1)

  pub All-drop {κ} : (P : A → Type κ) (n : ℕ) (xs : List A) → All P xs → All P (drop n xs)
  All-drop P zero xs h = h
  All-drop P (suc n) [] h = tt
  All-drop P (suc n) (x ∷ xs) h = All-drop P n xs h.1

  pub All-append {κ} : (P : A → Type κ) (xs ys : List A) → All P xs → All P ys → All P (xs ++ ys)
  All-append P [] ys h k = k
  All-append P (x ∷ xs) ys h k = (h.0, All-append P xs ys h.1 k)

  pub All-mono {κ μ} :
      {P : A → Type κ} {Q : A → Type μ}
      → ((x : A) → P x → Q x)
      → (xs : List A) → All P xs
      → All Q xs
  All-mono f [] h = tt
  All-mono f (x ∷ xs) h = (f x h.0, All-mono f xs h.1)

module _ {A : Type 0} where
  pub All_at : (P : A → Type 0) (xs : List A) → All P xs → (a : A) → Elem a xs → P a
  All_at P [] h a m = absurd m
  All_at P (x ∷ xs) h a (inl e) = subst P (sym e) h.0
  All_at P (x ∷ xs) h a (inr m) = All_at P xs h.1 a m

  pub All_of {κ} : {P : A → Type κ} (xs : List A) → ((a : A) → Elem a xs → P a) → All P xs
  All_of [] f = tt
  All_of (x ∷ xs) f = (f x (inl refl), All_of xs (λ a m. f a (inr m)))

  pub Elem_front : (a : A) (xs ys : List A) → Elem a xs → Elem a (xs ++ ys)
  Elem_front a [] ys m = absurd m
  Elem_front a (x ∷ xs) ys (inl e) = inl e
  Elem_front a (x ∷ xs) ys (inr m) = inr (Elem_front a xs ys m)

  pub prefix_grows : (xs ys : List A) (a : A) → Elem a ys → Elem a (xs ++ ys)
  prefix_grows [] ys a m = m
  prefix_grows (x ∷ xs) ys a m = inr (prefix_grows xs ys a m)

  pub Elem-filter :
      (p : A → Bool) (xs : List A) (a : A) → Elem a xs → p a ≡ true → Elem a (filter p xs)
  Elem-filter p [] a m h = elim m [ ]
  Elem-filter p (x ∷ xs) a (inl e) h = rw (← e, h) (inl refl)
  Elem-filter p (x ∷ xs) a (inr m) h = elim (Bool-cases (p x)) [
    | inl e ↦ rw e (inr (Elem-filter p xs a m h))
    | inr e ↦ rw e (Elem-filter p xs a m h)
  ]

  kept_row :
      (b : Bool) (x : A) (xs ys : List A) (a : A)
      → (Elem a xs → Elem a ys)
      → Elem a (if b then x ∷ xs else xs)
      → Elem a (x ∷ ys)
  kept_row true x xs ys a f (inl e) = inl e
  kept_row true x xs ys a f (inr m) = inr (f m)
  kept_row false x xs ys a f m = inr (f m)

  pub filter_subset : (p : A → Bool) (xs : List A) (a : A) → Elem a (filter p xs) → Elem a xs
  filter_subset p [] a m = m
  filter_subset p (x ∷ xs) a m = kept_row (p x) x (filter p xs) xs a (filter_subset p xs a) m

module _ {A B : Type 0} (f : A → B) where
  pub Elem-map_iff : (xs : List A) (b : B) → Elem b (map f xs) ↔ ((a : A) × Elem a xs × (b ≡ f a))
  Elem-map_iff [] b = (λ m. absurd m, λ (a, m, e). absurd m)
  Elem-map_iff (x ∷ xs) b = grow (Elem-map_iff xs b)
    where
      grow :
          Elem b (map f xs) ↔ ((a : A) × Elem a xs × (b ≡ f a))
          → Elem b (map f (x ∷ xs)) ↔ ((a : A) × Elem a (x ∷ xs) × (b ≡ f a))
      grow ih = (
        λ m. elim m [
          | inl e ↦ (x, inl refl, e)
          | inr k ↦ let (a, m', e) = ih.0 k in (a, inr m', e)
        ],
        λ (a, m, e). elim m [ inl p ↦ inl (e ∙ ap f p) | inr k ↦ inr (ih.1 (a, k, e)) ],
      )
