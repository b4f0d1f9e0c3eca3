-- ===== src/Base/Sort.antt =====
-- Stable insertion by a Boolean order: what `ORDER BY` makes of a list of rows.
use mathlib.Core.Path.{◌≡◌, refl, ap, ◌∙◌}
use Prim.Native.Nat.{suc}
use mathlib.Core.Logic.{inl, inr, ◌↔◌}
use mathlib.Core.Bool.{Bool, true, false}
use mathlib.Core.List.{List, [], ◌∷◌, map, Perm}
use mathlib.Core.List.Perm
use native.Mathlib.Omega.{arith}
use ticketflow.Base.Tests.{if◌then◌else◌, Bool-cases}
use ticketflow.Base.Lists.{All, All-mono, length, Elem}

module _ {ℓ} {A : Type ℓ} (le : A → A → Bool) where
  unfoldable pub insert_by : A → List A → List A
  insert_by x [] = x ∷ []
  insert_by x (y ∷ ys) = if le x y then x ∷ y ∷ ys else y ∷ insert_by x ys

  unfoldable pub order_by : List A → List A
  unfolding insert_by
  order_by [] = []
  order_by (x ∷ xs) = insert_by x (order_by xs)

  abbrev pub IsOrdered : List A → Type 0
  IsOrdered [] = Unit
  IsOrdered (x ∷ xs) = All (λ y. le x y ≡ true) xs × IsOrdered xs

  insert_by-perm : (x : A) (xs : List A) → Perm (insert_by x xs) (x ∷ xs)
  unfolding insert_by
  insert_by-perm x [] = Perm.refl (x ∷ [])
  insert_by-perm x (y ∷ ys) = elim (Bool-cases (le x y)) [
    | inl e ↦ rw e (Perm.refl (x ∷ y ∷ ys))
    | inr e ↦ rw e (Perm.trans (Perm.cons y (insert_by-perm x ys)) (Perm.swap x y ys))
  ]

  pub order_by-perm : (xs : List A) → Perm (order_by xs) xs
  unfolding order_by
  order_by-perm [] = Perm.refl []
  order_by-perm (x ∷ xs) =
      Perm.trans (insert_by-perm x (order_by xs)) (Perm.cons x (order_by-perm xs))

  length-insert_by : (x : A) (xs : List A) → length (insert_by x xs) ≡ suc (length xs)
  unfolding insert_by
  length-insert_by x [] = refl
  length-insert_by x (y ∷ ys) = ground (arith, length-insert_by x ys)

  pub length-order_by : (xs : List A) → length (order_by xs) ≡ length xs
  unfolding order_by
  length-order_by [] = refl
  length-order_by (x ∷ xs) = length-insert_by x (order_by xs) ∙ ap suc (length-order_by xs)

  module _ {κ} (P : A → Type κ) where
    pub All-insert_by : (x : A) (xs : List A) → P x → All P xs → All P (insert_by x xs)
    unfolding insert_by
    All-insert_by x [] p h = (p, tt)
    All-insert_by x (y ∷ ys) p h = elim (Bool-cases (le x y)) [
      | inl e ↦ rw e (p, h)
      | inr e ↦ rw e (h.0, All-insert_by x ys p h.1)
    ]

    pub All-order_by : (xs : List A) → All P xs → All P (order_by xs)
    unfolding order_by
    All-order_by [] h = tt
    All-order_by (x ∷ xs) h = All-insert_by x (order_by xs) h.0 (All-order_by xs h.1)

  module _ (total : (x y : A) → le x y ≡ false → le y x ≡ true)
      (trans : (x y z : A) → le x y ≡ true → le y z ≡ true → le x z ≡ true) where
    insert_by-IsOrdered : (x : A) (xs : List A) → IsOrdered xs → IsOrdered (insert_by x xs)
    unfolding insert_by
    insert_by-IsOrdered x [] h = (tt, tt)
    insert_by-IsOrdered x (y ∷ ys) h = elim (Bool-cases (le x y)) [
      | inl e ↦ rw e ((e, All-mono (λ z q. trans x y z e q) ys h.0), h)
      | inr e ↦
          rw e (
            All-insert_by (λ z. le y z ≡ true) x ys (total x y e) h.0,
            insert_by-IsOrdered x ys h.1,
          )
    ]

    pub order_by-IsOrdered : (xs : List A) → IsOrdered (order_by xs)
    unfolding order_by
    order_by-IsOrdered [] = tt
    order_by-IsOrdered (x ∷ xs) = insert_by-IsOrdered x (order_by xs) (order_by-IsOrdered xs)

module _ {A : Type 0} (le : A → A → Bool) where
  Elem-insert_by : (x : A) (xs : List A) (a : A) → Elem a (insert_by le x xs) ↔ Elem a (x ∷ xs)
  unfolding insert_by
  Elem-insert_by x [] a = (λ m. m, λ m. m)
  Elem-insert_by x (y ∷ ys) a = elim (Bool-cases (le x y)) [
    | inl e ↦ rw e (λ m. m, λ m. m)
    | inr e ↦ rw e (later (Elem-insert_by x ys a))
  ]
    where
      later :
          Elem a (insert_by le x ys) ↔ Elem a (x ∷ ys)
          → Elem a (y ∷ insert_by le x ys) ↔ Elem a (x ∷ y ∷ ys)
      later ih = (
        λ m. elim m [
          | inl p ↦ inr (inl p)
          | inr k ↦ elim (ih.0 k) [ inl p ↦ inl p | inr q ↦ inr (inr q) ]
        ],
        λ m. elim m [
          | inl p ↦ inr (ih.1 (inl p))
          | inr k ↦ elim k [ inl p ↦ inl p | inr q ↦ inr (ih.1 (inr q)) ]
        ],
      )

  pub Elem-order_by : (xs : List A) (a : A) → Elem a (order_by le xs) ↔ Elem a xs
  unfolding order_by
  Elem-order_by [] a = (λ m. m, λ m. m)
  Elem-order_by (x ∷ xs) a =
      let ih = Elem-order_by xs a in
      let step = Elem-insert_by x (order_by le xs) a in
      (
        λ m. elim (step.0 m) [ inl p ↦ inl p | inr k ↦ inr (ih.0 k) ],
        λ m. step.1 (elim m [ inl p ↦ inl p | inr k ↦ inr (ih.1 k) ]),
      )

-- Sorting commutes with a function that keeps the order.
module _ {A B : Type 0} (f : A → B) (le : A → A → Bool) (le' : B → B → Bool)
    (keeps : (x y : A) → le' (f x) (f y) ≡ le x y) where
  map-insert_by : (x : A) (xs : List A) → map f (insert_by le x xs) ≡ insert_by le' (f x) (map f xs)
  unfolding insert_by
  map-insert_by x [] = refl
  map-insert_by x (y ∷ ys) = elim (Bool-cases (le x y)) [
    | inl e ↦ rw (keeps x y, e) refl
    | inr e ↦ rw (keeps x y, e, map-insert_by x ys) refl
  ]

  pub map-order_by : (xs : List A) → map f (order_by le xs) ≡ order_by le' (map f xs)
  unfolding order_by
  map-order_by [] = refl
  map-order_by (x ∷ xs) =
      map-insert_by x (order_by le xs) ∙ ap (insert_by le' (f x)) (map-order_by xs)
