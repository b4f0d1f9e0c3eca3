-- ===== src/Base/Canonical.antt =====
-- A table has one sorted list, in whatever order its rows are stored.
use mathlib.Core.Path.{◌≡◌, refl, sym, ap, ◌∙◌, subst}
use Prim.Native.Nat.{ℕ}
use mathlib.Core.Logic.{◌≢◌, inl, inr, ◌↔◌}
use mathlib.Core.Bool.{Bool, true, false}
use mathlib.Core.List.{List, [], ◌∷◌}
use ticketflow.Base.Tests.{Bool-cases, Option-cases}
use ticketflow.Base.Lists.{
  All, All_at, All_of, Elem, filter, Elem-filter, filter_subset, filter_passes,
}
use ticketflow.Base.Find.{
  Distinct, Distinct-unique, Distinct-filter, key_mem, find, find_sound, find_complete, find-none,
  find_fails,
}
use ticketflow.Base.Sort.{
  insert_by, order_by, IsOrdered, All-insert_by, All-order_by, Elem-order_by, order_by-IsOrdered,
}

-- The same rows, whatever their order.
pub record SameRows {A : Type 0} (key : A → ℕ) (xs ys : List A) : Type 0 where
  pub left : Distinct key xs
  pub right : Distinct key ys
  pub same : (a : A) → Elem a xs ↔ Elem a ys

module _ {A : Type 0} (key : A → ℕ) (le : A → A → Bool) where
  Distinct-insert_by :
      (x : A) (xs : List A)
      → All (λ y. key y ≢ key x) xs
      → Distinct key xs
      → Distinct key (insert_by le x xs)
  unfolding insert_by
  Distinct-insert_by x [] h d = (tt, tt)
  Distinct-insert_by x (y ∷ ys) h d = elim (Bool-cases (le x y)) [
    | inl e ↦ rw e (h, d)
    | inr e ↦ rw e (
      All-insert_by le (λ z. key z ≢ key y) x ys (λ p. h.0 (sym p)) d.0,
      Distinct-insert_by x ys h.1 d.1,
    )
  ]

  Distinct-order_by : (xs : List A) → Distinct key xs → Distinct key (order_by le xs)
  unfolding order_by
  Distinct-order_by [] d = tt
  Distinct-order_by (x ∷ xs) d =
      Distinct-insert_by x (order_by le xs) (All-order_by le (λ y. key y ≢ key x) xs d.0)
        (Distinct-order_by xs d.1)

  module _ (antisym : (x y : A) → le x y ≡ true → le y x ≡ true → key x ≡ key y) where
    -- The first rows of two sorted lists of the same rows.
    heads :
        (x y : A) (xs ys : List A)
        → IsOrdered le (x ∷ xs)
        → IsOrdered le (y ∷ ys)
        → SameRows key (x ∷ xs) (y ∷ ys)
        → x ≡ y
    heads x y xs ys h k s = elim ((s.same x).0 (inl refl)) [
      | inl e ↦ e
      | inr m ↦ elim ((s.same y).1 (inl refl)) [
        | inl e ↦ sym e
        | inr m' ↦ Distinct-unique key (x ∷ xs) x y s.left (inl refl) (inr m') (
            antisym x y (All_at (λ z. le x z ≡ true) xs h.0 y m')
              (All_at (λ z. le y z ≡ true) ys k.0 x m))
      ]
    ]

    -- The rows behind a common first row.
    behind :
        (x a : A) (xs ys : List A)
        → All (λ z. key z ≢ key x) xs
        → (Elem a (x ∷ xs) → Elem a (x ∷ ys))
        → Elem a xs
        → Elem a ys
    behind x a xs ys d f m = elim (f (inr m)) [
      | inl e ↦ absurd (key_mem key a x xs d m (ap key e))
      | inr k ↦ k
    ]

    sorted_unique :
        (xs ys : List A) → IsOrdered le xs → IsOrdered le ys → SameRows key xs ys → xs ≡ ys
    sorted_unique [] [] h k s = refl
    sorted_unique [] (y ∷ ys) h k s = absurd ((s.same y).1 (inl refl))
    sorted_unique (x ∷ xs) [] h k s = absurd ((s.same x).0 (inl refl))
    sorted_unique (x ∷ xs) (y ∷ ys) h k s =
        let e = heads x y xs ys h k s in
        let s' : SameRows key (x ∷ xs) (x ∷ ys) =
          subst (λ z. SameRows key (x ∷ xs) (z ∷ ys)) (sym e) s in
        let rest : SameRows key xs ys = record {
          left = s'.left.1;
          right = s'.right.1;
          same = λ a.
              (behind x a xs ys s'.left.0 (s'.same a).0, behind x a ys xs s'.right.0 (s'.same a).1);
        } in
        ap (◌∷◌ x) (sorted_unique xs ys h.1 k.1 rest) ∙ ap (λ z. z ∷ ys) e

    pub order_by-SameRows :
        (total : (x y : A) → le x y ≡ false → le y x ≡ true)
        → (trans : (x y z : A) → le x y ≡ true → le y z ≡ true → le x z ≡ true) → (xs ys : List A)
        → SameRows key xs ys
        → order_by le xs ≡ order_by le ys
    order_by-SameRows total trans xs ys s =
        sorted_unique (order_by le xs) (order_by le ys) (order_by-IsOrdered le total trans xs)
          (order_by-IsOrdered le total trans ys)
          (record {
            left = Distinct-order_by xs s.left;
            right = Distinct-order_by ys s.right;
            same = λ a. (
              λ m. (Elem-order_by le ys a).1 ((s.same a).0 ((Elem-order_by le xs a).0 m)),
              λ m. (Elem-order_by le xs a).1 ((s.same a).1 ((Elem-order_by le ys a).0 m)),
            );
          })

module _ {A : Type 0} (key : A → ℕ) where
  pub filter-SameRows :
      (p : A → Bool) (xs ys : List A)
      → SameRows key xs ys
      → SameRows key (filter p xs) (filter p ys)
  filter-SameRows p xs ys s = record {
    left = Distinct-filter key p xs s.left;
    right = Distinct-filter key p ys s.right;
    same = λ a. (
      λ m.
          Elem-filter p ys a ((s.same a).0 (filter_subset p xs a m))
            (All_at (λ x. p x ≡ true) (filter p xs) (filter_passes p xs) a m),
      λ m.
          Elem-filter p xs a ((s.same a).1 (filter_subset p ys a m))
            (All_at (λ x. p x ≡ true) (filter p ys) (filter_passes p ys) a m),
    );
  }

  -- A search that only rows of one key pass has one result.
  pub find-SameRows :
      (p : A → Bool) (xs ys : List A)
      → ((x y : A) → p x ≡ true → p y ≡ true → key x ≡ key y)
      → SameRows key xs ys
      → find p xs ≡ find p ys
  find-SameRows p xs ys one s = elim (Option-cases (find p xs)) [
    | inr (a, e) ↦
        let (m, q) = find_sound p xs a e in
        e ∙ sym (find_complete key p ys a s.right ((s.same a).0 m) q (λ x px. one x a px q))
    | inl e ↦
        let none_left = find-none p xs e in
        e
        ∙ sym (
            find_fails p ys
              (All_of ys (λ y m. All_at (λ x. p x ≡ false) xs none_left y ((s.same y).1 m))))
  ]
