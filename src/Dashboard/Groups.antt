-- ===== src/Dashboard/Groups.antt =====
-- The dictionaries of app/services/dashboard_service.py: what a field reads after the rows of a GROUP BY
-- are written over the zeros.
use Prim.Native.String.{String}
use ticketflow.Base.{
  ℕ, ◌≡◌, refl, sym, ap, ◌∙◌, inl, inr, Bool, true, false, not, ◌||◌, any, map, List, [], ◌∷◌,
  Bool-cases, filter, length, ◌==◌, string_eq, Equality, if◌then◌else◌,
}
use ticketflow.Base.Dict
use ticketflow.Base.Dict.{Dict, get-put}
use ticketflow.Models.{Ticket, status_eq, priority_eq, category_eq}
use ticketflow.Dashboard.{distinct, group_by, assign, field_of}

-- How many of the tickets have the value in the field.
abbrev pub count_of : {A : Type 0} → ⦃equality : Equality A⦄ → (Ticket → A) → A → List Ticket → ℕ
count_of field a ts = length (filter (λ t. field t == a) ts)

combined :
    (b c : Bool) (m n k : ℕ)
    → (b ≡ true → m ≡ n)
    → (if c then m else if b then n else k) ≡ (if b || c then m else k)
combined true true m n k h = refl
combined true false m n k h = sym (h refl)
combined false true m n k h = refl
combined false false m n k h = refl

module _ {A : Type 0} ⦃equality : Equality A⦄ (value : A → String)
    (apart : (a b : A) → (value a == value b) ≡ (a == b)) where
  field_of-put :
      (a b : A) (n : ℕ) (counts : Dict ℕ)
      → field_of (value a) (Dict.put (value b) n counts)
        ≡ (if a == b then n else field_of (value a) counts)
  unfolding field_of
  field_of-put a b n counts =
      rw (field_of, get-put (value a) (value b) n counts, apart a b)
        (elim (Bool-cases (a == b)) [ inl e ↦ rw e refl | inr e ↦ rw e refl ])

  -- The value that the rows of a GROUP BY have for `a`, or else what stood there before.
  abbrev row_of : A → List (A × ℕ) → ℕ → ℕ
  row_of a [] before = before
  row_of a (row ∷ rows) before = row_of a rows (if a == row.0 then row.1 else before)

  field_of-assign :
      (a : A) (rows : List (A × ℕ)) (counts : Dict ℕ)
      → field_of (value a) (assign value rows counts) ≡ row_of a rows (field_of (value a) counts)
  unfolding assign
  field_of-assign a [] counts = refl
  field_of-assign a (row ∷ rows) counts =
      rw
        (
          field_of-assign a rows (Dict.put (value row.0) row.1 counts),
          field_of-put a row.0 row.1 counts,
        )
        refl

  row_of-rows :
      (a : A) (f : A → ℕ) (xs : List A) (before : ℕ)
      → row_of a (map {B = A × ℕ} (λ b. (b, f b)) xs) before
        ≡ (if any (λ b. a == b) xs then f a else before)
  row_of-rows a f [] before = refl
  row_of-rows a f (x ∷ xs) before =
      row_of-rows a f xs (if a == x then f x else before)
      ∙ combined (a == x) (any (λ b. a == b) xs) (f a) (f x) before
          (λ e. ap f ((equality.test_iff a x).0 e))

module _ {A : Type 0} ⦃equality : Equality A⦄ where
  clash : (a x y : A) → (a == x) ≡ false → (y == x) ≡ true → (a == y) ≡ false
  clash a x y h e = elim (Bool-cases (a == y)) [
    | inr n ↦ n
    | inl p ↦
        let q : (a == x) ≡ true =
          (equality.test_iff a x).1 ((equality.test_iff a y).0 p ∙ (equality.test_iff y x).0 e) in
        let c : true ≡ false = sym q ∙ h in cc
  ]

  any-without :
      (a x : A) (ys : List A)
      → (a == x) ≡ false
      → any (λ b. a == b) (filter (λ b. not (b == x)) ys) ≡ any (λ b. a == b) ys
  any-without a x [] h = refl
  any-without a x (y ∷ ys) h = elim (Bool-cases (y == x)) [
    | inl e ↦ rw (e, clash a x y h e) (any-without a x ys h)
    | inr e ↦ rw (e, any-without a x ys h) refl
  ]

  any-distinct : (a : A) (xs : List A) → any (λ b. a == b) (distinct xs) ≡ any (λ b. a == b) xs
  unfolding distinct
  any-distinct a [] = refl
  any-distinct a (x ∷ xs) = elim (Bool-cases (a == x)) [
    | inl e ↦ rw e refl
    | inr e ↦ rw (e, any-without a x (distinct xs) e) (any-distinct a xs)
  ]

  count-absent :
      (field : Ticket → A) (a : A) (ts : List Ticket)
      → any (λ b. a == b) (map field ts) ≡ false
      → count_of field a ts ≡ 0
  count-absent field a [] h = refl
  count-absent field a (t ∷ ts) h = elim (Bool-cases (a == field t)) [
    | inl e ↦ let c : true ≡ false = rw e at h in cc
    | inr e ↦ rw (differs field a t e) (count-absent field a ts (rw e at h))
  ]
    where
      differs :
          (field : Ticket → A) (a : A) (t : Ticket)
          → (a == field t) ≡ false
          → (field t == a) ≡ false
      differs field a t e = elim (Bool-cases (field t == a)) [
        | inr n ↦ n
        | inl p ↦
            let q : (a == field t) ≡ true =
              (equality.test_iff a (field t)).1 (sym ((equality.test_iff (field t) a).0 p)) in
            let c : true ≡ false = sym q ∙ e in cc
      ]

module _ {A : Type 0} ⦃equality : Equality A⦄ (value : A → String)
    (apart : (a b : A) → (value a == value b) ≡ (a == b)) where
  -- With a dictionary that starts from 0, the field of a member holds its count.
  pub field_of-counts :
      (field : Ticket → A) (a : A) (ts : List Ticket) (counts : Dict ℕ)
      → field_of (value a) counts ≡ 0
      → field_of (value a) (assign value (group_by field ts) counts) ≡ count_of field a ts
  unfolding group_by
  field_of-counts field a ts counts h =
      field_of-assign value apart a (group_by field ts) counts
      ∙ (row_of-rows value apart a (λ b. count_of field b ts) (distinct (map field ts))
            (field_of (value a) counts)
          ∙ elim (Bool-cases (any (λ b. a == b) (map field ts))) [
            | inl e ↦ rw (any-distinct a (map field ts), e) refl
            | inr e ↦ rw (any-distinct a (map field ts), e) (h ∙ sym (count-absent field a ts e))
          ])
