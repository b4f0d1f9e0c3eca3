-- ===== src/Base/Find.antt =====
-- The first row that passes a test, and tables whose rows have distinct keys.
use Prim.Native.Nat.{ℕ}
use mathlib.Core.Path.{◌≡◌, refl, sym, subst, ap, ◌∙◌}
use mathlib.Core.Logic.{◌≢◌, inl, inr}
use mathlib.Core.Bool.{Bool, true, false, ◌&&◌}
use mathlib.Core.List.{List, [], ◌∷◌, map}
use mathlib.Core.Option.{Option, none, some}
use native.Mathlib.Omega.{arith}
use ticketflow.Base.Tests.{Bool-cases}
use ticketflow.Base.Lists.{filter, head?, All, All-filter, Elem}

module _ {A : Type 0} where
  abbrev pub find : (A → Bool) → List A → Option A
  find p xs = head? (filter p xs)

  pub filter-filter :
      (p q : A → Bool) (xs : List A) → filter (λ x. p x && q x) xs ≡ filter q (filter p xs)
  filter-filter p q [] = refl
  filter-filter p q (x ∷ xs) = ground (arith, filter-filter p q xs)

  pub find_sound :
      (p : A → Bool) (xs : List A) (a : A) → find p xs ≡ some a → Elem a xs × (p a ≡ true)
  find_sound p [] a h = cc
  find_sound p (x ∷ xs) a h = elim (Bool-cases (p x)) [
    | inl e ↦
        let s : some x ≡ some a = rw e at h in
        let q : x ≡ a = cc in (inl (sym q), subst (λ y. p y ≡ true) q e)
    | inr e ↦ let (m, q) = find_sound p xs a (rw e at h) in (inr m, q)
  ]

  pub find-none : (p : A → Bool) (xs : List A) → find p xs ≡ none → All (λ x. p x ≡ false) xs
  find-none p [] h = tt
  find-none p (x ∷ xs) h = elim (Bool-cases (p x)) [
    | inl e ↦ let s : some x ≡ none = rw e at h in cc
    | inr e ↦ (e, find-none p xs (rw e at h))
  ]

  pub find_fails : (p : A → Bool) (xs : List A) → All (λ x. p x ≡ false) xs → find p xs ≡ none
  find_fails p [] h = refl
  find_fails p (x ∷ xs) h = rw h.0 (find_fails p xs h.1)

  module _ (key : A → ℕ) where
    abbrev pub Distinct : List A → Type 0
    Distinct [] = Unit
    Distinct (x ∷ xs) = All (λ y. key y ≢ key x) xs × Distinct xs

    pub key_mem : (a x : A) (xs : List A) → All (λ y. key y ≢ key x) xs → Elem a xs → key a ≢ key x
    key_mem a x [] h m = elim m [ ]
    key_mem a x (y ∷ ys) h (inl e) = rw e h.0
    key_mem a x (y ∷ ys) h (inr m) = key_mem a x ys h.1 m

    pub Distinct-unique :
        (xs : List A) (a b : A) → Distinct xs → Elem a xs → Elem b xs → key a ≡ key b → a ≡ b
    Distinct-unique [] a b d m k e = elim m [ ]
    Distinct-unique (x ∷ xs) a b d (inl p) (inl q) e = p ∙ sym q
    Distinct-unique (x ∷ xs) a b d (inl p) (inr k) e =
        absurd (key_mem b x xs d.0 k (sym e ∙ ap key p))
    Distinct-unique (x ∷ xs) a b d (inr m) (inl q) e = absurd (key_mem a x xs d.0 m (e ∙ ap key q))
    Distinct-unique (x ∷ xs) a b d (inr m) (inr k) e = Distinct-unique xs a b d.1 m k e

    pub find_complete :
        (p : A → Bool) (xs : List A) (a : A)
        → Distinct xs
        → Elem a xs
        → p a ≡ true
        → ((x : A) → p x ≡ true → key x ≡ key a)
        → find p xs ≡ some a
    find_complete p [] a d m pa same = elim m [ ]
    find_complete p (x ∷ xs) a d (inl e) pa same = rw (← e, pa)
    find_complete p (x ∷ xs) a d (inr m) pa same = elim (Bool-cases (p x)) [
      | inl e ↦ absurd (key_mem a x xs d.0 m (sym (same x e)))
      | inr e ↦ rw e (find_complete p xs a d.1 m pa same)
    ]

    pub Distinct-filter : (p : A → Bool) (xs : List A) → Distinct xs → Distinct (filter p xs)
    Distinct-filter p [] d = tt
    Distinct-filter p (x ∷ xs) d = elim (Bool-cases (p x)) [
      | inl e ↦ rw e (All-filter (λ y. key y ≢ key x) p xs d.0, Distinct-filter p xs d.1)
      | inr e ↦ rw e (Distinct-filter p xs d.1)
    ]

    module _ (f : A → A) (keeps : (x : A) → key (f x) ≡ key x) where
      All-map-key :
          (k : ℕ) (xs : List A) → All (λ y. key y ≢ k) xs → All (λ y. key y ≢ k) (map f xs)
      All-map-key k [] h = tt
      All-map-key k (x ∷ xs) h = (rw (keeps x) h.0, All-map-key k xs h.1)

      pub Distinct-map : (xs : List A) → Distinct xs → Distinct (map f xs)
      Distinct-map [] d = tt
      Distinct-map (x ∷ xs) d = (rw (keeps x) (All-map-key (key x) xs d.0), Distinct-map xs d.1)

module _ {A B : Type 0} (f : A → B) where
  abbrev pub Option_map : Option A → Option B
  Option_map none = none
  Option_map (some a) = some (f a)

  -- A search by what a function keeps of the rows.
  pub map-find :
      (q : B → Bool) (xs : List A) → Option_map (find (λ a. q (f a)) xs) ≡ find q (map f xs)
  map-find q [] = refl
  map-find q (x ∷ xs) = elim (Bool-cases (q (f x))) [
    | inl e ↦ rw e refl
    | inr e ↦ rw e (map-find q xs)
  ]
