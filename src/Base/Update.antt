-- ===== src/Base/Update.antt =====
-- Tables under an overwritten row and under deleted rows.
use Prim.Native.Nat.{ℕ}
use mathlib.Core.Path.{◌≡◌, refl, sym, ap, ◌∙◌}
use mathlib.Core.Logic.{◌≢◌, ◌↔◌, ◌⊎◌, inl, inr}
use mathlib.Core.Bool.{true, not}
use mathlib.Core.List.{List, [], ◌∷◌, map}
use native.Mathlib.Omega.{arith}
use ticketflow.Base.Tests.{if◌then◌else◌, Bool-cases, ◌==◌, nat_eq, nat_beq_iff}
use ticketflow.Base.Lists.{filter, All, Elem, Elem-filter, filter_subset, filter_passes, All_at}

either_iff : {P Q X Y : Type 0} → P ↔ Q → X ↔ Y → (P ⊎ X) ↔ (Q ⊎ Y)
either_iff f g = (
  λ m. elim m [ inl p ↦ inl (f.0 p) | inr k ↦ inr (g.0 k) ],
  λ m. elim m [ inl p ↦ inl (f.1 p) | inr k ↦ inr (g.1 k) ],
)

module _ {A : Type 0} (key : A → ℕ) where
  -- `UPDATE … WHERE key = …`, all columns at once.
  abbrev pub overwrite : A → List A → List A
  overwrite a = map (λ row. if key row == key a then a else row)

  -- `DELETE … WHERE key = …`
  abbrev pub delete_key : ℕ → List A → List A
  delete_key k = filter (λ row. not (key row == k))

  pub overwrite_self :
      (a old : A) (xs : List A) → Elem old xs → key old ≡ key a → Elem a (overwrite a xs)
  overwrite_self a old [] m e = elim m [ ]
  overwrite_self a old (x ∷ xs) (inl p) e =
      let same : (key x == key a) ≡ true = (nat_beq_iff (key x) (key a)).1 (ap key (sym p) ∙ e) in
      rw same (inl refl)
  overwrite_self a old (x ∷ xs) (inr m) e = inr (overwrite_self a old xs m e)

  pub overwrite_others :
      (a b : A) (xs : List A) → key b ≢ key a → Elem b (overwrite a xs) ↔ Elem b xs
  overwrite_others a b [] h = (λ m. m, λ m. m)
  overwrite_others a b (x ∷ xs) h = elim (Bool-cases (key x == key a)) [
    | inl e ↦
        let same : key x ≡ key a = (nat_beq_iff (key x) (key a)).0 e in
        rw e (
          either_iff (λ p. absurd (h (ap key p)), λ p. absurd (h (ap key p ∙ same)))
            (overwrite_others a b xs h))
    | inr e ↦ rw e (either_iff (λ p. p, λ p. p) (overwrite_others a b xs h))
  ]

  -- The overwritten row is the only one with its key.
  pub overwrite_only : (a b : A) (xs : List A) → Elem b (overwrite a xs) → key b ≡ key a → b ≡ a
  overwrite_only a b [] m h = elim m [ ]
  overwrite_only a b (x ∷ xs) (inl p) h = elim (Bool-cases (key x == key a)) [
    | inl e ↦ rw e at p
    | inr e ↦
        let q : b ≡ x = rw e at p in
        let clash : (key x == key a) ≡ true =
          (nat_beq_iff (key x) (key a)).1 (ap key (sym q) ∙ h) in
        cc
  ]
  overwrite_only a b (x ∷ xs) (inr m) h = overwrite_only a b xs m h

  pub delete_key_iff :
      (k : ℕ) (b : A) (xs : List A) → Elem b (delete_key k xs) ↔ (Elem b xs × (key b ≢ k))
  delete_key_iff k b xs = (
    λ m. (
      filter_subset (λ row. not (key row == k)) xs b m,
      λ e.
          let t : not (key b == k) ≡ true =
            All_at (λ row. not (key row == k) ≡ true) (delete_key k xs)
              (filter_passes (λ row. not (key row == k)) xs) b m in
          ground arith,
    ),
    λ h. Elem-filter (λ row. not (key row == k)) xs b h.0 (let n : key b ≢ k = h.1 in ground arith),
  )

pub All-overwrite :
    {A : Type 0} (P : A → Type 0) (key : A → ℕ) (a : A) (xs : List A)
    → P a
    → All P xs
    → All P (overwrite key a xs)
All-overwrite P key a [] p h = tt
All-overwrite P key a (x ∷ xs) p h = elim (Bool-cases (key x == key a)) [
  | inl e ↦ rw e (p, All-overwrite P key a xs p h.1)
  | inr e ↦ rw e (h.0, All-overwrite P key a xs p h.1)
]
