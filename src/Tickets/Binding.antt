-- ===== src/Tickets/Binding.antt =====
-- What a request for a page of `list_tickets` of app/services/ticket_service.py may bind.
use ticketflow.Base.{
  leb, nat_beq_iff, ◌==◌, nat_eq, not, any, true, false, [], ◌∷◌, ◌≢◌, ◌↔◌, Bool-cases, ℕ, ◌≤◌, ◌*◌,
  ◌-◌, ◌≡◌, refl, inl, inr, arith, All,
}
use ticketflow.Base.Text.{Text}
use ticketflow.Tickets.Query.{ListParameters, normalized_query, binds}

-- The statement's values reach the database: its OFFSET is at most the largest integer that the driver
-- binds, and the text that is searched has no character 0.
abbrev pub Reaches : (most : ℕ) → ListParameters → Type 0
Reaches most p = ((p.page - 1) * p.page_size ≤ most) × All (λ c. c ≢ 0) (normalized_query p.query)

leb_bound : {n most : ℕ} → leb n most ≡ true → n ≤ most
leb_bound h = ground arith

leb_beyond : {n most : ℕ} → leb n most ≡ false → ¬ (n ≤ most)
leb_beyond h k = ground arith

no_zero_iff : (s : Text) → (not (any (λ c. c == 0) s) ≡ true) ↔ All (λ c. c ≢ 0) s
no_zero_iff [] = (λ h. tt, λ h. refl)
no_zero_iff (c ∷ s) =
    let rest = no_zero_iff s in
    elim (Bool-cases (c == 0)) [
      | inl e ↦ rw e (λ h. cc, λ h. absurd (h.0 ((nat_beq_iff c 0).0 e)))
      | inr e ↦ rw e (
        λ h. ((λ q. let b : (c == 0) ≡ true = (nat_beq_iff c 0).1 q in cc), rest.0 h),
        λ h. rest.1 h.1,
      )
    ]

pub binds_iff : (most : ℕ) (p : ListParameters) → (binds most p ≡ true) ↔ Reaches most p
unfolding binds
binds_iff most p =
    let text = no_zero_iff (normalized_query p.query) in
    elim (Bool-cases (leb ((p.page - 1) * p.page_size) most)) [
      | inl e ↦ rw e (λ h. (leb_bound e, text.0 h), λ h. text.1 h.1)
      | inr e ↦ rw e (λ h. cc, λ h. absurd (leb_beyond e h.0))
    ]
