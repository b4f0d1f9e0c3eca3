-- ===== src/Models/Members.antt =====
-- The enumerations of app/models as `enum` makes them: `TicketStatus("OPEN")` is the member with that
-- value, and there is at most one.
use ticketflow.Base.{◌≡◌, refl, sym, ◌↔◌, Option, some, List, [], ◌∷◌, find, find_sound}
use ticketflow.Base.Text.{Text, codes, text_beq, text_beq_iff}
use ticketflow.Models.Enums.{
  TicketCategory, TicketPriority, TicketStatus, WebhookEventType, billing, technical, general, low,
  medium, high, opened, in_progress, resolved, closed, ticket_created, ticket_status_changed,
  category_value, priority_value, status_value, event_value,
}

pub record Enumeration (A : Type 0) : Type 0 where
  pub members : List A
  pub value : A → Text
  pub value-found : (a : A) → find (λ m. text_beq (value m) (value a)) members ≡ some a

module _ {A : Type 0} ⦃enum : Enumeration A⦄ where
  unfoldable pub by_value : Text → Option A
  by_value t = find (λ m. text_beq (enum.value m) t) enum.members

  -- A text is the value of the member that it stands for, and each value stands for its member.
  pub by_value_iff : (t : Text) (a : A) → (by_value t ≡ some a) ↔ (t ≡ enum.value a)
  unfolding by_value
  by_value_iff t a = (
    λ h. sym (
        (text_beq_iff (enum.value a) t).0
          (find_sound (λ m. text_beq (enum.value m) t) enum.members a h).1),
    λ e. rw e (enum.value-found a),
  )

instance abbrev pub category_members : Enumeration TicketCategory
unfolding category_value
category_members = record {
  members = billing ∷ technical ∷ general ∷ [];
  value = λ c. codes (category_value c);
  value-found = found;
}
  where
    found :
        (a : TicketCategory)
        → find
            (λ m. text_beq (codes (category_value m)) (codes (category_value a)))
            (billing ∷ technical ∷ general ∷ [])
          ≡ some a
    found billing = refl
    found technical = refl
    found general = refl

instance abbrev pub priority_members : Enumeration TicketPriority
unfolding priority_value
priority_members = record {
  members = low ∷ medium ∷ high ∷ [];
  value = λ m. codes (priority_value m);
  value-found = found;
}
  where
    found :
        (a : TicketPriority)
        → find
            (λ m. text_beq (codes (priority_value m)) (codes (priority_value a)))
            (low ∷ medium ∷ high ∷ [])
          ≡ some a
    found low = refl
    found medium = refl
    found high = refl

instance abbrev pub status_members : Enumeration TicketStatus
unfolding status_value
status_members = record {
  members = opened ∷ in_progress ∷ resolved ∷ closed ∷ [];
  value = λ m. codes (status_value m);
  value-found = found;
}
  where
    found :
        (a : TicketStatus)
        → find
            (λ m. text_beq (codes (status_value m)) (codes (status_value a)))
            (opened ∷ in_progress ∷ resolved ∷ closed ∷ [])
          ≡ some a
    found opened = refl
    found in_progress = refl
    found resolved = refl
    found closed = refl

instance abbrev pub event_members : Enumeration WebhookEventType
unfolding event_value
event_members = record {
  members = ticket_created ∷ ticket_status_changed ∷ [];
  value = λ m. codes (event_value m);
  value-found = found;
}
  where
    found :
        (a : WebhookEventType)
        → find
            (λ m. text_beq (codes (event_value m)) (codes (event_value a)))
            (ticket_created ∷ ticket_status_changed ∷ [])
          ≡ some a
    found ticket_created = refl
    found ticket_status_changed = refl
