-- ===== src/Tickets/Search.antt =====
-- The text search of `list_tickets` in app/services/ticket_service.py: `_escape_like` makes the
-- user's text literal inside an ILIKE pattern. ILIKE is PostgreSQL's: an interface with its
-- documented rules for `%`, for the escape character and for an ordinary character.
use mathlib.Core.List.{append_assoc, append-nil}
use ticketflow.Base.{
  ℕ, ◌≡◌, ◌≢◌, refl, sym, ap, ◌∙◌, ◌↔◌, inl, inr, Bool, true, ◌||◌, [], ◌∷◌, ◌++◌, arith, ◌==◌,
  nat_eq, if◌then◌else◌, Bool-cases,
}
use ticketflow.Base.Text.{Text}
use ticketflow.Tickets.Query.{escape_like, replace, backslash, percent, underscore}

pub record Ilike : Type 0 where
  pub matches : (pattern value : Text) → Bool
  -- Equality of characters up to case.
  pub same : ℕ → ℕ → Bool
  pub at_end : (s : Text) → (matches [] s ≡ true) ↔ (s ≡ [])
  pub wildcard :
      (p s : Text)
      → (matches (percent ∷ p) s ≡ true)
        ↔ ((before : Text) × (after : Text) × (s ≡ before ++ after) × (matches p after ≡ true))
  pub escaped :
      (c : ℕ) (p s : Text)
      → (matches (backslash ∷ c ∷ p) s ≡ true)
        ↔ ((d : ℕ) × (rest : Text) × (s ≡ d ∷ rest) × (same c d ≡ true) × (matches p rest ≡ true))
  pub literal :
      (c : ℕ) (p s : Text)
      → c ≢ percent
      → c ≢ underscore
      → c ≢ backslash
      → (matches (c ∷ p) s ≡ true)
        ↔ ((d : ℕ) × (rest : Text) × (s ≡ d ∷ rest) × (same c d ≡ true) × (matches p rest ≡ true))

replace-append :
    (c : ℕ) (new xs ys : Text) → replace c new (xs ++ ys) ≡ replace c new xs ++ replace c new ys
unfolding replace
replace-append c new [] ys = refl
replace-append c new (d ∷ xs) ys =
    rw (replace-append c new xs ys)
      (sym (append_assoc (if d == c then new else d ∷ []) (replace c new xs) (replace c new ys)))

abbrev is_special : ℕ → Bool
is_special c = c == backslash || c == percent || c == underscore

abbrev escape_char : ℕ → Text
escape_char c = if is_special c then backslash ∷ c ∷ [] else c ∷ []

escape_one : (c : ℕ) → escape_like (c ∷ []) ≡ escape_char c
unfolding escape_like replace
escape_one c = ground arith

escape_like-append : (xs ys : Text) → escape_like (xs ++ ys) ≡ escape_like xs ++ escape_like ys
unfolding escape_like
escape_like-append xs ys = simp replace-append

-- The three replacements, one after the other, escape each character by itself.
escape_like-cons : (c : ℕ) (s : Text) → escape_like (c ∷ s) ≡ escape_char c ++ escape_like s
escape_like-cons c s = escape_like-append (c ∷ []) s ∙ ap (λ x. x ++ escape_like s) (escape_one c)

-- Two texts are equal up to case.
abbrev pub SameText : Ilike → Text → Text → Type 0
SameText l [] [] = Unit
SameText l [] (d ∷ s) = ⊥
SameText l (c ∷ q) [] = ⊥
SameText l (c ∷ q) (d ∷ s) = (l.same c d ≡ true) × SameText l q s

-- The text begins with the query, and what follows satisfies the rest of the pattern.
abbrev Begins : Ilike → Text → Text → Text → Type 0
Begins l q p s =
    (middle : Text) × (after : Text) × (s ≡ middle ++ after)
    × SameText l q middle
    × (l.matches p after ≡ true)

module _ (l : Ilike) where
  escape_char_iff :
      (c : ℕ) (p s : Text)
      → (l.matches (escape_char c ++ p) s ≡ true) ↔ (
          (d : ℕ) × (rest : Text) × (s ≡ d ∷ rest)
          × (l.same c d ≡ true)
          × (l.matches p rest ≡ true))
  escape_char_iff c p s = elim (Bool-cases (is_special c)) [
    | inl e ↦ rw e (l.escaped c p s)
    | inr e ↦ rw e (l.literal c p s (ground arith) (ground arith) (ground arith))
  ]

  Begins-nil : (p s : Text) → Begins l [] p s → l.matches p s ≡ true
  Begins-nil p s ([], after, e, same, h) = rw e h
  Begins-nil p s (d ∷ m, after, e, same, h) = absurd same

  Begins-cons :
      (c : ℕ) (q p s : Text)
      → ((d : ℕ) × (rest : Text) × (s ≡ d ∷ rest) × (l.same c d ≡ true) × Begins l q p rest)
        ↔ Begins l (c ∷ q) p s
  Begins-cons c q p s = (into, back)
    where
      into :
          ((d : ℕ) × (rest : Text) × (s ≡ d ∷ rest) × (l.same c d ≡ true) × Begins l q p rest)
          → Begins l (c ∷ q) p s
      into (d, rest, e, same, (m, after, e', same', h)) =
          (d ∷ m, after, e ∙ ap (◌∷◌ d) e', (same, same'), h)

      back :
          Begins l (c ∷ q) p s
          → ((d : ℕ) × (rest : Text) × (s ≡ d ∷ rest) × (l.same c d ≡ true) × Begins l q p rest)
      back ([], after, e, same, h) = absurd same
      back (d ∷ m, after, e, same, h) = (d, m ++ after, e, same.0, (m, after, refl, same.1, h))

  -- The escaped query, as a pattern, stands for itself.
  escape_like_iff : (q p s : Text) → (l.matches (escape_like q ++ p) s ≡ true) ↔ Begins l q p s
  escape_like_iff [] p s = (
    λ h. ([], s, refl, tt, unfold escape_like replace in h),
    λ b. unfold escape_like replace in Begins-nil p s b,
  )
  escape_like_iff (c ∷ q) p s = (
    λ h.
        let h' : l.matches (escape_char c ++ (escape_like q ++ p)) s ≡ true = rw regroup at h in
        let (d, rest, e, same, k) = (escape_char_iff c (escape_like q ++ p) s).0 h' in
        (Begins-cons c q p s).0 (d, rest, e, same, (escape_like_iff q p rest).0 k),
    λ b.
        let (d, rest, e, same, k) = (Begins-cons c q p s).1 b in
        rw regroup (
          (escape_char_iff c (escape_like q ++ p) s).1
            (d, rest, e, same, (escape_like_iff q p rest).1 k)),
  )
    where
      regroup : escape_like (c ∷ q) ++ p ≡ escape_char c ++ (escape_like q ++ p)
      regroup =
          ap (λ x. x ++ p) (escape_like-cons c q) ∙ append_assoc (escape_char c) (escape_like q) p

  -- The pattern that `list_tickets` builds from a query matches a text exactly when the query, read
  -- literally, stands somewhere in the text, up to case; no character of it acts as a wildcard.
  pub escape_like_literal :
      (q s : Text)
      → (l.matches (percent ∷ escape_like q ++ percent ∷ []) s ≡ true) ↔ (
          (before : Text) × (middle : Text) × (after : Text) × (s ≡ before ++ (middle ++ after))
          × SameText l q middle)
  escape_like_literal q s = (
    λ h.
        let (before, tail, e, k) = (l.wildcard (escape_like q ++ percent ∷ []) s).0 h in
        let (middle, after, e', same, k') = (escape_like_iff q (percent ∷ []) tail).0 k in
        (before, middle, after, e ∙ ap (λ x. before ++ x) e', same),
    λ (before, middle, after, e, same). (l.wildcard (escape_like q ++ percent ∷ []) s).1 (
      before,
      middle ++ after,
      e,
      (escape_like_iff q (percent ∷ []) (middle ++ after)).1
          (middle, after, refl, same, anything after),
    ),
  )
    where
      anything : (after : Text) → l.matches (percent ∷ []) after ≡ true
      anything after =
          (l.wildcard [] after).1 (after, [], sym (append-nil after), (l.at_end []).1 refl)
