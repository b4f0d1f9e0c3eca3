-- ===== src/Tickets/Tests/Like.antt =====
-- A matcher that follows PostgreSQL's documented rules for LIKE with the escape character, over
-- exact characters: it shows that the assumptions of the interface `Ilike` can be met.
use ticketflow.Base.{
  ℕ, ◌≡◌, ◌≢◌, refl, sym, ap, subst, ◌↔◌, Bool, true, false, ◌&&◌, ◌||◌, [], ◌∷◌, ◌++◌, arith, ◌==◌,
  nat_eq, if◌then◌else◌, Bool-cases, inl, inr,
}
use ticketflow.Base.Text.{Text}
use ticketflow.Tickets.Query.{percent, backslash, underscore, escape_like}
use ticketflow.Tickets.Search.{Ilike, SameText, escape_like_literal}

is_empty : Text → Bool
is_empty [] = true
is_empty (d ∷ s) = false

any_suffix : (Text → Bool) → Text → Bool
any_suffix f [] = f []
any_suffix f (d ∷ s) = f (d ∷ s) || any_suffix f s

one : (ℕ → Bool) → (Text → Bool) → Text → Bool
one p f [] = false
one p f (d ∷ s) = p d && f s

like : Text → Text → Bool
like [] = is_empty
like (c ∷ []) =
    if c == percent
    then any_suffix is_empty
    else if c == backslash
    then (λ _. false)
    else if c == underscore
    then one (λ _. true) is_empty
    else one (λ d. c == d) is_empty
like (c ∷ e ∷ p) =
    if c == percent
    then any_suffix (like (e ∷ p))
    else if c == backslash
    then one (λ d. e == d) (like p)
    else if c == underscore
    then one (λ _. true) (like (e ∷ p))
    else one (λ d. c == d) (like (e ∷ p))

is_empty_iff : (s : Text) → (is_empty s ≡ true) ↔ (s ≡ [])
unfolding is_empty
is_empty_iff [] = (λ _. refl, λ _. refl)
is_empty_iff (d ∷ s) = (λ h. cc, λ h. cc)

one_iff :
    (p : ℕ → Bool) (f : Text → Bool) (s : Text)
    → (one p f s ≡ true)
      ↔ ((d : ℕ) × (rest : Text) × (s ≡ d ∷ rest) × (p d ≡ true) × (f rest ≡ true))
unfolding one
one_iff p f [] = (λ h. cc, λ (d, rest, e, a, b). cc)
one_iff p f (x ∷ s) = (
  λ h. (x, s, refl, ground arith, ground arith),
  λ (d, rest, e, a, b). subst (λ l. one p f l ≡ true) (sym e) (both (p d) (f rest) a b),
)
  where
    both : (u v : Bool) → u ≡ true → v ≡ true → (u && v) ≡ true
    both u v h k = rw (h, k)

grow :
    (f : Text → Bool) (x : ℕ) (s : Text) (later : Bool)
    → (later ≡ true) ↔ ((before : Text) × (after : Text) × (s ≡ before ++ after) × (f after ≡ true))
    → ((f (x ∷ s) || later) ≡ true)
      ↔ ((before : Text) × (after : Text) × (x ∷ s ≡ before ++ after) × (f after ≡ true))
grow f x s later ih = (into, λ (b, a, e, h). back b a e h)
  where
    into :
        (f (x ∷ s) || later) ≡ true
        → ((before : Text) × (after : Text) × (x ∷ s ≡ before ++ after) × (f after ≡ true))
    into h = elim (Bool-cases (f (x ∷ s))) [
      | inl e ↦ ([], x ∷ s, refl, e)
      | inr e ↦ let (b, a, p, k) = ih.0 (rw e at h) in (x ∷ b, a, ap (◌∷◌ x) p, k)
    ]

    tail : Text → Text
    tail [] = []
    tail (_ ∷ r) = r

    or_right : (u v : Bool) → v ≡ true → (u || v) ≡ true
    or_right true v h = refl
    or_right false v h = h

    back : (b a : Text) → x ∷ s ≡ b ++ a → f a ≡ true → (f (x ∷ s) || later) ≡ true
    back [] a e h = rw (subst (λ l. f l ≡ true) (sym e) h)
    back (y ∷ b) a e h = or_right (f (x ∷ s)) later (ih.1 (b, a, ap tail e, h))

any_suffix_iff :
    (f : Text → Bool) (s : Text)
    → (any_suffix f s ≡ true)
      ↔ ((before : Text) × (after : Text) × (s ≡ before ++ after) × (f after ≡ true))
unfolding any_suffix
any_suffix_iff f [] = (λ h. ([], [], refl, h), λ (b, a, e, h). only b a e h)
  where
    only : (b a : Text) → ◌≡◌ {A = Text} [] (b ++ a) → f a ≡ true → f [] ≡ true
    only [] a e h = rw e h
    only (x ∷ b) a e h = cc
any_suffix_iff f (x ∷ s) = grow f x s (any_suffix f s) (any_suffix_iff f s)

like-percent : (p : Text) → like (percent ∷ p) ≡ any_suffix (like p)
unfolding like
like-percent [] = refl
like-percent (c ∷ p) = refl

like-literal :
    (c : ℕ) (p : Text)
    → c ≢ percent
    → c ≢ underscore
    → c ≢ backslash
    → like (c ∷ p) ≡ one (λ d. c == d) (like p)
unfolding like
like-literal c [] a b e = ground arith
like-literal c (d ∷ p) a b e = ground arith

abbrev exact : Ilike
exact = record {
  matches = like;
  same = λ c d. c == d;
  at_end = λ s. unfold like in is_empty_iff s;
  wildcard = λ p s. rw (like-percent p) (any_suffix_iff (like p) s);
  escaped = λ c p s. unfold like in one_iff (λ d. c == d) (like p) s;
  literal = λ c p s a b e. rw (like-literal c p a b e) (one_iff (λ d. c == d) (like p) s);
}

-- "50%" is found as it is written, and the per cent sign does not act as a wildcard.
abbrev sale : Text
sale = 49 ∷ 53 ∷ 48 ∷ 37 ∷ []

abbrev half : Text
half = 53 ∷ 48 ∷ 37 ∷ []

escape_like_literal_example : (like (percent ∷ escape_like half ++ percent ∷ []) sale ≡ true) ↔ (
    (before : Text) × (middle : Text) × (after : Text) × (sale ≡ before ++ (middle ++ after))
    × SameText exact half middle)
escape_like_literal_example = escape_like_literal exact half sale

percent_is_literal : like (percent ∷ escape_like half ++ percent ∷ []) (53 ∷ 48 ∷ 48 ∷ []) ≡ false
unfolding escape_like like any_suffix one is_empty
percent_is_literal = refl
