-- ===== src/Base/Text.antt =====
-- Python's `str` where the program walks it: the list of its code points. `str.strip` removes what
-- `str.isspace` accepts.
use Prim.Native.Nat.{ℕ}
use Prim.Native.String.{String}
use Prim.Native.Char.{code}
use mathlib.Core.Path.{◌≡◌, refl}
use mathlib.Core.Logic.{◌↔◌, inl, inr}
use mathlib.Core.Bool.{Bool, true, false, ◌&&◌, ◌||◌}
use mathlib.Core.List.{List, [], ◌∷◌}
use native.Mathlib.Omega.{arith}
use ticketflow.Base.Tests.{Bool-cases, if◌then◌else◌, leb, nat_beq, nat_beq_iff, Equality}
use ticketflow.Base.Lists.{any}

abbrev pub Text : Type 0
Text = List ℕ

-- The code points of a native text.
abbrev pub codes : String → Text
codes String.[] = []
codes (String.◌∷◌ c s) = code c ∷ codes s

abbrev pub text_beq : Text → Text → Bool
text_beq [] [] = true
text_beq [] (d ∷ t) = false
text_beq (c ∷ s) [] = false
text_beq (c ∷ s) (d ∷ t) = nat_beq c d && text_beq s t

pub text_beq_iff : (s t : Text) → (text_beq s t ≡ true) ↔ (s ≡ t)
text_beq_iff [] [] = (λ _. refl, λ _. refl)
text_beq_iff [] (d ∷ t) = (λ h. cc, λ h. cc)
text_beq_iff (c ∷ s) [] = (λ h. cc, λ h. cc)
text_beq_iff (c ∷ s) (d ∷ t) = ground (arith, text_beq_iff s t, nat_beq_iff c d)

instance abbrev pub text_eq : Equality Text
text_eq = record { test = text_beq; test_iff = text_beq_iff }

unfoldable pub is_space : ℕ → Bool
is_space c =
    (leb 9 c && leb c 13)
    || (leb 28 c && leb c 32)
    || any (nat_beq c) (0x85 ∷ 0xa0 ∷ 0x1680 ∷ 0x2028 ∷ 0x2029 ∷ 0x202f ∷ 0x205f ∷ 0x3000 ∷ [])
    || (leb 0x2000 c && leb c 0x200a)

unfoldable pub lstrip : Text → Text
lstrip [] = []
lstrip (c ∷ s) = let rest = lstrip s in if is_space c then rest else c ∷ s

unfoldable pub rstrip : Text → Text
rstrip [] = []
rstrip (c ∷ s) = elim (rstrip s) [ [] ↦ if is_space c then [] else c ∷ [] | d ∷ t ↦ c ∷ d ∷ t ]

unfoldable pub strip : Text → Text
unfolding lstrip rstrip
strip s = rstrip (lstrip s)

-- The text has no white space in front.
Begun : Text → Type 0
Begun [] = Unit
Begun (c ∷ s) = is_space c ≡ false

lstrip-Begun : (s : Text) → Begun (lstrip s)
unfolding lstrip Begun
lstrip-Begun [] = tt
lstrip-Begun (c ∷ s) = elim (Bool-cases (is_space c)) [
  | inl e ↦ rw e (lstrip-Begun s)
  | inr e ↦ rw e e
]

lstrip-idle : (s : Text) → Begun s → lstrip s ≡ s
unfolding lstrip Begun
lstrip-idle [] h = refl
lstrip-idle (c ∷ s) h = rw h refl

-- The last step of `rstrip`.
put_front : Text → ℕ → Text
put_front [] c = if is_space c then [] else c ∷ []
put_front (d ∷ t) c = c ∷ d ∷ t

put_front-Begun : (t : Text) (c : ℕ) → is_space c ≡ false → Begun (put_front t c)
unfolding put_front Begun
put_front-Begun [] c h = rw h h
put_front-Begun (d ∷ t) c h = h

rstrip-cons : (c : ℕ) (s : Text) → rstrip (c ∷ s) ≡ put_front (rstrip s) c
unfolding rstrip put_front
rstrip-cons c s = go (rstrip s)
  where
    go :
        (t : Text)
        → elim t [ [] ↦ if is_space c then [] else c ∷ [] | d ∷ r ↦ c ∷ d ∷ r ] ≡ put_front t c
    go [] = refl
    go (d ∷ t) = refl

rstrip-Begun : (s : Text) → Begun s → Begun (rstrip s)
unfolding rstrip Begun
rstrip-Begun [] h = tt
rstrip-Begun (c ∷ s) h = rw (rstrip-cons c s) (put_front-Begun (rstrip s) c h)

put_front_again : (t : Text) (c : ℕ) → rstrip t ≡ t → rstrip (put_front t c) ≡ put_front t c
unfolding put_front rstrip
put_front_again [] c h = elim (Bool-cases (is_space c)) [
  | inl e ↦ rw e refl
  | inr e ↦ rw (e, e) refl
]
put_front_again (d ∷ t) c h = rw (rstrip-cons c (d ∷ t), h) refl

rstrip-rstrip : (s : Text) → rstrip (rstrip s) ≡ rstrip s
unfolding rstrip
rstrip-rstrip [] = refl
rstrip-rstrip (c ∷ s) = rw (rstrip-cons c s) (put_front_again (rstrip s) c (rstrip-rstrip s))

pub strip-strip : (s : Text) → strip (strip s) ≡ strip s
unfolding strip
strip-strip s =
    rw
      (
        lstrip-idle (rstrip (lstrip s)) (rstrip-Begun (lstrip s) (lstrip-Begun s)),
        rstrip-rstrip (lstrip s),
      )
      refl
