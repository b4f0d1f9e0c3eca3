-- ===== src/Webhooks/ErrorText.antt =====
-- The text that `_sanitize_delivery_error` of app/services/webhook_service.py keeps of a network error.
use ticketflow.Base.{
  ℕ, ◌≤◌, ◌≡◌, refl, ◌⊎◌, inl, inr, false, List, [], ◌∷◌, ◌++◌, All, All-append, All-take, All-mono,
  length, length-take-le, Bool-cases,
}
use ticketflow.Base.Text.{Text, is_space}
use ticketflow.Webhooks.Delivery.{emit, split_from, split, join_spaces, sanitize_delivery_error}

abbrev IsInk : ℕ → Type 0
IsInk c = is_space c ≡ false

-- A plain space, or no white space at all: no line break and no tabulator.
abbrev pub FitsLine : ℕ → Type 0
FitsLine c = (is_space c ≡ false) ⊎ (c ≡ 32)

emit-All :
    (w : Text) (rest : List Text)
    → All IsInk w
    → All (All IsInk) rest
    → All (All IsInk) (emit w rest)
unfolding emit
emit-All [] rest h k = k
emit-All (c ∷ w) rest h k = (h, k)

split_from-All : (w s : Text) → All IsInk w → All (All IsInk) (split_from w s)
unfolding split_from
split_from-All w [] h = emit-All w [] h tt
split_from-All w (c ∷ s) h = elim (Bool-cases (is_space c)) [
  | inl e ↦ rw e (emit-All w (split_from [] s) h (split_from-All [] s tt))
  | inr e ↦ rw e (split_from-All (w ++ c ∷ []) s (All-append IsInk w (c ∷ []) h (e, tt)))
]

join_spaces-All : (ws : List Text) → All (All IsInk) ws → All FitsLine (join_spaces ws)
unfolding join_spaces
join_spaces-All [] h = tt
join_spaces-All (w ∷ []) h = All-mono (λ c e. inl e) w h.0
join_spaces-All (w ∷ v ∷ ws) h =
    All-append FitsLine w (32 ∷ join_spaces (v ∷ ws)) (All-mono (λ c e. inl e) w h.0)
      (inr refl, join_spaces-All (v ∷ ws) h.1)

-- Whatever the exception says, the text has at most 1000 characters and fits on one line: of white
-- space it holds plain spaces only, given that of the exception's class name.
pub sanitize_delivery_error_bounded :
    (name message : Text)
    → All FitsLine name
    → (length (sanitize_delivery_error name message) ≤ 1000)
      × All FitsLine (sanitize_delivery_error name message)
unfolding sanitize_delivery_error split
sanitize_delivery_error_bounded name message h =
    let text = join_spaces (split_from [] message) in
    (
      length-take-le 1000 (name ++ 58 ∷ 32 ∷ text),
      All-take FitsLine 1000 (name ++ 58 ∷ 32 ∷ text) (
          All-append FitsLine name (58 ∷ 32 ∷ text) h (
            inl (unfold is_space in refl),
            (inr refl, join_spaces-All (split_from [] message) (split_from-All [] message tt)),
          )),
    )
