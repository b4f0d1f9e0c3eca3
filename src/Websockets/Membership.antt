-- ===== src/Websockets/Membership.antt =====
-- Which socket is on which channel after each call of app/services/ws_manager.py.
use text.Mathlib.TextEquality.{eq_iff}
use ticketflow.Base.{
  ℕ, ◌≡◌, refl, sym, ap, ◌∙◌, inl, inr, Bool, true, false, not, ◌&&◌, ◌||◌, none, some, List, [],
  ◌∷◌, String, filter, ◌==◌, nat_eq, string_eq, if◌then◌else◌, arith, Bool-cases, Option-cases,
  nat_beq_iff,
}
use ticketflow.Base.Dict
use ticketflow.Base.Dict.{Dict, get-put, get-remove}
use ticketflow.Websockets.{
  Connections, contains, add, discard, difference_update, members, connect, store_or_delete,
  disconnect, clean, Call, apply_all, Sent, delivered, os_error, websocket_disconnect, unexpected,
  is_stale, is_logged, broadcast,
}

contains-filter :
    (p : ℕ → Bool) (x : ℕ) (ws : List ℕ) → contains x (filter p ws) ≡ (contains x ws && p x)
contains-filter p x [] = refl
contains-filter p x (w ∷ ws) = ground (arith, contains-filter p x ws)

present : (x w : ℕ) (ws : List ℕ) → contains w ws ≡ true → contains x ws ≡ (w == x || contains x ws)
present x w ws h = elim (Bool-cases (w == x)) [
  | inl e ↦ let same : w ≡ x = (nat_beq_iff w x).0 e in rw (e, ← same, h)
  | inr e ↦ rw e
]

contains-add : (x w : ℕ) (ws : List ℕ) → contains x (add w ws) ≡ (w == x || contains x ws)
unfolding add
contains-add x w ws = elim (Bool-cases (contains w ws)) [
  | inl e ↦ rw e (present x w ws e)
  | inr e ↦ rw e
]

members-store :
    (j k : String) (ws : List ℕ) (m : Connections)
    → members j (store_or_delete k ws m) ≡ (if j == k then ws else members j m)
unfolding members store_or_delete
members-store j k [] m = ground (arith, get-remove j k m)
members-store j k (w ∷ ws) m = ground (arith, get-put j k (w ∷ ws) m)

members-connect :
    (j k : String) (w : ℕ) (m : Connections)
    → members j (connect k w m) ≡ (if j == k then add w (members k m) else members j m)
unfolding members connect
members-connect j k w m = ground (arith, get-put j k (add w (members k m)) m)

members-none : (k : String) (m : Connections) → Dict.get k m ≡ none → members k m ≡ []
unfolding members
members-none k m h = rw (h, members)

members-some :
    (k : String) (ws : List ℕ) (m : Connections) → Dict.get k m ≡ some ws → members k m ≡ ws
unfolding members
members-some k ws m h = rw (h, members)

absent :
    (j k : String) (m : Connections)
    → Dict.get k m ≡ none
    → members j m ≡ (if j == k then [] else members j m)
absent j k m h = elim (Bool-cases (j == k)) [
  | inl e ↦
      let same : j ≡ k = (eq_iff j k).0 e in rw e (ap (λ c. members c m) same ∙ members-none k m h)
  | inr e ↦ rw e
]

members-disconnect :
    (j k : String) (w : ℕ) (m : Connections)
    → members j (disconnect k w m) ≡ (if j == k then discard w (members k m) else members j m)
unfolding disconnect discard
members-disconnect j k w m = elim (Option-cases (Dict.get k m)) [
  | inl e ↦ rw (e, disconnect, members-none k m e) (absent j k m e)
  | inr (ws, e) ↦ rw (e, disconnect, members-some k ws m e) (members-store j k (discard w ws) m)
]

members-clean :
    (j k : String) (stale : List ℕ) (m : Connections)
    → members j (clean k stale m)
      ≡ (if j == k then difference_update stale (members k m) else members j m)
unfolding clean difference_update
members-clean j k stale m = elim (Option-cases (Dict.get k m)) [
  | inl e ↦ rw (e, clean, members-none k m e) (absent j k m e)
  | inr (ws, e) ↦
      rw (e, clean, members-some k ws m e) (members-store j k (difference_update stale ws) m)
]

no_failure : (b c : Bool) → c ≡ (not (b && false) && c)
no_failure b c = ground arith

and_comm : (a b : Bool) → (a && b) ≡ (b && a)
and_comm a b = ground arith

swap : (b : Bool) (x w : ℕ) → (b && not (x == w)) ≡ (not (w == x) && b)
swap b x w = ground arith

-- The abstract view: is the socket on the channel?
abbrev pub joined : Connections → String → ℕ → Bool
joined m channel w = contains w (members channel m)

module _ (j channel : String) (x w : ℕ) (m : Connections) where
  -- `connect` puts the socket on the channel and leaves every other membership as it is.
  pub joined-connect : joined (connect channel w m) j x ≡ ((j == channel && w == x) || joined m j x)
  joined-connect = rw (members-connect j channel w m) (split (j == channel) refl)
    where
      split :
          (b : Bool)
          → (j == channel) ≡ b
          → contains x (if b then add w (members channel m) else members j m)
            ≡ ((b && w == x) || joined m j x)
      split true e =
          contains-add x w (members channel m)
          ∙ ap (λ c. (w == x) || contains x (members c m)) (sym ((eq_iff j channel).0 e))
      split false e = refl

  -- `disconnect` takes the socket off the channel and leaves every other membership as it is.
  pub joined-disconnect :
      joined (disconnect channel w m) j x ≡ (not (j == channel && w == x) && joined m j x)
  unfolding discard
  joined-disconnect = rw (members-disconnect j channel w m) (split (j == channel) refl)
    where
      split :
          (b : Bool)
          → (j == channel) ≡ b
          → contains x (if b then discard w (members channel m) else members j m)
            ≡ (not (b && w == x) && joined m j x)
      split true e =
          contains-filter (λ y. not (y == w)) x (members channel m)
          ∙ ap (λ c. contains x (members c m) && not (x == w)) (sym ((eq_iff j channel).0 e))
          ∙ swap (contains x (members j m)) x w
      split false e = refl

-- A send that raised failed, whatever it raised, and it raised in an unexpected way unless that was an OSError
-- or a WebSocketDisconnect.
abbrev pub raised : Sent → Bool
raised delivered = false
raised os_error = true
raised websocket_disconnect = true
raised unexpected = true

abbrev pub raised_other : Sent → Bool
raised_other delivered = false
raised_other os_error = false
raised_other websocket_disconnect = false
raised_other unexpected = true

is_stale-raised : (s : Sent) → is_stale s ≡ raised s
unfolding is_stale
is_stale-raised delivered = refl
is_stale-raised os_error = refl
is_stale-raised websocket_disconnect = refl
is_stale-raised unexpected = refl

is_logged-raised_other : (s : Sent) → is_logged s ≡ raised_other s
unfolding is_logged
is_logged-raised_other delivered = refl
is_logged-raised_other os_error = refl
is_logged-raised_other websocket_disconnect = refl
is_logged-raised_other unexpected = refl

-- The sockets whose send failed.
abbrev pub failed : (ℕ → Sent) → String → Connections → List ℕ
failed outcome channel m = filter (λ w. is_stale (outcome w)) (members channel m)

joined-clean :
    (j channel : String) (stale : List ℕ) (x : ℕ) (m : Connections)
    → joined (clean channel stale m) j x ≡ (not (j == channel && contains x stale) && joined m j x)
unfolding difference_update
joined-clean j channel stale x m = rw (members-clean j channel stale m) (split (j == channel) refl)
  where
    split :
        (b : Bool)
        → (j == channel) ≡ b
        → contains x (if b then difference_update stale (members channel m) else members j m)
          ≡ (not (b && contains x stale) && joined m j x)
    split true e =
        contains-filter (λ y. not (contains y stale)) x (members channel m)
        ∙ ap (λ c. contains x (members c m) && not (contains x stale))
            (sym ((eq_iff j channel).0 e))
        ∙ and_comm (contains x (members j m)) (not (contains x stale))
    split false e = refl

module _ (outcome : ℕ → Sent) (meanwhile : List Call) (channel : String) (m : Connections) where
  broadcast_connections :
      (stale : List ℕ)
      → failed outcome channel m ≡ stale
      → (j : String) (x : ℕ)
      → joined (broadcast outcome meanwhile channel m).connections j x
        ≡ (not (j == channel && contains x stale) && joined (apply_all meanwhile m) j x)
  unfolding broadcast
  broadcast_connections [] e j x =
      rw (e, broadcast) (no_failure (j == channel) (joined (apply_all meanwhile m) j x))
  broadcast_connections (w ∷ ws) e j x =
      rw (e, broadcast) (joined-clean j channel (w ∷ ws) x (apply_all meanwhile m))

  -- `broadcast` sends to exactly the sockets that were on the channel when it began. When it is
  -- done, whatever other calls joined or left meanwhile, a socket is on a channel exactly if those
  -- calls left it there and its send on that channel did not fail: no other socket and no other
  -- channel is touched. It logs the sends that failed in an unexpected way, and only those.
  pub broadcast_exact :
      ((broadcast outcome meanwhile channel m).receivers ≡ members channel m)
      × ((x : ℕ)
          → contains x (broadcast outcome meanwhile channel m).logged
            ≡ (joined m channel x && raised_other (outcome x)))
      × ((j : String) (x : ℕ)
          → joined (broadcast outcome meanwhile channel m).connections j x ≡ (
              not (j == channel && (joined m channel x && raised (outcome x)))
              && joined (apply_all meanwhile m) j x))
  broadcast_exact = (
    unfold broadcast in refl,
    λ x.
        unfold broadcast in
        contains-filter (λ w. is_logged (outcome w)) x (members channel m)
        ∙ ap (λ b. joined m channel x && b) (is_logged-raised_other (outcome x)),
    λ j x.
        broadcast_connections (failed outcome channel m) refl j x
        ∙ ap (λ b. not (j == channel && b) && joined (apply_all meanwhile m) j x)
            (contains-filter (λ w. is_stale (outcome w)) x (members channel m)
              ∙ ap (λ b. joined m channel x && b) (is_stale-raised (outcome x))),
  )
