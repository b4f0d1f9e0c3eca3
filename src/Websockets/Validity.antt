-- ===== src/Websockets/Validity.antt =====
-- The well-formed tables of app/services/ws_manager.py, and the traffic that runs on one.
use ticketflow.Base.{
  ℕ, ◌≡◌, ◌≢◌, refl, inl, inr, Bool, true, false, not, Option, none, some, List, [], ◌∷◌, String,
  filter, ◌==◌, nat_eq, string_eq, if◌then◌else◌, arith, Bool-cases,
}
use ticketflow.Base.Dict
use ticketflow.Base.Dict.{Dict, get-put, get-remove}
use ticketflow.Websockets.{
  Connections, contains, add, discard, difference_update, members, connect, store_or_delete,
  disconnect, clean, Call, joins, leaves, apply, apply_all, Sent, is_stale, broadcast,
}

abbrev pub NoRepeats : List ℕ → Type 0
NoRepeats [] = Unit
NoRepeats (w ∷ ws) = (contains w ws ≡ false) × NoRepeats ws

-- What is stored under a channel.
abbrev pub IsKept : Option (List ℕ) → Type 0
IsKept none = Unit
IsKept (some ws) = (ws ≢ []) × NoRepeats ws

pub record IsValid (m : Connections) : Type 0 where
  pub kept : (channel : String) → IsKept (Dict.get channel m)

contains-filter-false :
    (p : ℕ → Bool) (x : ℕ) (ws : List ℕ) → contains x ws ≡ false → contains x (filter p ws) ≡ false
contains-filter-false p x [] h = refl
contains-filter-false p x (w ∷ ws) h = ground (arith, contains-filter-false p x ws)

filter-NoRepeats : (p : ℕ → Bool) (ws : List ℕ) → NoRepeats ws → NoRepeats (filter p ws)
filter-NoRepeats p [] h = tt
filter-NoRepeats p (w ∷ ws) h = elim (Bool-cases (p w)) [
  | inl e ↦ rw e (contains-filter-false p w ws h.0, filter-NoRepeats p ws h.1)
  | inr e ↦ rw e (filter-NoRepeats p ws h.1)
]

add-IsKept : (w : ℕ) (ws : List ℕ) → NoRepeats ws → IsKept (some (add w ws))
unfolding add
add-IsKept w ws h = elim (Bool-cases (contains w ws)) [
  | inl e ↦ rw e (nonempty w ws e, h)
  | inr e ↦ rw e (λ p. cc, (e, h))
]
  where
    nonempty : (w : ℕ) (ws : List ℕ) → contains w ws ≡ true → ws ≢ []
    nonempty w [] e p = cc
    nonempty w (x ∷ ws) e p = cc

members-NoRepeats : (channel : String) (m : Connections) → IsValid m → NoRepeats (members channel m)
unfolding members
members-NoRepeats channel m v = go (Dict.get channel m) (v.kept channel)
  where
    go : (o : Option (List ℕ)) → IsKept o → NoRepeats (elim o [ none ↦ [] | some ws ↦ ws ])
    go none k = tt
    go (some ws) k = k.1

replaced :
    {m m' : Connections} (channel : String) (o : Option (List ℕ))
    → IsValid m
    → IsKept o
    → ((j : String) → Dict.get j m' ≡ (if j == channel then o else Dict.get j m))
    → IsValid m'
replaced {m} channel o v k e = record {
  kept = λ j. rw (e j) (choose (j == channel) (Dict.get j m) (v.kept j));
}
  where
    choose : (b : Bool) (p : Option (List ℕ)) → IsKept p → IsKept (if b then o else p)
    choose true p h = k
    choose false p h = h

connect-IsValid :
    (channel : String) (w : ℕ) (m : Connections) → IsValid m → IsValid (connect channel w m)
unfolding connect
connect-IsValid channel w m v =
    replaced channel (some (add w (members channel m))) v
      (add-IsKept w (members channel m) (members-NoRepeats channel m v))
      (λ j. get-put j channel (add w (members channel m)) m)

store-IsValid :
    (channel : String) (ws : List ℕ) (m : Connections)
    → NoRepeats ws
    → IsValid m
    → IsValid (store_or_delete channel ws m)
unfolding store_or_delete
store-IsValid channel [] m h v = replaced channel none v tt (λ j. get-remove j channel m)
store-IsValid channel (w ∷ ws) m h v =
    replaced channel (some (w ∷ ws)) v (λ p. cc, h) (λ j. get-put j channel (w ∷ ws) m)

-- `disconnect` and the clean-up both filter the stored set.
filtered-IsValid :
    (channel : String) (p : ℕ → Bool) (m : Connections)
    → IsValid m
    → IsValid
        (elim (Dict.get channel m) [ none ↦ m | some ws ↦ store_or_delete channel (filter p ws) m ])
filtered-IsValid channel p m v = go (Dict.get channel m) (v.kept channel)
  where
    go :
        (o : Option (List ℕ))
        → IsKept o
        → IsValid (elim o [ none ↦ m | some ws ↦ store_or_delete channel (filter p ws) m ])
    go none k = v
    go (some ws) k = store-IsValid channel (filter p ws) m (filter-NoRepeats p ws k.1) v

apply-IsValid : (c : Call) (m : Connections) → IsValid m → IsValid (apply c m)
unfolding apply disconnect discard
apply-IsValid (joins channel w) m v = connect-IsValid channel w m v
apply-IsValid (leaves channel w) m v = filtered-IsValid channel (λ x. not (x == w)) m v

apply_all-IsValid : (cs : List Call) (m : Connections) → IsValid m → IsValid (apply_all cs m)
unfolding apply_all
apply_all-IsValid [] m v = v
apply_all-IsValid (c ∷ cs) m v = apply_all-IsValid cs (apply c m) (apply-IsValid c m v)

-- One piece of traffic: a call, or a broadcast with the calls that run while it sends.
pub data Traffic : Type 0 where
  call : Call → Traffic
  send : (ℕ → Sent) → List Call → String → Traffic

unfoldable pub serve : List Traffic → Connections → Connections
serve [] m = m
serve (call c ∷ rest) m = serve rest (apply c m)
serve (send outcome meanwhile channel ∷ rest) m =
    serve rest (broadcast outcome meanwhile channel m).connections

broadcast-IsValid :
    (outcome : ℕ → Sent) (meanwhile : List Call) (channel : String) (m : Connections)
    → IsValid m
    → IsValid (broadcast outcome meanwhile channel m).connections
unfolding broadcast clean difference_update
broadcast-IsValid outcome meanwhile channel m v =
    go (filter (λ w. is_stale (outcome w)) (members channel m))
  where
    m' : Connections
    m' = apply_all meanwhile m

    go : (stale : List ℕ) → IsValid (elim stale [ [] ↦ m' | w ∷ ws ↦ clean channel (w ∷ ws) m' ])
    go [] = apply_all-IsValid meanwhile m v
    go (w ∷ ws) =
        filtered-IsValid channel (λ x. not (contains x (w ∷ ws))) m'
          (apply_all-IsValid meanwhile m v)

-- Whatever is called, and however the sends end and the calls interleave with them, a table that keeps
-- no channel without sockets and no socket twice on a channel stays such a table.
pub serve-IsValid :
    (traffic : List Traffic) (m : Connections) → IsValid m → IsValid (serve traffic m)
unfolding serve
serve-IsValid [] m v = v
serve-IsValid (call c ∷ rest) m v = serve-IsValid rest (apply c m) (apply-IsValid c m v)
serve-IsValid (send outcome meanwhile channel ∷ rest) m v =
    serve-IsValid rest (broadcast outcome meanwhile channel m).connections
      (broadcast-IsValid outcome meanwhile channel m v)
