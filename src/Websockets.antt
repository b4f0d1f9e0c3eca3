-- ===== src/Websockets.antt =====
-- app/services/ws_manager.py: the channels of the WebSocket connection manager. A socket is a
-- number. The lock makes each of the three critical sections one step; while `broadcast` waits for
-- its sends, other calls may run.
pub mod Membership
pub mod Validity
pub mod Serving
mod Tests
use Prim.Native.String.{◌++◌}
use ticketflow.Base.{
  ℕ, Bool, true, false, not, Option, none, some, List, [], ◌∷◌, String, filter, any, ◌==◌, nat_eq,
  if◌then◌else◌,
}
use ticketflow.Base.Dict
use ticketflow.Base.Dict.{Dict}

abbrev pub dashboard_channel : String
dashboard_channel = "dashboard"

-- `str(ticket_id)` is an argument.
unfoldable pub ticket_channel : (ℕ → String) → ℕ → String
ticket_channel uuid_str ticket_id = "ticket:" ++ uuid_str ticket_id

-- `_connections`: a set of sockets for each channel.
abbrev pub Connections : Type 0
Connections = Dict (List ℕ)

abbrev pub contains : ℕ → List ℕ → Bool
contains w = any (λ x. x == w)

-- set.add, set.discard, set.difference_update
unfoldable pub add : ℕ → List ℕ → List ℕ
add w ws = if contains w ws then ws else w ∷ ws

unfoldable pub discard : ℕ → List ℕ → List ℕ
discard w = filter (λ x. not (x == w))

unfoldable pub difference_update : List ℕ → List ℕ → List ℕ
difference_update stale = filter (λ x. not (contains x stale))

-- `self._connections.get(channel, ())`
unfoldable pub members : String → Connections → List ℕ
members channel m = elim (Dict.get channel m) [ none ↦ [] | some ws ↦ ws ]

unfoldable pub connect : String → ℕ → Connections → Connections
connect channel w m = Dict.put channel (add w (members channel m)) m

-- Stores a channel's set, or deletes the channel if the set is empty.
unfoldable pub store_or_delete : String → List ℕ → Connections → Connections
store_or_delete channel [] m = Dict.remove channel m
store_or_delete channel (w ∷ ws) m = Dict.put channel (w ∷ ws) m

unfoldable pub disconnect : String → ℕ → Connections → Connections
disconnect channel w m = elim (Dict.get channel m) [
  | none ↦ m
  | some ws ↦ store_or_delete channel (discard w ws) m
]

-- What `send_json` did: it returned, or raised one of the expected exceptions or another.
pub data Sent : Type 0 where
  delivered os_error websocket_disconnect unexpected : Sent

unfoldable pub is_stale : Sent → Bool
is_stale delivered = false
is_stale _ = true

unfoldable pub is_logged : Sent → Bool
is_logged unexpected = true
is_logged _ = false

-- The last critical section of `broadcast`.
unfoldable pub clean : String → List ℕ → Connections → Connections
clean channel stale m = elim (Dict.get channel m) [
  | none ↦ m
  | some ws ↦ store_or_delete channel (difference_update stale ws) m
]

-- What other calls do while `broadcast` waits for its sends.
pub data Call : Type 0 where
  joins leaves : String → ℕ → Call

unfoldable pub apply : Call → Connections → Connections
apply (joins channel w) m = connect channel w m
apply (leaves channel w) m = disconnect channel w m

unfoldable pub apply_all : List Call → Connections → Connections
unfolding apply
apply_all [] m = m
apply_all (c ∷ cs) m = apply_all cs (apply c m)

pub record Broadcast : Type 0 where
  pub receivers : List ℕ
  pub logged : List ℕ
  pub connections : Connections

-- `outcome` says how the send to each socket ends, and `meanwhile` is what happens before the
-- sends are done. The early returns of the source are the empty lists.
unfoldable pub broadcast : (ℕ → Sent) → List Call → String → Connections → Broadcast
broadcast outcome meanwhile channel m =
    let receivers = members channel m in
    let stale = filter (λ w. is_stale (outcome w)) receivers in
    let m' = apply_all meanwhile m in
    record {
      receivers = receivers;
      logged = filter (λ w. is_logged (outcome w)) receivers;
      connections = elim stale [ [] ↦ m' | w ∷ ws ↦ clean channel (w ∷ ws) m' ];
    }
