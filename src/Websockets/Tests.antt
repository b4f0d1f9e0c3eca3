-- ===== src/Websockets/Tests.antt =====
-- The connection manager at a table with two channels.
use ticketflow.Base.{
  ℕ, ◌≡◌, not, ◌&&◌, List, [], ◌∷◌, String, ◌==◌, string_eq, nat_eq, if◌then◌else◌,
}
use ticketflow.Base.Dict
use ticketflow.Websockets.{
  Connections, contains, members, connect, Call, joins, leaves, apply_all, Sent, delivered,
  os_error, broadcast,
}
use ticketflow.Websockets.Membership.{raised, raised_other, joined, broadcast_exact}
use ticketflow.Websockets.Validity.{IsValid}

abbrev two_channels : Connections
two_channels = connect "ticket:1" 7 (connect "dashboard" 7 (connect "dashboard" 8 []))

-- The send to socket 8 fails, and that to socket 7 does not.
abbrev outcome : ℕ → Sent
outcome w = if w == 8 then os_error else delivered

abbrev board : String
board = "dashboard"

abbrev ticket_one : String
ticket_one = "ticket:1"

abbrev seven : ℕ
seven = 7

abbrev meanwhile : List Call
meanwhile = joins "dashboard" 9 ∷ leaves "dashboard" 7 ∷ []

broadcast_exact_example :
    let done = broadcast outcome meanwhile "dashboard" two_channels in
    (done.receivers ≡ members "dashboard" two_channels)
    × ((x : ℕ)
        → contains x done.logged ≡ (joined two_channels "dashboard" x && raised_other (outcome x)))
    × ((j : String) (x : ℕ)
        → joined done.connections j x ≡ (
            not (j == "dashboard" && (joined two_channels "dashboard" x && raised (outcome x)))
            && joined (apply_all meanwhile two_channels) j x))
broadcast_exact_example = broadcast_exact outcome meanwhile "dashboard" two_channels

nobody-IsValid : IsValid []
unfolding Dict.get
nobody-IsValid = record { kept = λ channel. tt }
