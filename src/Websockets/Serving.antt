-- ===== src/Websockets/Serving.antt =====
-- `_serve_channel` of app/api/v1/ws.py: a socket joins, waits until its receiving ends, and leaves.
use ticketflow.Base.{ℕ, Bool, true, false, List, String}
use ticketflow.Websockets.{Connections, Call, connect, disconnect, apply_all}

-- How the loop on `receive_text` ends: with WebSocketDisconnect, which is caught, or with another
-- exception. The calls that run meanwhile are those of the other requests.
pub data Ending : Type 0 where
  websocket_disconnect other_exception : Ending

pub record Served : Type 0 where
  pub reraised : Bool
  pub connections : Connections

unfoldable pub serve_channel : Ending → List Call → String → ℕ → Connections → Served
serve_channel ending meanwhile channel w m =
    let after = disconnect channel w (apply_all meanwhile (connect channel w m)) in
    elim ending [
      | websocket_disconnect ↦ record { reraised = false; connections = after }
      | other_exception ↦ record { reraised = true; connections = after }
    ]
