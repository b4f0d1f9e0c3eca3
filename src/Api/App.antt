-- ===== src/Api/App.antt =====
-- What a request handler of app/api/v1 acts on: the database, Redis, the sockets and the background
-- tasks, and the record of what was sent.
use ticketflow.Base.{ℕ, String, List, [], ◌∷◌, ◌++◌}
use ticketflow.Exec.{Exec, ok, modify, on}
use ticketflow.Models.{Db, JsonObject}
use ticketflow.RateLimit.{RateLimitDecision, Link, rate_limit_window_seconds, consume_rate_limit}
use ticketflow.RateLimit.Commands
use ticketflow.Websockets.{Connections, Sent, Call, broadcast}
use ticketflow.Webhooks.{Dispatch}

-- The JSON object that is sent to sockets.
pub record Event : Type 0 where
  pub event : String
  pub ticket_id : ℕ
  pub fields : JsonObject

pub record Sending : Type 0 where
  pub channel : String
  pub event : Event
  pub receivers : List ℕ

-- The two uses of Redis, the counters of the limiter and the caches, have separate keys.
pub record App (Counters Cache : Type 0) : Type 0 where
  pub counters : Counters
  pub cache : Cache
  pub db : Db
  pub connections : Connections
  pub sendings : List Sending
  pub tasks : List Dispatch

-- How the sends of one broadcast end, and which calls run meanwhile.
pub record Traffic : Type 0 where
  pub outcome : ℕ → Sent
  pub meanwhile : List Call

module _ {Counters Cache : Type 0} where
  -- A service call on the database.
  abbrev pub in_db : {A : Type 0} → Exec Db A → Exec (App Counters Cache) A
  in_db = on (λ app. app.db) (λ db app. record app { db = db })

  -- `connection_manager.broadcast(channel, event)`
  unfoldable pub broadcast_event : Traffic → String → Event → Exec (App Counters Cache) Unit
  broadcast_event traffic channel event = modify (λ app.
      let b = broadcast traffic.outcome traffic.meanwhile channel app.connections in
      record app {
        connections = b.connections;
        sendings =
            app.sendings
            ++ (record { channel = channel; event = event; receivers = b.receivers } ∷ []);
      })

module _ (limiter : Commands.Redis) {Cache : Type 0} where
  -- `consume_rate_limit(redis, key=…, limit=…)`
  unfoldable pub consume : Link → String → ℕ → Exec (App limiter.State Cache) RateLimitDecision
  consume link key limit app =
      let (decision, s) =
        consume_rate_limit limiter link key limit rate_limit_window_seconds app.counters in
      (ok decision, record app { counters = s })
