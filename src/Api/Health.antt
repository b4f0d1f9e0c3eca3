-- ===== src/Api/Health.antt =====
-- app/api/health.py.
use ticketflow.Base.{ℕ, Bool, ◌&&◌, if◌then◌else◌}

pub data Status : Type 0 where
  ok degraded error : Status

pub record HealthResponse : Type 0 where
  pub status : Status
  pub database : Status
  pub redis : Status

-- Whether `SELECT 1` and `ping` return; where they do not, they raise SQLAlchemyError or RedisError. The
-- first component of the result is the response's status.
unfoldable pub health_check : (select_returns ping_returns : Bool) → ℕ × HealthResponse
health_check select_returns ping_returns =
    let database = if select_returns then ok else error in
    let redis = if ping_returns then ok else error in
    if select_returns && ping_returns
    then (200, record { status = ok; database = database; redis = redis })
    else (503, record { status = degraded; database = database; redis = redis })
