-- ===== src/Http.antt =====
-- What passes between a client and the routes of server/turn_api.py.
use decision_maker_flow.Prelude.{ℕ, String, Option}
use decision_maker_flow.Json.{Json}

-- The routes of `router`.
pub data Endpoint : Type 0 where
  turn done healthz readyz metrics : Endpoint

-- The headers are those that the program reads. The body is what it decodes to, `null` where none is
-- sent, and none where it is no JSON.
pub record Request : Type 0 where
  pub endpoint : Endpoint
  pub authorization : Option String
  pub idempotency_key : Option String
  pub x_correlation_id : Option String
  pub body : Option Json

-- `json` is what `.json()` returns, if it does not raise.
pub record Response : Type 0 where
  pub status_code : ℕ
  pub content_type : Option String
  pub x_correlation_id : Option String
  pub json : Option Json
  pub text : String
