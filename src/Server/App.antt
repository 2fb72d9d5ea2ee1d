-- ===== src/Server/App.antt =====
-- server/app_factory.py, `create_app`: the routes of turn_api.py behind the middleware, with the
-- authentication, the validation of the body and the exception handlers.
pub mod Bodies
pub use Bodies.*
unfoldable pub use Bodies.{turn_json, turn_body, done_body, readiness_json}
use Prim.Native.String.{count, ◌++◌ as ◌++ˢ◌}
use decision_maker_flow.Prelude.{
  ℕ, String, true, ◌&&◌, Option, none, some, Outcome, ok, raised, leb, if◌then◌else◌,
}
use decision_maker_flow.Prelude.Int.{ℤ, pos}
use decision_maker_flow.Json.{Json, null, bool, int, str, obj, Fields, end, field, get}
use decision_maker_flow.Http.{Endpoint, turn, done, healthz, readyz, metrics, Request, Response}
use decision_maker_flow.Server.Saver.{Saver, Fault}
use decision_maker_flow.Server.Metrics.{Metrics}
use decision_maker_flow.Server.Idempotency.{TtlCache}
use decision_maker_flow.Server.Auth.{
  Crypto, Reason, malformed, bad_version, bad_signature, expired, wrong_service, missing_session,
  TokenClaims,
}
use decision_maker_flow.Server.Auth.Service.{
  ErrorName, reason, llm_timeout, HttpError, http, passed_on, require_service, llm_timeout_error,
  to_http_exception,
}
use decision_maker_flow.Server.TurnApi.{
  TurnState, running, TurnRequest, TurnResponse, TurnError, session_not_found, Outside, Server,
}
use decision_maker_flow.Server.TurnApi.Handlers.{handle_turn, handle_done}
use decision_maker_flow.Server.Health.{
  Check, passed, unknown, fail, Readiness, Probe, handle_readyz,
}
use decision_maker_flow.Server.Middleware.{dispatch}

-- What the application is made with: LangGraph's saver, the cache, the secret of the configuration,
-- and, as parameters, SHA-256, the text of a JSON value and of the collectors, FastAPI's descriptions
-- of a body that is not valid and of one that is no JSON, and the texts of messages.
pub record Deployment : Type 1 where
  pub saver : Saver
  pub cache : TtlCache TurnResponse
  pub crypto : Crypto
  pub secret : crypto.Bytes
  pub digest : String → String
  pub session_fp : String → String
  pub dumps : Json → String
  pub generate_latest : Metrics → String
  pub invalid : Json → Json
  pub undecoded : Json
  pub auth_message : Option String → Reason → String
  pub gateway_message : ℕ → String

-- What one request meets: the middleware's uuid4().hex, the clock of the authentication, that of
-- POST /done with a failure of its deletion, the two probes of /readyz, and what a turn meets.
pub record Arrival : Type 0 where
  pub new_id : String
  pub now : ℤ
  pub outside : Outside
  pub done_at : ℕ
  pub fault : Fault
  pub ping : Option String
  pub probe : Probe

module _ (d : Deployment) where
  -- The state of the application.
  abbrev pub State : Type 0
  State = Server d.saver d.cache

  -- The handlers of `create_app` for AuthError, LLMTimeoutError and ConfigError.
  unfoldable pub handled : (cid : String) → HttpError → Outcome (Unit {0}) Response
  handled cid (http status_code error) =
      ok (json_response d.dumps status_code (error_json (error_text error) cid end))
  handled cid passed_on = raised tt

  unfoldable pub turn_response :
      (cid : String) → TurnRequest → Outcome TurnError TurnResponse → Outcome (Unit {0}) Response
  unfolding handled to_http_exception turn_json
  turn_response cid r (ok response) = ok (json_response d.dumps 200 (turn_json response))
  turn_response cid r (raised session_not_found) = ok (
      json_response d.dumps 404 (
        detail (
          error_json "session_not_found" cid
            (field "session_fp" (str (d.session_fp (or_empty r.session_id))) end))))
  turn_response cid r (raised TurnError.llm_timeout) =
      handled cid (to_http_exception llm_timeout_error)
  turn_response cid r (raised other) = raised tt

  -- The HTTPException of `require_service`.
  unfoldable pub auth_response :
      (authorization : Option String) → HttpError → Outcome (Unit {0}) Response
  auth_response authorization (http status_code (reason r)) = ok (
      json_response d.dumps status_code (
        detail (
          obj (
            field "error" (str (reason_text r))
              (field "message" (str (d.auth_message authorization r)) end)))))
  auth_response authorization _ = raised tt

  abbrev readyz_response : Outcome Readiness Readiness → Response
  readyz_response (ok r) = json_response d.dumps 200 (readiness_json "ready" r)
  readyz_response (raised r) = json_response d.dumps 503 (detail (readiness_json "not_ready" r))

  abbrev pub with_state : State → Outcome (Unit {0}) Response → Outcome State (Response × State)
  with_state s (ok response) = ok (response, s)
  with_state s (raised e) = raised s

  abbrev unprocessable : Json → State → Outcome State (Response × State)
  unprocessable body s = ok (json_response d.dumps 422 (detail (d.invalid body)), s)

  -- FastAPI decodes the body before it resolves the dependencies of a route.
  abbrev decoded :
      Option Json
      → State
      → (Json → Outcome State (Response × State))
      → Outcome State (Response × State)
  decoded none s route = ok (json_response d.dumps 422 (detail d.undecoded), s)
  decoded (some body) s route = route body

  -- POST /turn and POST /done behind the authentication.
  unfoldable pub post_turn :
      Arrival
      → (cid : String) (body : Json) → Option TurnRequest
      → State
      → Outcome State (Response × State)
  unfolding turn_response handle_turn
  post_turn a cid body none s = unprocessable body s
  post_turn a cid body (some r) s =
      let (outcome, after) = handle_turn d.digest a.outside r s in
      with_state after (turn_response cid r outcome)

  unfoldable pub post_done :
      Arrival → (body : Json) → Option String → State → Outcome State (Response × State)
  unfolding handle_done
  post_done a body none s = unprocessable body s
  post_done a body (some session_id) s = ok (
    json_response d.dumps 200 (obj (field "acknowledged" (bool true) end)),
    handle_done a.done_at a.fault session_id s,
  )

  -- A handler behind the dependency on `require_service("brainstorm")`.
  unfoldable pub authorised :
      (authorization : Option String)
      → Outcome HttpError TokenClaims
      → State
      → Outcome State (Response × State)
      → Outcome State (Response × State)
  unfolding auth_response
  authorised authorization (ok claims) s answer = answer
  authorised authorization (raised e) s answer = with_state s (auth_response authorization e)

  abbrev authenticate : Arrival → Request → Outcome HttpError TokenClaims
  authenticate a r = require_service d.crypto "brainstorm" r.authorization a.now d.secret

  unfoldable pub endpoint :
      Arrival → Request → Endpoint → (cid : String) → State → Outcome State (Response × State)
  unfolding post_turn post_done authorised require_service turn_body done_body handle_readyz
  endpoint a r turn cid s = decoded r.body s (λ body.
      authorised r.authorization (authenticate a r) s
        (post_turn a cid body (turn_body r.idempotency_key body) s))
  endpoint a r done cid s = decoded r.body s (λ body.
      authorised r.authorization (authenticate a r) s (post_done a body (done_body body) s))
  endpoint a r healthz cid s =
      ok (json_response d.dumps 200 (obj (field "status" (str "ok") end)), s)
  endpoint a r readyz cid s =
      let (outcome, m) = handle_readyz d.gateway_message a.ping a.probe s.metrics in
      ok (readyz_response outcome, record s { metrics = m })
  endpoint a r metrics cid s = ok (
    record {
      status_code = 200;
      content_type = some "text/plain; version=0.0.4; charset=utf-8";
      x_correlation_id = none;
      json = none;
      text = d.generate_latest s.metrics;
    },
    s,
  )

  abbrev pub answered : Outcome State ((Response × State) × String) → Response × State
  answered (ok ((response, s), cid)) = (record response { x_correlation_id = some cid }, s)
  answered (raised s) = (internal_error, s)

  -- The application of `create_app`, on one request.
  unfoldable pub app : Arrival → Request → State → Response × State
  unfolding endpoint dispatch
  app a r s = answered (dispatch a.new_id r.x_correlation_id (λ cid. endpoint a r r.endpoint cid s))
