-- ===== src/Server/App/Bodies.antt =====
-- The bodies that the routes of server/turn_api.py read, and those that the application answers.
use Prim.Native.String.{count, ◌++◌ as ◌++ˢ◌}
use decision_maker_flow.Prelude.{ℕ, String, ◌&&◌, Option, none, some, leb, if◌then◌else◌}
use decision_maker_flow.Prelude.Int.{pos}
use decision_maker_flow.Json.{Json, null, int, str, obj, Fields, end, field, get}
use decision_maker_flow.Http.{Response}
use decision_maker_flow.Server.Auth.{
  Reason, malformed, bad_version, bad_signature, expired, wrong_service, missing_session,
}
use decision_maker_flow.Server.Auth.Service.{ErrorName, reason, llm_timeout}
use decision_maker_flow.Server.TurnApi.{TurnState, running, TurnRequest, TurnResponse}
use decision_maker_flow.Server.Health.{Check, passed, unknown, fail, Readiness}

abbrev pub reason_text : Reason → String
reason_text malformed = "malformed"
reason_text bad_version = "bad_version"
reason_text bad_signature = "bad_signature"
reason_text expired = "expired"
reason_text wrong_service = "wrong_service"
reason_text missing_session = "missing_session"

abbrev pub error_text : ErrorName → String
error_text (reason r) = reason_text r
error_text llm_timeout = "llm_timeout"
error_text ErrorName.config_error = "config_error"

abbrev pub state_text : TurnState → String
state_text running = "running"
state_text TurnState.done = "done"

-- The response model of POST /turn.
unfoldable pub turn_json : TurnResponse → Json
turn_json r = obj (
    field "session_id" (str r.session_id) (
      field "reply" (str r.reply) (
        field "state" (str (state_text r.state)) (
          field "metadata"
            (obj (
              field "turn_n" (int (pos r.turn_n)) (
                field "reply_chars" (int (pos r.reply_chars))
                  (field "duration_ms" (int (pos r.duration_ms)) end))))
            end))))

-- `Optional[str]`
abbrev optional_text : Json → Option (Option String)
optional_text null = some none
optional_text (str s) = some (some s)
optional_text _ = none

-- `Field(min_length=1, max_length=4000)`
abbrev valid_message : Json → Option String
valid_message (str s) = if leb 1 (count s) && leb (count s) 4000 then some s else none
valid_message _ = none

abbrev with_message :
    (idempotency_key : Option String) → Option (Option String) → Option String → Option TurnRequest
with_message key (some id) (some message) =
    some (record { session_id = id; message = message; idempotency_key = key })
with_message key id message = none

-- The body of POST /turn as a TurnRequest, with the key that the handler reads from the headers.
unfoldable pub turn_body : (idempotency_key : Option String) → Json → Option TurnRequest
turn_body key (obj fs) =
    with_message key (optional_text (get "session_id" fs)) (valid_message (get "message" fs))
turn_body key _ = none

abbrev text_of : Json → Option String
text_of (str s) = some s
text_of _ = none

-- The body of POST /done.
unfoldable pub done_body : Json → Option String
done_body (obj fs) = text_of (get "session_id" fs)
done_body _ = none

-- The response of an endpoint that returns; the middleware adds the id.
abbrev pub json_response : (dumps : Json → String) → ℕ → Json → Response
json_response dumps status_code value = record {
  status_code = status_code;
  content_type = some "application/json";
  x_correlation_id = none;
  json = some value;
  text = dumps value;
}

-- What Starlette answers to an exception that nobody handles, outside of the middleware.
abbrev pub internal_error : Response
internal_error = record {
  status_code = 500;
  content_type = some "text/plain; charset=utf-8";
  x_correlation_id = none;
  json = none;
  text = "Internal Server Error";
}

-- FastAPI's response to an HTTPException.
abbrev pub detail : Json → Json
detail value = obj (field "detail" value end)

abbrev pub error_json : (error cid : String) → Fields → Json
error_json error cid rest = obj (field "error" (str error) (field "correlation_id" (str cid) rest))

abbrev check_text : Check → Json
check_text passed = str "ok"
check_text unknown = str "unknown"
check_text (fail err) = str ("fail:" ++ˢ err)

abbrev pub or_empty : Option String → String
or_empty none = ""
or_empty (some s) = s

unfoldable pub readiness_json : (status : String) → Readiness → Json
readiness_json status r = obj (
    field "status" (str status) (
      field "checkpointer" (check_text r.checkpointer)
        (field "llm_gateway" (check_text r.llm_gateway) end)))
