-- ===== src/Server/TurnApi.antt =====
-- server/turn_api.py: POST /turn and POST /done, behind the authentication and pydantic's validation
-- of the body. Both handlers run alone here; a request is one step.
pub mod Handlers
use decision_maker_flow.Prelude.{
  ℕ, ◌+◌, String, Bool, true, false, Option, none, some, List, [], ◌∷◌, Outcome, ok, raised,
}
use decision_maker_flow.Json.{Json, null, bool, int, float, str, arr, obj}
use decision_maker_flow.Agent.State.{blank}
use decision_maker_flow.Agent.Engine.{Checkpoint, Failure, Engine}
use decision_maker_flow.Agent.Session.{
  Message, update, Streamed, stream_session, stream_resume_session,
}
use decision_maker_flow.Server.Saver.{
  Saver, TouchingCheckpointer, Fault, aget_tuple, aput, adelete_thread,
}
use decision_maker_flow.Server.Metrics.{Metrics, inc_sessions, dec_sessions}
use decision_maker_flow.Server.Idempotency.{TtlCache, make_key_from_header, make_key_from_tuple}
use Prim.Native.String.{count}

pub data TurnState : Type 0 where
  running : TurnState
  done : TurnState

pub record TurnRequest : Type 0 where
  pub session_id : Option String
  pub message : String
  pub idempotency_key : Option String

-- The last three are the keys of `metadata`.
pub record TurnResponse : Type 0 where
  pub session_id : String
  pub reply : String
  pub state : TurnState
  pub turn_n : ℕ
  pub reply_chars : ℕ
  pub duration_ms : ℕ

-- The exceptions that leave `handle_turn`: 404, LLMTimeoutError (408), what the graph raised, and
-- those of `len(reply)` and of the response model on a question that is no text.
pub data TurnError : Type 0 where
  session_not_found : TurnError
  llm_timeout : TurnError
  graph_failure : Failure → TurnError
  type_error : TurnError
  validation_error : TurnError

-- Whether the stream ends within `turn_timeout_sec`; if not, whether the thread was saved before
-- the stream was cancelled.
pub data Timing : Type 0 where
  in_time : Timing
  expired : (saved : Bool) → Timing

-- What one request meets outside: the engine, uuid4().hex, the clocks at its calls, in the order
-- that the handler makes them, and the duration that it reports. The stream writes its input at
-- `opened_at` and its last checkpoint at `saved_at`.
pub record Outside : Type 0 where
  pub engine : Engine
  pub uuid : String
  pub found_at : ℕ
  pub counted_at : ℕ
  pub cache_read_at : ℕ
  pub opened_at : ℕ
  pub saved_at : ℕ
  pub cache_set_at : ℕ
  pub timing : Timing
  pub duration_ms : ℕ

-- app.state
pub record Server (saver : Saver) (cache : TtlCache TurnResponse) : Type 0 where
  pub checkpointer : TouchingCheckpointer saver
  pub idempotency_cache : cache.State
  pub metrics : Metrics

-- `len(channel_values.get("messages", []))`: DecisionMakerState has no such channel.
abbrev pub turn_number : Option Checkpoint → ℕ
turn_number none = 0
turn_number (some c) = 0

-- A thread that the saver does not know yet.
abbrev pub thread_of : Option Checkpoint → Checkpoint
thread_of none = record { values = blank; next = none }
thread_of (some c) = c

-- `_collect_stream` over the chunks of the generator, from what was collected before.
unfoldable pub collect_stream : List Message → Json × TurnState → Json × TurnState
collect_stream [] collected = collected
collect_stream (update chunk ∷ ms) collected = collect_stream ms collected
collect_stream (Message.awaiting_user last_q thread_id ∷ ms) collected =
    collect_stream ms (last_q, running)
collect_stream (Message.done final_ans thread_id ∷ ms) collected =
    collect_stream ms (str final_ans, done)

abbrev pub count_turn : TurnState → Metrics → Metrics
count_turn running m = record m { turns_running = m.turns_running + 1 }
count_turn done m = record m { turns_done = m.turns_done + 1 }

abbrev pub count_new : Bool → Metrics → Metrics
count_new true m = inc_sessions m
count_new false m = m

-- The collectors after a stream that ended in time.
abbrev pub count_streamed : (is_new : Bool) → TurnState → Metrics → Metrics
count_streamed is_new state m =
    let timed = record m { llm_roundtrip_seconds = m.llm_roundtrip_seconds + 1 } in
    let counted = count_turn state timed in
    count_new is_new (record counted { turn_duration_seconds = counted.turn_duration_seconds + 1 })

-- The source of the key, for the label of the metric.
pub data KeySource : Type 0 where
  header : KeySource
  internal : KeySource

abbrev pub cache_key :
    (digest : String → String) (header_key : Option String) (thread_id message : String)
    (turn_n : ℕ)
    → String × KeySource
cache_key digest (some key) thread_id message turn_n = (key, header)
cache_key digest none thread_id message turn_n =
    (make_key_from_tuple digest thread_id message turn_n, internal)

abbrev pub count_hit : KeySource → Metrics → Metrics
count_hit header m = record m {
  idempotent_hits_header = m.idempotent_hits_header + 1;
  turn_duration_seconds = m.turn_duration_seconds + 1;
}
count_hit internal m = record m {
  idempotent_hits_internal = m.idempotent_hits_internal + 1;
  turn_duration_seconds = m.turn_duration_seconds + 1;
}

abbrev pub made_response :
    Outside → (thread_id : String) (turn_n : ℕ) (reply : String) → TurnState → TurnResponse
made_response o thread_id turn_n reply state = record {
  session_id = thread_id;
  reply = reply;
  state = state;
  turn_n = turn_n;
  reply_chars = count reply;
  duration_ms = o.duration_ms;
}

module _ (digest : String → String) {saver : Saver} {cache : TtlCache TurnResponse} where
  -- From `reply_chars` on, with the metrics counted.
  unfoldable pub respond :
      Outside
      → (key thread_id : String) (turn_n : ℕ) → Json × TurnState
      → Server saver cache
      → Outcome TurnError TurnResponse × Server saver cache
  respond o key thread_id turn_n (str reply, state) s =
      let response = made_response o thread_id turn_n reply state in
      (
        ok response,
        record s { idempotency_cache = cache.set o.cache_set_at key response s.idempotency_cache },
      )
  respond o key thread_id turn_n (arr xs, state) s = (raised validation_error, s)
  respond o key thread_id turn_n (obj fs, state) s = (raised validation_error, s)
  respond o key thread_id turn_n (null, state) s = (raised type_error, s)
  respond o key thread_id turn_n (bool b, state) s = (raised type_error, s)
  respond o key thread_id turn_n (int i, state) s = (raised type_error, s)
  respond o key thread_id turn_n (float f, state) s = (raised type_error, s)
