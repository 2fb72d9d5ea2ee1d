-- ===== src/Server/Samples.antt =====
-- Concrete servers and requests, and the runs that they make.
use decision_maker_flow.Prelude.{Option, ℕ, ◌≡◌, refl, String, none, some, [], ◌∷◌, ok}
use decision_maker_flow.Prelude.Int.{pos, scale, ◌+ℤ◌, ◌-ℤ◌}
use decision_maker_flow.Table.{Rows, select, delete, upsert, IsKeyed, listed, keys_where}
use decision_maker_flow.Agent.Nodes.{audit}
use decision_maker_flow.Agent.Engine.{Checkpoint}
use decision_maker_flow.Agent.Samples.{engine, computed, asked_thread}
use decision_maker_flow.Server.Saver.{
  TouchingCheckpointer, Fault, no_fault, touch, touch_config, aget_tuple, aput, get_last_touched,
  list_stale, adelete_thread,
}
use decision_maker_flow.Server.Saver.Plain.{plain}
use decision_maker_flow.Server.Metrics.{fresh}
use decision_maker_flow.Server.Config.{
  Config, validate, validate_sweep_threshold, validate_llm_proxy_url_non_empty,
}
use decision_maker_flow.Server.Sweeper.{sweep, summarised, tick}
use decision_maker_flow.Server.Sweeping.{succeeded}
use decision_maker_flow.Server.Idempotency.{
  make_key_from_header, make_key_from_tuple, raw_input, decimal, chars, all_key_chars,
  before_newline, matches_key,
}
use decision_maker_flow.Server.Idempotency.Log.{log, log_get}
use decision_maker_flow.Server.TurnApi.{
  running, done, TurnRequest, TurnResponse, in_time, Outside, Server, collect_stream, respond,
}
use decision_maker_flow.Server.TurnApi.Handlers.{
  generate, save, conclude, waited, keyed, serve, resumed, route, handle_turn, close, handle_done,
}

-- What the runs here call.
unfoldable pub served : Unit {0}
unfolding computed audit plain log log_get select delete upsert keys_where listed touch touch_config
    aget_tuple aput get_last_touched list_stale adelete_thread sweep summarised tick succeeded
    validate validate_sweep_threshold validate_llm_proxy_url_non_empty scale ◌+ℤ◌ ◌-ℤ◌
    make_key_from_header make_key_from_tuple raw_input decimal chars all_key_chars before_newline
    matches_key collect_stream respond generate save conclude waited keyed serve resumed route
    handle_turn close handle_done
served = tt

-- "old" was last used at 100 and "new" at 900.
abbrev pub saved : Rows Checkpoint
saved = ("old", asked_thread) ∷ ("new", asked_thread) ∷ []

abbrev pub touched : Rows ℕ
touched = ("old", 100) ∷ ("new", 900) ∷ []

unfoldable pub two_threads : TouchingCheckpointer plain
unfolding plain
two_threads = record { inner = saved; meta = touched }

pub two_threads-IsKeyed : IsKeyed two_threads.meta
unfolding select two_threads
two_threads-IsKeyed = (refl, (refl, tt))

abbrev pub sound : String → Fault
sound k = no_fault

abbrev pub cfg : Config
cfg = record {
  gateway_llm_proxy_url = "https://llm";
  turn_timeout_sec = pos 120;
  sweep_interval_sec = pos 60;
  sweep_threshold_secs = pos 600;
}

-- A server with two threads and an empty cache of 600 seconds.
unfoldable pub server : Server plain (log 600)
unfolding two_threads log
server = record { checkpointer = two_threads; idempotency_cache = []; metrics = fresh }

abbrev pub at : (uuid : String) (now : ℕ) → Outside
at uuid now = record {
  engine = engine;
  uuid = uuid;
  found_at = now;
  counted_at = now;
  cache_read_at = now;
  opened_at = now;
  saved_at = now;
  cache_set_at = now;
  timing = in_time;
  duration_ms = 5;
}

abbrev pub start : TurnRequest
start = record { session_id = none; message = "rent or buy?"; idempotency_key = some "key-1234" }

abbrev pub answer : (id : String) (idempotency_key : Option String) → TurnRequest
answer id key = record { session_id = some id; message = "stability"; idempotency_key = key }

abbrev pub question_reply : (id : String) → TurnResponse
question_reply id = record {
  session_id = id;
  reply = "what matters?";
  state = running;
  turn_n = 0;
  reply_chars = 13;
  duration_ms = 5;
}

-- The digest of the examples is no digest at all, which is a digest that tells texts apart.
abbrev pub plain_text : String → String
plain_text s = s

unfoldable pub started_server : Server plain (log 600)
unfolding server
started_server = (handle_turn plain_text (at "u1" 1000) start server).1

pub start_test :
    handle_turn plain_text (at "u1" 1000) start server ≡ (ok (question_reply "u1"), started_server)
unfolding served server two_threads started_server
start_test = refl

unfoldable pub answered_server : Server plain (log 600)
unfolding started_server
answered_server = (handle_turn plain_text (at "u2" 1010) (answer "u1" none) started_server).1

abbrev pub final_reply : TurnResponse
final_reply = record {
  session_id = "u1";
  reply = "answer";
  state = done;
  turn_n = 0;
  reply_chars = 6;
  duration_ms = 5;
}

pub answer_test :
    handle_turn plain_text (at "u2" 1010) (answer "u1" none) started_server
    ≡ (ok final_reply, answered_server)
unfolding served server two_threads started_server answered_server
answer_test = refl
