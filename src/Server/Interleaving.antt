-- ===== src/Server/Interleaving.antt =====
-- server/turn_api.py and sweeper.py on one event loop: a turn is accepted and its stream begins; other
-- requests and ticks of the sweeper run while the first superstep of the stream does; then the
-- stream goes on to its end, and the turn is concluded.
use decision_maker_flow.Prelude.{
  ℕ, zero, suc, String, Bool, true, false, Option, none, some, List, [], ◌∷◌, Outcome, ok, raised,
  if◌then◌else◌,
}
use decision_maker_flow.Prelude.Int.{ℤ}
use decision_maker_flow.Agent.Engine.{Checkpoint}
use decision_maker_flow.Agent.Session.{Streamed, Message, update, begun, answered}
use decision_maker_flow.Server.Saver.{Saver, Fault, aget_tuple, aput}
use decision_maker_flow.Server.Sweeper.{tick}
use decision_maker_flow.Server.Idempotency.{TtlCache, make_key_from_header}
use decision_maker_flow.Server.TurnApi.{
  TurnRequest, TurnResponse, TurnError, session_not_found, KeySource, Outside, Server, turn_number,
  cache_key, count_hit, thread_of,
}
use decision_maker_flow.Server.TurnApi.Handlers.{Answer, generate, save, waited, handle_done}

-- The local variables of a turn whose stream runs. What the stream will leave is fixed by the
-- thread as it was read.
pub record Pending : Type 0 where
  pub outside : Outside
  pub is_new : Bool
  pub key : String
  pub thread_id : String
  pub turn_n : ℕ
  pub streamed : Streamed

pub data Accepted : Type 0 where
  replied : Outcome TurnError TurnResponse → Accepted
  streaming : Pending → Accepted

-- The thread with the input of a turn merged.
abbrev pub opening : (is_new : Bool) (message : String) → Checkpoint → Checkpoint
opening true message c = begun message c
opening false message c = answered message c

-- Whether a superstep completed.
abbrev pub has_stepped : List Message → Bool
has_stepped (update chunk ∷ ms) = true
has_stepped _ = false

module _ {saver : Saver} {cache : TtlCache TurnResponse} where
  -- LangGraph writes the merged thread before the first superstep.
  unfoldable pub open_stream :
      Outside
      → (is_new : Bool) (message thread_id : String) → Server saver cache
      → Server saver cache
  unfolding aput begun answered
  open_stream o is_new message thread_id s = record s {
    checkpointer =
        aput o.opened_at thread_id
          (opening is_new message (thread_of (saver.aget_tuple thread_id s.checkpointer.inner)))
          s.checkpointer;
  }

  -- What the rest of the stream writes: the checkpoint of the last superstep that completed, if one
  -- did. A superstep that fails writes none.
  unfoldable pub save_steps : Pending → Server saver cache → Server saver cache
  unfolding save
  save_steps p s =
      if has_stepped p.streamed.messages then save p.outside p.thread_id p.streamed s else s

  unfoldable pub accept_keyed :
      Outside
      → (is_new : Bool) (key : String) (source : KeySource) (cached : Option TurnResponse)
        (message thread_id : String) (turn_n : ℕ)
      → Server saver cache
      → Accepted × Server saver cache
  unfolding open_stream
  accept_keyed o is_new key source (some response) message thread_id turn_n s =
      (replied (ok response), record s { metrics = count_hit source s.metrics })
  accept_keyed o is_new key source none message thread_id turn_n s = (
    streaming (record {
      outside = o;
      is_new = is_new;
      key = key;
      thread_id = thread_id;
      turn_n = turn_n;
      streamed = generate o is_new message thread_id s;
    }),
    open_stream o is_new message thread_id s,
  )

module _ (digest : String → String) {saver : Saver} {cache : TtlCache TurnResponse} where
  unfoldable pub accept_turn :
      Outside
      → TurnRequest
      → (is_new : Bool) (thread_id : String) (turn_n : ℕ) → Server saver cache
      → Accepted × Server saver cache
  unfolding make_key_from_header accept_keyed
  accept_turn o r is_new thread_id turn_n s =
      let key =
        cache_key digest (make_key_from_header r.idempotency_key) thread_id r.message turn_n in
      accept_keyed o is_new key.0 key.1 (cache.get o.cache_read_at key.0 s.idempotency_cache)
        r.message thread_id turn_n s

  unfoldable pub accept_resumed :
      Outside → TurnRequest → String → Server saver cache → Accepted × Server saver cache
  unfolding aget_tuple accept_turn
  accept_resumed o r thread_id s =
      let (found, c) = aget_tuple o.counted_at thread_id s.checkpointer in
      accept_turn o r false thread_id (turn_number found) (record s { checkpointer = c })

  -- `handle_turn` up to the first superstep of the stream.
  unfoldable pub accept :
      Outside
      → TurnRequest
      → (session_id : Option String) → Server saver cache
      → Accepted × Server saver cache
  unfolding aget_tuple accept_turn accept_resumed
  accept o r none s = accept_turn o r true o.uuid 0 s
  accept o r (some thread_id) s =
      let (found, c) = aget_tuple o.found_at thread_id s.checkpointer in
      let touched = record s { checkpointer = c } in
      elim found [
        | none ↦ (replied (raised session_not_found), touched)
        | some checkpoint ↦ accept_resumed o r thread_id touched
      ]

  -- The rest of `handle_turn`, on the server as the others have left it.
  unfoldable pub finish_turn : Pending → Server saver cache → Answer saver cache
  unfolding save_steps waited
  finish_turn p s =
      waited digest p.outside p.outside.timing p.is_new p.key p.thread_id p.turn_n p.streamed
        (save_steps p s) s

-- What runs without another action in between: a request up to the first superstep of its stream,
-- the rest of the stream at an index with its conclusion, a POST /done, and a tick. Their own
-- awaits, on the database and on the locks, let nothing else run here.
pub data Action : Type 0 where
  request : Outside → TurnRequest → Action
  end_stream : (index : ℕ) → Action
  done : (now : ℕ) → Fault → (session_id : String) → Action
  run_tick : (faults : String → Fault) (now : ℕ) → Action

pub record World (saver : Saver) (cache : TtlCache TurnResponse) : Type 0 where
  pub server : Server saver cache
  pub streams : List Pending

abbrev pub with_front : Pending → Option (Pending × List Pending) → Option (Pending × List Pending)
with_front q none = none
with_front q (some (p, ps)) = some (p, q ∷ ps)

-- The stream at an index, and the others.
unfoldable pub picked : ℕ → List Pending → Option (Pending × List Pending)
picked index [] = none
picked zero (p ∷ ps) = some (p, ps)
picked (suc index) (p ∷ ps) = with_front p (picked index ps)

module _ {saver : Saver} {cache : TtlCache TurnResponse} where
  abbrev pub with_accepted : Accepted × Server saver cache → List Pending → World saver cache
  with_accepted (replied reply, s) ps = record { server = s; streams = ps }
  with_accepted (streaming p, s) ps = record { server = s; streams = p ∷ ps }

  abbrev pub with_concluded :
      (digest : String → String)
      → Option (Pending × List Pending)
      → World saver cache
      → World saver cache
  with_concluded digest none w = w
  with_concluded digest (some (p, ps)) w = record {
    server = (finish_turn digest p w.server).1;
    streams = ps;
  }

module _ (digest : String → String) (threshold_sec : ℤ) {saver : Saver}
    {cache : TtlCache TurnResponse} where
  unfoldable pub act : Action → World saver cache → World saver cache
  unfolding accept finish_turn picked handle_done tick
  act (request o r) w = with_accepted (accept digest o r r.session_id w.server) w.streams
  act (end_stream index) w = with_concluded digest (picked index w.streams) w
  act (done now fault session_id) w = record w {
    server = handle_done now fault session_id w.server;
  }
  act (run_tick faults now) w =
      let swept = tick faults threshold_sec now w.server.checkpointer w.server.metrics in
      record w {
        server = record (w.server) { checkpointer = swept.checkpointer; metrics = swept.metrics };
      }

  unfoldable pub perform : List Action → World saver cache → World saver cache
  unfolding act
  perform [] w = w
  perform (a ∷ rest) w = perform rest (act a w)
