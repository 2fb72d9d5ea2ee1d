-- ===== src/Server/TurnApi/Handlers.antt =====
-- server/turn_api.py: handle_turn and handle_done.
use decision_maker_flow.Prelude.{
  ℕ, ◌+◌, String, Bool, true, false, Option, none, some, Outcome, ok, raised,
}
use decision_maker_flow.Json.{str}
use decision_maker_flow.Agent.Engine.{Checkpoint, Failure}
use decision_maker_flow.Agent.Session.{Streamed, stream_session, stream_resume_session}
use decision_maker_flow.Server.Saver.{
  Saver, TouchingCheckpointer, Fault, aget_tuple, aput, adelete_thread,
}
use decision_maker_flow.Server.Metrics.{dec_sessions}
use decision_maker_flow.Server.Idempotency.{TtlCache, make_key_from_header}
use decision_maker_flow.Server.TurnApi.{
  running, TurnRequest, TurnResponse, TurnError, session_not_found, llm_timeout, graph_failure,
  KeySource, Timing, in_time, expired, Outside, Server, turn_number, thread_of, collect_stream,
  count_streamed, cache_key, count_hit, respond,
}

abbrev pub Answer : Saver → TtlCache TurnResponse → Type 0
Answer saver cache = Outcome TurnError TurnResponse × Server saver cache

module _ {saver : Saver} {cache : TtlCache TurnResponse} where
  -- The generator of the request, on what the saver holds of the thread.
  unfoldable pub generate :
      Outside → (is_new : Bool) (message thread_id : String) → Server saver cache → Streamed
  unfolding stream_session stream_resume_session
  generate o true message thread_id s =
      stream_session o.engine message thread_id
        (thread_of (saver.aget_tuple thread_id s.checkpointer.inner))
  generate o false message thread_id s =
      stream_resume_session o.engine message thread_id
        (thread_of (saver.aget_tuple thread_id s.checkpointer.inner))

  -- What a stream that nothing interferes with leaves. LangGraph writes the thread with its input
  -- merged, and again after each superstep that completes; the last of these stays.
  unfoldable pub save :
      Outside → (thread_id : String) → Streamed → Server saver cache → Server saver cache
  unfolding aput
  save o thread_id streamed s = record s {
    checkpointer = aput o.saved_at thread_id streamed.checkpoint s.checkpointer;
  }

module _ (digest : String → String) {saver : Saver} {cache : TtlCache TurnResponse} where
  -- After a stream that ended in time, with the server as saved.
  unfoldable pub conclude :
      Outside
      → (is_new : Bool) (key thread_id : String) (turn_n : ℕ) → Streamed
      → Option Failure
      → Server saver cache
      → Answer saver cache
  unfolding collect_stream respond
  conclude o is_new key thread_id turn_n streamed none s =
      let collected = collect_stream streamed.messages (str "", running) in
      respond digest o key thread_id turn_n collected
        (record s { metrics = count_streamed is_new collected.1 s.metrics })
  conclude o is_new key thread_id turn_n streamed (some f) s = (raised (graph_failure f), s)

  -- asyncio.wait_for(_collect_stream(), ...) and what follows it. `saved` is the server with what the
  -- stream has written.
  unfoldable pub waited :
      Outside
      → Timing
      → (is_new : Bool) (key thread_id : String) (turn_n : ℕ) → Streamed
      → (saved s : Server saver cache) → Answer saver cache
  unfolding conclude
  waited o in_time is_new key thread_id turn_n streamed saved s =
      conclude o is_new key thread_id turn_n streamed streamed.failure saved
  waited o (expired true) is_new key thread_id turn_n streamed saved s = (raised llm_timeout, saved)
  waited o (expired false) is_new key thread_id turn_n streamed saved s = (raised llm_timeout, s)

  -- From the idempotency key on.
  unfoldable pub keyed :
      Outside
      → (is_new : Bool) (key : String) (source : KeySource) (cached : Option TurnResponse)
        (message thread_id : String) (turn_n : ℕ)
      → Server saver cache
      → Answer saver cache
  unfolding generate save waited
  keyed o is_new key source (some response) message thread_id turn_n s =
      (ok response, record s { metrics = count_hit source s.metrics })
  keyed o is_new key source none message thread_id turn_n s =
      let streamed = generate o is_new message thread_id s in
      waited o o.timing is_new key thread_id turn_n streamed (save o thread_id streamed s) s

  unfoldable pub serve :
      Outside
      → TurnRequest
      → (is_new : Bool) (thread_id : String) (turn_n : ℕ) → Server saver cache
      → Answer saver cache
  unfolding make_key_from_header keyed
  serve o r is_new thread_id turn_n s =
      let key =
        cache_key digest (make_key_from_header r.idempotency_key) thread_id r.message turn_n in
      keyed o is_new key.0 key.1 (cache.get o.cache_read_at key.0 s.idempotency_cache) r.message
        thread_id turn_n s

  -- The second `aget_tuple` of a resumed thread, for its turn number.
  unfoldable pub resumed : Outside → TurnRequest → String → Server saver cache → Answer saver cache
  unfolding aget_tuple serve
  resumed o r thread_id s =
      let (found, c) = aget_tuple o.counted_at thread_id s.checkpointer in
      serve o r false thread_id (turn_number found) (record s { checkpointer = c })

  unfoldable pub route :
      Outside → TurnRequest → (session_id : Option String) → Server saver cache → Answer saver cache
  unfolding aget_tuple serve resumed
  route o r none s = serve o r true o.uuid 0 s
  route o r (some thread_id) s =
      let (found, c) = aget_tuple o.found_at thread_id s.checkpointer in
      let touched = record s { checkpointer = c } in
      elim found [
        | none ↦ (raised session_not_found, touched)
        | some checkpoint ↦ resumed o r thread_id touched
      ]

  unfoldable pub handle_turn : Outside → TurnRequest → Server saver cache → Answer saver cache
  unfolding route
  handle_turn o r s = route o r r.session_id s

module _ {saver : Saver} {cache : TtlCache TurnResponse} where
  -- A deletion that failed is logged.
  abbrev pub after_delete :
      Bool × TouchingCheckpointer saver → Server saver cache → Server saver cache
  after_delete (true, c) s = record s { checkpointer = c; metrics = dec_sessions s.metrics }
  after_delete (false, c) s = record s { checkpointer = c }

  unfoldable pub close :
      Fault → String → Option Checkpoint → Server saver cache → Server saver cache
  unfolding adelete_thread
  close fault session_id none s = s
  close fault session_id (some checkpoint) s =
      after_delete (adelete_thread fault session_id s.checkpointer) s

  abbrev pub count_done : Server saver cache → Server saver cache
  count_done s = record s { metrics = record (s.metrics) { done_total = s.metrics.done_total + 1 } }

  -- The reply is `acknowledged` in every case. `now` is the clock at the lookup.
  unfoldable pub handle_done :
      (now : ℕ) → Fault → (session_id : String) → Server saver cache → Server saver cache
  unfolding aget_tuple close
  handle_done now fault session_id s =
      let (found, c) = aget_tuple now session_id s.checkpointer in
      count_done (close fault session_id found (record s { checkpointer = c }))
