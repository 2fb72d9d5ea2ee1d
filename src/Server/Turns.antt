-- ===== src/Server/Turns.antt =====
-- What a successful POST /turn does to its session.
use decision_maker_flow.Prelude.{
  ℕ, ◌≡◌, refl, String, false, true, none, some, ok, arith, eq_refl, str_eq, [], ◌∷◌, sym, ◌∙◌,
  if◌then◌else◌,
}
use decision_maker_flow.Prelude.Int.{pos, ◌+ℤ◌}
use decision_maker_flow.Json.{str}
use decision_maker_flow.Agent.Graph.{parser}
use decision_maker_flow.Agent.Engine.{Checkpoint, Engine}
use decision_maker_flow.Agent.Legs.{on_gathering}
use decision_maker_flow.Agent.Session.{
  Message, begun, answered, question_of, stream_session, stream_resume_session,
}
use decision_maker_flow.Agent.SessionFlow.{first_turn, second_turn}
use decision_maker_flow.Server.Saver.{
  Saver, TouchingCheckpointer, touch_config, touch, aput, aget_tuple,
}
use decision_maker_flow.Server.Idempotency.{TtlCache, make_key_from_header}
use decision_maker_flow.Server.TurnApi.{
  running, done, TurnRequest, TurnResponse, Outside, Server, collect_stream, thread_of, cache_key,
}
use decision_maker_flow.Server.TurnApi.Handlers.{generate, serve, route, resumed, handle_turn}
use decision_maker_flow.Server.Serving.{collect_chunks, serve_ok}

module _ {saver : Saver} where
  pub inner-touch_config :
      (now : ℕ) (k : String) (c : TouchingCheckpointer saver)
      → (touch_config now k c).inner ≡ c.inner
  unfolding touch_config touch
  inner-touch_config now k c = ground arith

  pub inner-aput :
      (now : ℕ) (k j : String) (checkpoint : Checkpoint) (c : TouchingCheckpointer saver)
      → saver.aget_tuple j (aput now k checkpoint c).inner
        ≡ (if str_eq k j then some checkpoint else saver.aget_tuple j c.inner)
  unfolding aput
  inner-aput now k j checkpoint c = ground (
    arith,
    inner-touch_config now k (record c { inner = saver.aput k checkpoint c.inner }),
    saver.aget_tuple-aput k j checkpoint c.inner,
  )

-- What the generators yield in the end, when they do not fail.
module _ (engine : Engine) (text thread_id : String) (c : Checkpoint) where
  pub asked_reply :
      (stream_session engine text thread_id c).failure ≡ none
      → collect_stream (stream_session engine text thread_id c).messages (str "", running)
        ≡ (question_of (stream_session engine text thread_id c).checkpoint, running)
  unfolding stream_session collect_stream
  asked_reply h =
      let run = engine.astream (begun text c) in
      ground (
        arith,
        collect_chunks run.chunks
            (Message.awaiting_user (question_of run.checkpoint) thread_id ∷ []) (str "", running),
      )

  pub final_reply :
      (stream_resume_session engine text thread_id c).failure ≡ none
      → collect_stream (stream_resume_session engine text thread_id c).messages (str "", running)
        ≡ (str (stream_resume_session engine text thread_id c).checkpoint.values.final_answer, done)
  unfolding stream_resume_session collect_stream
  final_reply h =
      let run = engine.astream (answered text c) in
      ground (
        arith,
        collect_chunks run.chunks (Message.done run.checkpoint.values.final_answer thread_id ∷ [])
            (str "", running),
      )

module _ {saver : Saver} {cache : TtlCache TurnResponse} where
  -- The server after both lookups of a resumed thread.
  abbrev pub looked_up : Outside → String → Server saver cache → Server saver cache
  looked_up o id s = record s {
    checkpointer = touch_config o.counted_at id (touch_config o.found_at id s.checkpointer);
  }

  pub turn_new :
      (digest : String → String) (o : Outside) (r : TurnRequest) (s : Server saver cache)
      → r.session_id ≡ none
      → handle_turn digest o r s ≡ serve digest o r true o.uuid 0 s
  unfolding handle_turn route
  turn_new digest o r s fresh = rw fresh refl

  pub turn_resumed :
      (digest : String → String) (o : Outside) (r : TurnRequest) (s : Server saver cache)
      (id : String) {checkpoint : Checkpoint}
      → r.session_id ≡ some id
      → saver.aget_tuple id s.checkpointer.inner ≡ some checkpoint
      → handle_turn digest o r s ≡ serve digest o r false id 0 (looked_up o id s)
  unfolding handle_turn route resumed aget_tuple
  turn_resumed digest o r s id named found =
      rw (named, found, inner-touch_config o.found_at id s.checkpointer, found) refl

  -- A turn without a session id that misses the cache and succeeds starts a session under the new
  -- id: the reply is the question of its thread, which is saved halted in front of the parsing of
  -- the answer, its input the message and its count 0. One session more is active; the threads of
  -- other ids are as before.
  pub new_session :
      (digest : String → String) (o : Outside) (r : TurnRequest) (s : Server saver cache)
      (other : String) {response : TurnResponse} {after : Server saver cache}
      → r.session_id ≡ none
      → cache.get o.cache_read_at
          (cache_key digest (make_key_from_header r.idempotency_key) o.uuid r.message 0).0
          s.idempotency_cache
        ≡ none
      → str_eq o.uuid other ≡ false
      → handle_turn digest o r s ≡ (ok response, after)
      → (checkpoint : Checkpoint) × (saver.aget_tuple o.uuid after.checkpointer.inner
          ≡ some checkpoint)
        × (checkpoint.next ≡ some parser)
        × (checkpoint.values.user_input ≡ r.message)
        × (checkpoint.values.rewrite_count ≡ 0)
        × (question_of checkpoint ≡ str response.reply)
        × (response.session_id ≡ o.uuid)
        × (response.state ≡ running)
        × (after.metrics.active_sessions ≡ s.metrics.active_sessions +ℤ pos 1)
        × (saver.aget_tuple other after.checkpointer.inner
            ≡ saver.aget_tuple other s.checkpointer.inner)
  unfolding generate
  new_session digest o r s other fresh miss different h =
      let c = thread_of (saver.aget_tuple o.uuid s.checkpointer.inner) in
      let out = serve_ok digest o r true o.uuid 0 s miss (sym (turn_new digest o r s fresh) ∙ h) in
      let checkpoint = (stream_session o.engine r.message o.uuid c).checkpoint in
      let (next, input, count, draft, feedback, final) =
        first_turn o.engine r.message o.uuid c out.whole in
      let collected = sym (asked_reply o.engine r.message o.uuid c out.whole) ∙ out.collected in
      (
        checkpoint,
        ground (
          arith,
          out.saved,
          inner-aput o.saved_at o.uuid o.uuid checkpoint s.checkpointer,
          eq_refl o.uuid,
        ),
        next,
        input,
        count,
        ground (arith, collected),
        out.session,
        ground (arith, collected),
        ground (arith, out.counted, collected),
        ground (arith, out.saved, inner-aput o.saved_at o.uuid other checkpoint s.checkpointer),
      )

  -- A turn on a saved session that is past its first question, which misses the cache and
  -- succeeds, ends the session's thread: the reply is the final answer that is saved with it, the
  -- message is saved as the user's answer, and the dilemma and the facts are those of the first
  -- turn. As many sessions are active as before; the threads of other ids are as before.
  pub resumed_session :
      (digest : String → String) (o : Outside) (r : TurnRequest) (s : Server saver cache)
      (id other : String) {before : Checkpoint} {response : TurnResponse}
      {after : Server saver cache}
      → r.session_id ≡ some id
      → saver.aget_tuple id s.checkpointer.inner ≡ some before
      → on_gathering before.next ≡ false
      → cache.get o.cache_read_at
          (cache_key digest (make_key_from_header r.idempotency_key) id r.message 0).0
          s.idempotency_cache
        ≡ none
      → str_eq id other ≡ false
      → handle_turn digest o r s ≡ (ok response, after)
      → (checkpoint : Checkpoint) × (saver.aget_tuple id after.checkpointer.inner ≡ some checkpoint)
        × (checkpoint.next ≡ none)
        × (checkpoint.values.user_answer ≡ r.message)
        × (checkpoint.values.dilemma ≡ before.values.dilemma)
        × (checkpoint.values.tool_facts ≡ before.values.tool_facts)
        × (checkpoint.values.final_answer ≡ response.reply)
        × (response.session_id ≡ id)
        × (response.state ≡ done)
        × (after.metrics.active_sessions ≡ s.metrics.active_sessions)
        × (saver.aget_tuple other after.checkpointer.inner
            ≡ saver.aget_tuple other s.checkpointer.inner)
  unfolding generate
  resumed_session digest o r s id other {before} named found past miss different h =
      let t = looked_up o id s in
      let c = thread_of (saver.aget_tuple id t.checkpointer.inner) in
      let same = inner-touch_config o.found_at id s.checkpointer in
      let same2 = inner-touch_config o.counted_at id (touch_config o.found_at id s.checkpointer) in
      let out =
        serve_ok digest o r false id 0 t miss
          (sym (turn_resumed digest o r s id named found) ∙ h) in
      let checkpoint = (stream_resume_session o.engine r.message id c).checkpoint in
      let known : c ≡ before = ground (arith, same, same2, found) in
      let (next, answer, input, dilemma, facts, question) =
        second_turn o.engine r.message id c (ground (arith, known, past)) out.whole in
      let collected = sym (final_reply o.engine r.message id c out.whole) ∙ out.collected in
      (
        checkpoint,
        ground
            (arith, out.saved, inner-aput o.saved_at id id checkpoint t.checkpointer, eq_refl id),
        next,
        answer,
        ground (arith, dilemma, known),
        ground (arith, facts, known),
        ground (arith, collected),
        out.session,
        ground (arith, collected),
        ground (arith, out.counted, collected),
        ground (
          arith,
          out.saved,
          same,
          same2,
          inner-aput o.saved_at id other checkpoint t.checkpointer,
        ),
      )
