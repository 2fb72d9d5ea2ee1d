-- ===== src/Server/Answers.antt =====
-- The turns that POST /turn answers.
use decision_maker_flow.Prelude.{
  ℕ, ◌≡◌, refl, String, Bool, true, false, none, some, ok, arith, ◌∙◌, ap,
}
use decision_maker_flow.Json.{str}
use decision_maker_flow.Agent.Engine.{Checkpoint}
use decision_maker_flow.Agent.Session.{question_of, stream_resume_session}
use decision_maker_flow.Server.Saver.{Saver, touch_config}
use decision_maker_flow.Server.Idempotency.{TtlCache, make_key_from_header}
use decision_maker_flow.Server.TurnApi.{
  TurnState, running, done, TurnRequest, TurnResponse, in_time, Outside, Server, collect_stream,
  thread_of, cache_key, made_response, respond,
}
use decision_maker_flow.Server.TurnApi.Handlers.{generate, conclude, waited, serve, handle_turn}
use decision_maker_flow.Server.Serving.{serve_miss}
use decision_maker_flow.Server.Turns.{
  asked_reply, final_reply, inner-touch_config, looked_up, turn_new, turn_resumed,
}

module _ {saver : Saver} {cache : TtlCache TurnResponse} where
  serve_answers :
      (digest : String → String) (o : Outside) (r : TurnRequest) (is_new : Bool)
      (thread_id : String) (turn_n : ℕ) (s : Server saver cache) (reply : String)
      (state : TurnState)
      → cache.get o.cache_read_at
          (cache_key digest (make_key_from_header r.idempotency_key) thread_id r.message turn_n).0
          s.idempotency_cache
        ≡ none
      → o.timing ≡ in_time
      → (generate o is_new r.message thread_id s).failure ≡ none
      → collect_stream (generate o is_new r.message thread_id s).messages (str "", running)
        ≡ (str reply, state)
      → (response : TurnResponse) × ((serve digest o r is_new thread_id turn_n s).0 ≡ ok response)
        × (response.reply ≡ reply)
  unfolding waited conclude respond generate
  serve_answers digest o r is_new thread_id turn_n s reply state miss timely whole collected = (
    made_response o thread_id turn_n reply state,
    ap (λ a. a.0) (serve_miss digest o r is_new thread_id turn_n s miss)
        ∙ rw (timely, whole, collected) refl,
    refl,
  )

  -- A turn without a session id that misses the cache is answered with the question of its thread,
  -- if the stream ends in time without a failure and the question is a text.
  pub start_answered :
      (digest : String → String) (o : Outside) (r : TurnRequest) (s : Server saver cache)
      (question : String)
      → r.session_id ≡ none
      → cache.get o.cache_read_at
          (cache_key digest (make_key_from_header r.idempotency_key) o.uuid r.message 0).0
          s.idempotency_cache
        ≡ none
      → o.timing ≡ in_time
      → (generate o true r.message o.uuid s).failure ≡ none
      → question_of (generate o true r.message o.uuid s).checkpoint ≡ str question
      → (response : TurnResponse) × ((handle_turn digest o r s).0 ≡ ok response)
        × (response.reply ≡ question)
  unfolding generate
  start_answered digest o r s question fresh miss timely whole asked =
      let c = thread_of (saver.aget_tuple o.uuid s.checkpointer.inner) in
      rw (turn_new digest o r s fresh) (
        serve_answers digest o r true o.uuid 0 s question running miss timely whole
          (asked_reply o.engine r.message o.uuid c whole ∙ ap (λ q. (q, running)) asked))

  -- A turn on a saved session that misses the cache is answered with the final answer of its
  -- thread, if the stream ends in time without a failure.
  pub resume_answered :
      (digest : String → String) (o : Outside) (r : TurnRequest) (s : Server saver cache)
      (id : String) {before : Checkpoint}
      → r.session_id ≡ some id
      → saver.aget_tuple id s.checkpointer.inner ≡ some before
      → cache.get o.cache_read_at
          (cache_key digest (make_key_from_header r.idempotency_key) id r.message 0).0
          s.idempotency_cache
        ≡ none
      → o.timing ≡ in_time
      → (stream_resume_session o.engine r.message id before).failure ≡ none
      → (response : TurnResponse) × ((handle_turn digest o r s).0 ≡ ok response)
        × (response.reply
            ≡ (stream_resume_session o.engine r.message id before).checkpoint.values.final_answer)
  unfolding generate
  resume_answered digest o r s id {before} named found miss timely whole =
      let t = looked_up o id s in
      let known : thread_of (saver.aget_tuple id t.checkpointer.inner) ≡ before = ground (
        arith,
        inner-touch_config o.found_at id s.checkpointer,
        inner-touch_config o.counted_at id (touch_config o.found_at id s.checkpointer),
      ) in
      rw (turn_resumed digest o r s id named found) (
        serve_answers digest o r false id 0 t
          (stream_resume_session o.engine r.message id before).checkpoint.values.final_answer done
          miss timely (rw known whole) (rw known (final_reply o.engine r.message id before whole)))
