-- ===== src/Server/Revival.antt =====
-- server/turn_api.py: a POST /done for a session whose turn is running.
use decision_maker_flow.Prelude.{
  ℕ, ◌≡◌, refl, ap, ◌∙◌, String, inl, inr, Bool-cases, if◌then◌else◌, false, Option, none, some, [],
  ◌∷◌, arith, eq_refl,
}
use decision_maker_flow.Prelude.Int.{ℤ, pos, ◌-ℤ◌}
use decision_maker_flow.Agent.Engine.{Checkpoint}
use decision_maker_flow.Server.Saver.{Saver, no_fault, touch_config, aget_tuple}
use decision_maker_flow.Server.Idempotency.{TtlCache, make_key_from_header}
use decision_maker_flow.Server.TurnApi.{
  TurnRequest, TurnResponse, Outside, in_time, Server, cache_key,
}
use decision_maker_flow.Server.TurnApi.Handlers.{generate, waited, handle_done}
use decision_maker_flow.Json.{Json, null, bool, int, float, str, arr, obj}
use decision_maker_flow.Agent.Engine.{Failure}
use decision_maker_flow.Agent.Session.{Streamed, answered}
use decision_maker_flow.Server.Metrics.{Metrics}
use decision_maker_flow.Server.TurnApi.{
  TurnState, running, done, thread_of, respond, collect_stream, count_streamed,
}
use decision_maker_flow.Server.TurnApi.Handlers.{conclude, save}
use decision_maker_flow.Server.Deletion.{inner-adelete_thread}
use decision_maker_flow.Server.Halves.{conclude_checkpointer}
use decision_maker_flow.Server.Lifecycle.{handle_done_found}
use decision_maker_flow.Server.Turns.{looked_up, inner-aput, inner-touch_config}
use decision_maker_flow.Server.Interleaving.{
  has_stepped, open_stream, save_steps, end_stream, Pending, streaming, accept_keyed, accept_turn,
  accept_resumed, accept, finish_turn, World, Action, request, act, perform, picked,
}

count_turn_sessions :
    (state : TurnState) (m : Metrics)
    → (count_streamed false state m).active_sessions ≡ m.active_sessions
count_turn_sessions running m = refl
count_turn_sessions done m = refl

module _ (digest : String → String) {saver : Saver} {cache : TtlCache TurnResponse} where
  respond_metrics :
      (o : Outside) (key thread_id : String) (turn_n : ℕ) (reply : Json) (state : TurnState)
      (s : Server saver cache)
      → (respond digest o key thread_id turn_n (reply, state) s).1.metrics ≡ s.metrics
  unfolding respond
  respond_metrics o key thread_id turn_n (str reply) state s = refl
  respond_metrics o key thread_id turn_n (arr xs) state s = refl
  respond_metrics o key thread_id turn_n (obj fs) state s = refl
  respond_metrics o key thread_id turn_n null state s = refl
  respond_metrics o key thread_id turn_n (bool b) state s = refl
  respond_metrics o key thread_id turn_n (int i) state s = refl
  respond_metrics o key thread_id turn_n (float f) state s = refl

  -- A resumed turn does not change the number of sessions.
  conclude_sessions :
      (o : Outside) (key thread_id : String) (turn_n : ℕ) (streamed : Streamed)
      (failure : Option Failure) (s : Server saver cache)
      → (conclude digest o false key thread_id turn_n streamed failure s).1.metrics.active_sessions
        ≡ s.metrics.active_sessions
  unfolding conclude
  conclude_sessions o key thread_id turn_n streamed none s =
      let collected = collect_stream streamed.messages (str "", running) in
      ap (λ m. m.active_sessions)
        (respond_metrics o key thread_id turn_n collected.0 collected.1
          (record s { metrics = count_streamed false collected.1 s.metrics }))
      ∙ count_turn_sessions collected.1 s.metrics
  conclude_sessions o key thread_id turn_n streamed (some f) s = refl

  save_steps-inner :
      (p : Pending) (s : Server saver cache)
      → saver.aget_tuple p.thread_id (save_steps p s).checkpointer.inner ≡ (
          if has_stepped p.streamed.messages
          then some p.streamed.checkpoint
          else saver.aget_tuple p.thread_id s.checkpointer.inner)
  unfolding save_steps save
  save_steps-inner p s = elim (Bool-cases (has_stepped p.streamed.messages)) [
    | inl e ↦ rw e (
        ground (
          arith,
          inner-aput p.outside.saved_at p.thread_id p.thread_id p.streamed.checkpoint
              s.checkpointer,
          eq_refl p.thread_id,
        ))
    | inr e ↦ rw e refl
  ]

  save_steps-metrics : (p : Pending) (s : Server saver cache) → (save_steps p s).metrics ≡ s.metrics
  unfolding save_steps save
  save_steps-metrics p s = elim (Bool-cases (has_stepped p.streamed.messages)) [
    | inl e ↦ rw e refl
    | inr e ↦ rw e refl
  ]

  finish_resumed :
      (p : Pending) (s : Server saver cache)
      → p.is_new ≡ false
      → p.outside.timing ≡ in_time
      → let after = (finish_turn digest p s).1 in
        (saver.aget_tuple p.thread_id after.checkpointer.inner ≡ (
          if has_stepped p.streamed.messages
          then some p.streamed.checkpoint
          else saver.aget_tuple p.thread_id s.checkpointer.inner))
        × (after.metrics.active_sessions ≡ s.metrics.active_sessions)
  unfolding finish_turn waited
  finish_resumed p s old timely =
      let o = p.outside in
      let saved = save_steps p s in
      rw (old, timely)
        (
          ap (λ c. saver.aget_tuple p.thread_id c.inner)
                (conclude_checkpointer digest o false p.key p.thread_id p.turn_n p.streamed
                  p.streamed.failure saved)
              ∙ save_steps-inner p s,
          conclude_sessions o p.key p.thread_id p.turn_n p.streamed p.streamed.failure saved
              ∙ ap (λ m. m.active_sessions) (save_steps-metrics p s),
        )

  -- A resumed turn whose stream has begun.
  abbrev pub begun_turn : Outside → (message id : String) → Server saver cache → Server saver cache
  begun_turn o message id s = open_stream o false message id (looked_up o id s)

  opened_thread :
      (o : Outside) (message id : String) (s : Server saver cache)
      → saver.aget_tuple id (begun_turn o message id s).checkpointer.inner
        ≡ some (
            answered message
              (thread_of (saver.aget_tuple id (looked_up o id s).checkpointer.inner)))
  unfolding open_stream
  opened_thread o message id s =
      let c = looked_up o id s in
      ground (
        arith,
        inner-aput o.opened_at id id
            (answered message (thread_of (saver.aget_tuple id c.checkpointer.inner)))
            c.checkpointer,
        eq_refl id,
      )

  -- A turn of a saved session, accepted.
  accept_miss :
      (o : Outside) (r : TurnRequest) (id : String) (s : Server saver cache)
      {checkpoint : Checkpoint}
      → saver.aget_tuple id s.checkpointer.inner ≡ some checkpoint
      → cache.get o.cache_read_at
          (cache_key digest (make_key_from_header r.idempotency_key) id r.message 0).0
          s.idempotency_cache
        ≡ none
      → accept digest o r (some id) s ≡ (
        streaming (record {
          outside = o;
          is_new = false;
          key = (cache_key digest (make_key_from_header r.idempotency_key) id r.message 0).0;
          thread_id = id;
          turn_n = 0;
          streamed = generate o false r.message id s;
        }),
        begun_turn o r.message id s,
      )
  unfolding accept accept_resumed accept_turn accept_keyed aget_tuple generate open_stream
  accept_miss o r id s {checkpoint} found miss =
      let once = touch_config o.found_at id s.checkpointer in
      let twice = touch_config o.counted_at id once in
      let same = inner-touch_config o.found_at id s.checkpointer in
      let same2 = inner-touch_config o.counted_at id once in
      let again : saver.aget_tuple id once.inner ≡ some checkpoint =
        ap (saver.aget_tuple id) same ∙ found in
      let last : saver.aget_tuple id twice.inner ≡ some checkpoint =
        ap (saver.aget_tuple id) same2 ∙ again in
      rw (found, again, miss, last) refl

module _ (digest : String → String) (threshold_sec : ℤ) {saver : Saver}
    {cache : TtlCache TurnResponse} (o : Outside) (r : TurnRequest) (now : ℕ) (id : String) where
  abbrev first_two : World saver cache → World saver cache
  first_two = perform digest threshold_sec (request o r ∷ Action.done now no_fault id ∷ [])

  abbrev all_three : World saver cache → World saver cache
  all_three =
      perform digest threshold_sec (request o r ∷ Action.done now no_fault id ∷ end_stream 0 ∷ [])

  -- A POST /done for a saved session whose turn is in its first superstep deletes the thread, also
  -- the input that the turn has written. When the turn ends in time, the thread is saved again if a
  -- superstep of it completes, with or without a failure of a later one, and stays gone otherwise;
  -- the gauge stays one lower in both cases.
  pub revived :
      (w : World saver cache) {checkpoint : Checkpoint}
      → r.session_id ≡ some id
      → saver.aget_tuple id w.server.checkpointer.inner ≡ some checkpoint
      → cache.get o.cache_read_at
          (cache_key digest (make_key_from_header r.idempotency_key) id r.message 0).0
          w.server.idempotency_cache
        ≡ none
      → o.timing ≡ in_time
      → let streamed = generate o false r.message id w.server in
        let after = (all_three w).server in
        (saver.aget_tuple id (first_two w).server.checkpointer.inner ≡ none)
        × (saver.aget_tuple id after.checkpointer.inner
            ≡ (if has_stepped streamed.messages then some streamed.checkpoint else none))
        × (after.metrics.active_sessions ≡ w.server.metrics.active_sessions -ℤ pos 1)
  unfolding perform act picked
  revived w {checkpoint} named found miss timely =
      let s = w.server in
      let p : Pending = record {
        outside = o;
        is_new = false;
        key = (cache_key digest (make_key_from_header r.idempotency_key) id r.message 0).0;
        thread_id = id;
        turn_n = 0;
        streamed = generate o false r.message id s;
      } in
      let s₁ = begun_turn digest o r.message id s in
      let s₂ = handle_done now no_fault id s₁ in
      let before = thread_of (saver.aget_tuple id (looked_up o id s).checkpointer.inner) in
      let still : saver.aget_tuple id s₁.checkpointer.inner ≡ some (answered r.message before) =
        opened_thread digest o r.message id s in
      let (saved, sessions) = finish_resumed digest p s₂ refl timely in
      let gone = handle_done_found now id s₁ still in
      let deleted : saver.aget_tuple id s₂.checkpointer.inner ≡ none =
        ap (λ t. saver.aget_tuple id t.checkpointer.inner) gone
        ∙ ground (
          arith,
          inner-adelete_thread no_fault id id (touch_config now id s₁.checkpointer),
          eq_refl id,
        ) in
      rw (named, accept_miss digest o r id s found miss)
        (deleted, rw (← deleted) saved, sessions ∙ ap (λ t. t.metrics.active_sessions) gone)
