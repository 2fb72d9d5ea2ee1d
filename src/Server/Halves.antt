-- ===== src/Server/Halves.antt =====
-- What the two halves of a turn leave of the other threads.
use decision_maker_flow.Prelude.{
  ℕ, ◌≡◌, refl, inl, inr, ◌⊎◌, String, Bool, true, false, Option, none, some, str_eq, Option-cases,
  Bool-cases,
}
use decision_maker_flow.Json.{Json, null, bool, int, float, str, arr, obj}
use decision_maker_flow.Agent.Engine.{Checkpoint, Failure}
use decision_maker_flow.Agent.Session.{Streamed}
use decision_maker_flow.Server.Saver.{Saver, touch_config, aget_tuple}
use decision_maker_flow.Server.Idempotency.{TtlCache, make_key_from_header}
use decision_maker_flow.Server.TurnApi.{
  TurnState, running, turn_number, cache_key, KeySource, collect_stream, count_streamed, thread_of,
  TurnResponse, TurnRequest, Outside, Timing, in_time, expired, Server, respond,
}
use decision_maker_flow.Server.TurnApi.Handlers.{waited, conclude, save}
use decision_maker_flow.Server.Interleaving.{
  Pending, Accepted, replied, streaming, accept_keyed, accept_turn, accept_resumed, accept,
  finish_turn, opening, has_stepped, open_stream, save_steps,
}
use decision_maker_flow.Server.Spared.{
  Spared, Spared-refl, Spared-trans, touch_config-Spared, aput-Spared,
}

-- The thread of a request.
abbrev pub named : Outside → (session_id : Option String) → String
named o none = o.uuid
named o (some id) = id

abbrev pub IsTurnOf : String → Accepted → Type 0
IsTurnOf id (replied reply) = Unit
IsTurnOf id (streaming p) = p.thread_id ≡ id

-- What the halves of a turn do to the checkpointer.
module _ {saver : Saver} {cache : TtlCache TurnResponse} (digest : String → String) where
  respond_checkpointer :
      (o : Outside) (key thread_id : String) (turn_n : ℕ) (reply : Json) (state : TurnState)
      (s : Server saver cache)
      → (respond digest o key thread_id turn_n (reply, state) s).1.checkpointer ≡ s.checkpointer
  unfolding respond
  respond_checkpointer o key thread_id turn_n (str reply) state s = refl
  respond_checkpointer o key thread_id turn_n (arr xs) state s = refl
  respond_checkpointer o key thread_id turn_n (obj fs) state s = refl
  respond_checkpointer o key thread_id turn_n null state s = refl
  respond_checkpointer o key thread_id turn_n (bool b) state s = refl
  respond_checkpointer o key thread_id turn_n (int i) state s = refl
  respond_checkpointer o key thread_id turn_n (float f) state s = refl

  pub conclude_checkpointer :
      (o : Outside) (is_new : Bool) (key thread_id : String) (turn_n : ℕ) (streamed : Streamed)
      (failure : Option Failure) (s : Server saver cache)
      → (conclude digest o is_new key thread_id turn_n streamed failure s).1.checkpointer
        ≡ s.checkpointer
  unfolding conclude
  conclude_checkpointer o is_new key thread_id turn_n streamed none s =
      let collected = collect_stream streamed.messages (str "", running) in
      respond_checkpointer o key thread_id turn_n collected.0 collected.1
        (record s { metrics = count_streamed is_new collected.1 s.metrics })
  conclude_checkpointer o is_new key thread_id turn_n streamed (some f) s = refl

  save_steps-Spared :
      (t : String) (p : Pending) (s : Server saver cache)
      → str_eq p.thread_id t ≡ false
      → Spared t s.checkpointer (save_steps p s).checkpointer
  unfolding save_steps save
  save_steps-Spared t p s other = elim (Bool-cases (has_stepped p.streamed.messages)) [
    | inl e ↦
        rw e
          (aput-Spared t p.outside.saved_at p.thread_id p.streamed.checkpoint s.checkpointer other)
    | inr e ↦ rw e (Spared-refl t s.checkpointer)
  ]

  -- The server is saved as the stream has left it, unless it is cancelled before.
  waited_checkpointer :
      (o : Outside) (timing : Timing) (is_new : Bool) (key thread_id : String) (turn_n : ℕ)
      (streamed : Streamed) (saved s : Server saver cache)
      → let after = (waited digest o timing is_new key thread_id turn_n streamed saved s).1 in
        (after.checkpointer ≡ saved.checkpointer) ⊎ (after.checkpointer ≡ s.checkpointer)
  unfolding waited
  waited_checkpointer o in_time is_new key thread_id turn_n streamed saved s =
      inl (conclude_checkpointer o is_new key thread_id turn_n streamed streamed.failure saved)
  waited_checkpointer o (expired true) is_new key thread_id turn_n streamed saved s = inl refl
  waited_checkpointer o (expired false) is_new key thread_id turn_n streamed saved s = inr refl

  accept_keyed_result :
      (t : String) (o : Outside) (is_new : Bool) (key : String) (source : KeySource)
      (cached : Option TurnResponse) (message thread_id : String) (turn_n : ℕ)
      (s : Server saver cache)
      → str_eq thread_id t ≡ false
      → let result = accept_keyed o is_new key source cached message thread_id turn_n s in
        Spared t s.checkpointer result.1.checkpointer × IsTurnOf thread_id result.0
  unfolding accept_keyed open_stream
  accept_keyed_result t o is_new key source (some response) message thread_id turn_n s other =
      (Spared-refl t s.checkpointer, tt)
  accept_keyed_result t o is_new key source none message thread_id turn_n s other =
      let c = thread_of (saver.aget_tuple thread_id s.checkpointer.inner) in
      (aput-Spared t o.opened_at thread_id (opening is_new message c) s.checkpointer other, refl)

  accept_turn_result :
      (t : String) (o : Outside) (r : TurnRequest) (is_new : Bool) (thread_id : String) (turn_n : ℕ)
      (s : Server saver cache)
      → str_eq thread_id t ≡ false
      → let result = accept_turn digest o r is_new thread_id turn_n s in
        Spared t s.checkpointer result.1.checkpointer × IsTurnOf thread_id result.0
  unfolding accept_turn
  accept_turn_result t o r is_new thread_id turn_n s other =
      let key =
        cache_key digest (make_key_from_header r.idempotency_key) thread_id r.message turn_n in
      accept_keyed_result t o is_new key.0 key.1
        (cache.get o.cache_read_at key.0 s.idempotency_cache) r.message thread_id turn_n s other

  accept_found :
      (t : String) (o : Outside) (r : TurnRequest) (id : String) (s : Server saver cache)
      {checkpoint : Checkpoint}
      → str_eq id t ≡ false
      → saver.aget_tuple id s.checkpointer.inner ≡ some checkpoint
      → let result = accept digest o r (some id) s in
        Spared t s.checkpointer result.1.checkpointer × IsTurnOf id result.0
  unfolding accept accept_resumed aget_tuple
  accept_found t o r id s other found =
      let once = touch_config o.found_at id s.checkpointer in
      let twice = touch_config o.counted_at id once in
      let n = turn_number (saver.aget_tuple id once.inner) in
      let (spared, turn) =
        accept_turn_result t o r false id n (record s { checkpointer = twice }) other in
      rw found (
        Spared-trans t (touch_config-Spared t o.found_at id s.checkpointer other)
            (Spared-trans t (touch_config-Spared t o.counted_at id once other) spared),
        turn,
      )

  accept_missing :
      (t : String) (o : Outside) (r : TurnRequest) (id : String) (s : Server saver cache)
      → str_eq id t ≡ false
      → saver.aget_tuple id s.checkpointer.inner ≡ none
      → let result = accept digest o r (some id) s in
        Spared t s.checkpointer result.1.checkpointer × IsTurnOf id result.0
  unfolding accept aget_tuple
  accept_missing t o r id s other missing =
      rw missing (touch_config-Spared t o.found_at id s.checkpointer other, tt)

  -- A request leaves the threads alone that it does not name, and so will its turn.
  pub accept-Spared :
      (t : String) (o : Outside) (r : TurnRequest) (session_id : Option String)
      (s : Server saver cache)
      → str_eq (named o session_id) t ≡ false
      → let result = accept digest o r session_id s in
        Spared t s.checkpointer result.1.checkpointer × IsTurnOf (named o session_id) result.0
  unfolding accept
  accept-Spared t o r none s other = accept_turn_result t o r true o.uuid 0 s other
  accept-Spared t o r (some id) s other =
      elim (Option-cases (saver.aget_tuple id s.checkpointer.inner)) [
        | inl missing ↦ accept_missing t o r id s other missing
        | inr (checkpoint, found) ↦ accept_found t o r id s other found
      ]

  pub finish_turn-Spared :
      (t : String) (p : Pending) (s : Server saver cache)
      → str_eq p.thread_id t ≡ false
      → Spared t s.checkpointer (finish_turn digest p s).1.checkpointer
  unfolding finish_turn
  finish_turn-Spared t p s other =
      let o = p.outside in
      elim (waited_checkpointer o o.timing p.is_new p.key p.thread_id p.turn_n p.streamed
        (save_steps p s) s) [
          | inl e ↦ rw e (save_steps-Spared t p s other)
          | inr e ↦ rw e (Spared-refl t s.checkpointer)
        ]
