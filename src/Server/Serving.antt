-- ===== src/Server/Serving.antt =====
-- The successful runs of POST /turn, taken apart.
use decision_maker_flow.Prelude.{
  ℕ, ◌≡◌, refl, String, Bool, true, false, Option, none, some, List, [], ◌∷◌, ◌++◌, map, ok, arith,
  sym, ◌∙◌,
}
use decision_maker_flow.Json.{Json, null, bool, int, float, str, arr, obj}
use decision_maker_flow.Agent.Engine.{Failure, Chunk}
use decision_maker_flow.Agent.Session.{Message, update, Streamed}
use decision_maker_flow.Server.Saver.{Saver, aput}
use decision_maker_flow.Server.Idempotency.{TtlCache, make_key_from_header}
use decision_maker_flow.Server.TurnApi.{
  TurnState, running, TurnRequest, TurnResponse, Outside, Server, collect_stream, cache_key,
  count_streamed, count_hit, Timing, in_time, expired, respond,
}
use decision_maker_flow.Server.TurnApi.Handlers.{generate, save, conclude, waited, keyed, serve}

pub collect_chunks :
    (cs : List Chunk) (ms : List Message) (start : Json × TurnState)
    → collect_stream (map update cs ++ ms) start ≡ collect_stream ms start
unfolding collect_stream
collect_chunks [] ms start = refl
collect_chunks (c ∷ cs) ms start = collect_chunks cs ms start

module _ {saver : Saver} {cache : TtlCache TurnResponse} where
  -- What a response says, and the server behind it.
  pub record Responded (o : Outside) (is_new : Bool) (key thread_id : String) (turn_n : ℕ)
      (streamed : Streamed) (s : Server saver cache) (response : TurnResponse)
      (after : Server saver cache) : Type 0 where
    pub whole : streamed.failure ≡ none
    pub collected :
        collect_stream streamed.messages (str "", running) ≡ (str response.reply, response.state)
    pub session : response.session_id ≡ thread_id
    pub number : response.turn_n ≡ turn_n
    pub saved : after.checkpointer ≡ aput o.saved_at thread_id streamed.checkpoint s.checkpointer
    pub cached : after.idempotency_cache ≡ cache.set o.cache_set_at key response s.idempotency_cache
    pub counted : after.metrics ≡ count_streamed is_new response.state s.metrics

  respond_ok :
      (digest : String → String) (o : Outside) (key thread_id : String) (turn_n : ℕ) (reply : Json)
      (state : TurnState) (s : Server saver cache) {response : TurnResponse}
      {after : Server saver cache}
      → respond digest o key thread_id turn_n (reply, state) s ≡ (ok response, after)
      → (reply ≡ str response.reply)
        × (state ≡ response.state)
        × (response.session_id ≡ thread_id)
        × (response.turn_n ≡ turn_n)
        × (after ≡ record s {
          idempotency_cache = cache.set o.cache_set_at key response s.idempotency_cache;
        })
  unfolding respond
  respond_ok digest o key thread_id turn_n (str reply) state s h = ground arith
  respond_ok digest o key thread_id turn_n (arr xs) state s h = ground arith
  respond_ok digest o key thread_id turn_n (obj fs) state s h = ground arith
  respond_ok digest o key thread_id turn_n null state s h = ground arith
  respond_ok digest o key thread_id turn_n (bool b) state s h = ground arith
  respond_ok digest o key thread_id turn_n (int i) state s h = ground arith
  respond_ok digest o key thread_id turn_n (float f) state s h = ground arith

  conclude_ok :
      (digest : String → String) (o : Outside) (is_new : Bool) (key thread_id : String) (turn_n : ℕ)
      (streamed : Streamed) (failure : Option Failure) (s : Server saver cache)
      {response : TurnResponse} {after : Server saver cache}
      → streamed.failure ≡ failure
      → conclude digest o is_new key thread_id turn_n streamed failure (save o thread_id streamed s)
        ≡ (ok response, after)
      → Responded o is_new key thread_id turn_n streamed s response after
  unfolding save conclude
  conclude_ok digest o is_new key thread_id turn_n streamed (some f) s e h = ground arith
  conclude_ok digest o is_new key thread_id turn_n streamed none s e h =
      let collected = collect_stream streamed.messages (str "", running) in
      let saved = aput o.saved_at thread_id streamed.checkpoint s.checkpointer in
      let (reply, state, session, number, rest) =
        respond_ok digest o key thread_id turn_n collected.0 collected.1
          (record s { checkpointer = saved; metrics = count_streamed is_new collected.1 s.metrics })
          h in
      record {
        whole = e;
        collected = ground arith;
        session = session;
        number = number;
        saved = ground arith;
        cached = ground arith;
        counted = ground arith;
      }

  waited_ok :
      (digest : String → String) (o : Outside) (timing : Timing) (is_new : Bool)
      (key thread_id : String) (turn_n : ℕ) (streamed : Streamed) (s : Server saver cache)
      {response : TurnResponse} {after : Server saver cache}
      → waited digest o timing is_new key thread_id turn_n streamed (save o thread_id streamed s) s
        ≡ (ok response, after)
      → Responded o is_new key thread_id turn_n streamed s response after
  unfolding waited
  waited_ok digest o in_time is_new key thread_id turn_n streamed s h =
      conclude_ok digest o is_new key thread_id turn_n streamed streamed.failure s refl h
  waited_ok digest o (expired true) is_new key thread_id turn_n streamed s h = ground arith
  waited_ok digest o (expired false) is_new key thread_id turn_n streamed s h = ground arith

  pub serve_miss :
      (digest : String → String) (o : Outside) (r : TurnRequest) (is_new : Bool)
      (thread_id : String) (turn_n : ℕ) (s : Server saver cache)
      → let key =
          (cache_key digest
            (make_key_from_header r.idempotency_key)
            thread_id
            r.message
            turn_n).0 in
        cache.get o.cache_read_at key s.idempotency_cache ≡ none
        → serve digest o r is_new thread_id turn_n s
          ≡ waited digest o o.timing is_new key thread_id turn_n
              (generate o is_new r.message thread_id s)
              (save o thread_id (generate o is_new r.message thread_id s) s)
              s
  unfolding serve keyed
  serve_miss digest o r is_new thread_id turn_n s miss = rw miss refl

  -- A hit changes the collectors alone.
  pub serve_hit :
      (digest : String → String) (o : Outside) (r : TurnRequest) (is_new : Bool)
      (thread_id : String) (turn_n : ℕ) (s : Server saver cache) {response : TurnResponse}
      → let key =
          cache_key digest (make_key_from_header r.idempotency_key) thread_id r.message turn_n in
        cache.get o.cache_read_at key.0 s.idempotency_cache ≡ some response
        → serve digest o r is_new thread_id turn_n s
          ≡ (ok response, record s { metrics = count_hit key.1 s.metrics })
  unfolding serve keyed
  serve_hit digest o r is_new thread_id turn_n s hit = rw hit refl

  -- A response that is not from the cache.
  pub serve_ok :
      (digest : String → String) (o : Outside) (r : TurnRequest) (is_new : Bool)
      (thread_id : String) (turn_n : ℕ) (s : Server saver cache) {response : TurnResponse}
      {after : Server saver cache}
      → let key =
          (cache_key digest
            (make_key_from_header r.idempotency_key)
            thread_id
            r.message
            turn_n).0 in
        cache.get o.cache_read_at key s.idempotency_cache ≡ none
        → serve digest o r is_new thread_id turn_n s ≡ (ok response, after)
        → Responded o is_new key thread_id turn_n
            (generate o is_new r.message thread_id s)
            s
            response
            after
  unfolding serve keyed
  serve_ok digest o r is_new thread_id turn_n s miss h =
      let key =
        cache_key digest (make_key_from_header r.idempotency_key) thread_id r.message turn_n in
      waited_ok digest o o.timing is_new key.0 thread_id turn_n
        (generate o is_new r.message thread_id s) s
        (sym (serve_miss digest o r is_new thread_id turn_n s miss) ∙ h)
