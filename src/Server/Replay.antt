-- ===== src/Server/Replay.antt =====
-- Turns that the idempotency cache answers.
use decision_maker_flow.Prelude.{
  ℕ, ◌+◌, ◌≤◌, ◌<◌, ◌≡◌, refl, String, Bool, true, false, none, some, ok, arith, sym, ◌∙◌,
}
use decision_maker_flow.Agent.Engine.{Checkpoint}
use decision_maker_flow.Agent.Session.{Streamed}
use decision_maker_flow.Server.Saver.{Saver, touch_config}
use decision_maker_flow.Server.Metrics.{Metrics}
use decision_maker_flow.Server.Idempotency.{TtlCache, make_key_from_header, make_key_from_tuple}
use decision_maker_flow.Server.TurnApi.{
  TurnRequest, TurnResponse, Outside, Server, cache_key, KeySource, header, internal, count_hit,
}
use decision_maker_flow.Server.TurnApi.Handlers.{serve, handle_turn}
use decision_maker_flow.Server.Serving.{Responded, serve_ok, serve_hit}
use decision_maker_flow.Server.Turns.{inner-touch_config, looked_up, turn_new, turn_resumed}

active-count_hit :
    (k : KeySource) (m : Metrics) → (count_hit k m).active_sessions ≡ m.active_sessions
active-count_hit header m = refl
active-count_hit internal m = refl

module _ {saver : Saver} {cache : TtlCache TurnResponse} where
  -- What a response put into the cache answers every request with its key.
  replay :
      (digest : String → String) (first second : Outside) (key : String) (r : TurnRequest)
      (is_new2 : Bool) (id2 : String) (n2 : ℕ) {is_new : Bool} {id : String} {n : ℕ}
      {streamed : Streamed} {s after : Server saver cache} (t : Server saver cache)
      {response : TurnResponse}
      → Responded first is_new key id n streamed s response after
      → first.cache_set_at ≤ second.cache_read_at
      → second.cache_read_at < first.cache_set_at + cache.ttl
      → t.idempotency_cache ≡ after.idempotency_cache
      → (cache_key digest (make_key_from_header r.idempotency_key) id2 r.message n2).0 ≡ key
      → let (reply, later) = serve digest second r is_new2 id2 n2 t in
        (reply ≡ ok response)
        × (later.checkpointer ≡ t.checkpointer)
        × (later.metrics.active_sessions ≡ t.metrics.active_sessions)
  replay digest first second key r is_new2 id2 n2 {s} t {response} out since until same k =
      let source = (cache_key digest (make_key_from_header r.idempotency_key) id2 r.message n2).1 in
      ground (
        arith,
        serve_hit digest second r is_new2 id2 n2 t {response = response} (
            ground (
              arith,
              out.cached,
              cache.get-set first.cache_set_at second.cache_read_at key response s.idempotency_cache
                  since until,
            )),
        active-count_hit source t.metrics,
      )

  -- A turn that starts a session under a valid Idempotency-Key, and is sent again with it while
  -- the entry lives: the second request gets the first one's response, with the session id of the
  -- first, and starts no session.
  pub retried_start :
      (digest : String → String) (first second : Outside) (r again : TurnRequest)
      (s : Server saver cache) (key : String) {response : TurnResponse} {after : Server saver cache}
      → r.session_id ≡ none
      → again.session_id ≡ none
      → make_key_from_header r.idempotency_key ≡ some key
      → make_key_from_header again.idempotency_key ≡ some key
      → cache.get first.cache_read_at key s.idempotency_cache ≡ none
      → first.cache_set_at ≤ second.cache_read_at
      → second.cache_read_at < first.cache_set_at + cache.ttl
      → handle_turn digest first r s ≡ (ok response, after)
      → let (reply, later) = handle_turn digest second again after in
        (reply ≡ ok response)
        × (response.session_id ≡ first.uuid)
        × (later.checkpointer ≡ after.checkpointer)
        × (later.metrics.active_sessions ≡ after.metrics.active_sessions)
  retried_start digest first second r again s key {after} new new2 k k2 miss since until h =
      let out =
        serve_ok digest first r true first.uuid 0 s (ground (arith, k, miss))
          (sym (turn_new digest first r s new) ∙ h) in
      let (reply, threads, active) =
        replay digest first second _ again true second.uuid 0 after out since until refl
          (ground (arith, k, k2)) in
      rw (turn_new digest second again after new2) (reply, out.session, threads, active)

  -- A message that is sent to a saved session, without a valid Idempotency-Key, and is sent to it
  -- again while the entry lives: the second request gets the first one's response, whatever the
  -- first has made of the session. The graph does not run.
  pub repeated_message :
      (digest : String → String) (first second : Outside) (r : TurnRequest) (id : String)
      (s : Server saver cache) {before : Checkpoint} {response : TurnResponse}
      {after : Server saver cache} {between : Checkpoint}
      → r.session_id ≡ some id
      → saver.aget_tuple id s.checkpointer.inner ≡ some before
      → make_key_from_header r.idempotency_key ≡ none
      → cache.get first.cache_read_at
          (make_key_from_tuple digest id r.message 0)
          s.idempotency_cache
        ≡ none
      → handle_turn digest first r s ≡ (ok response, after)
      → saver.aget_tuple id after.checkpointer.inner ≡ some between
      → first.cache_set_at ≤ second.cache_read_at
      → second.cache_read_at < first.cache_set_at + cache.ttl
      → let (reply, later) = handle_turn digest second r after in
        (reply ≡ ok response)
        × (later.checkpointer.inner ≡ after.checkpointer.inner)
        × (later.metrics.active_sessions ≡ after.metrics.active_sessions)
  repeated_message digest first second r id s {after} named found k miss h found2 since until =
      let t = looked_up second id after in
      let out =
        serve_ok digest first r false id 0 (looked_up first id s) (ground (arith, k, miss))
          (sym (turn_resumed digest first r s id named found) ∙ h) in
      let (reply, threads, active) =
        replay digest first second _ r false id 0 t out since until refl refl in
      rw (turn_resumed digest second r after id named found2) (
        reply,
        ground (
          arith,
          threads,
          inner-touch_config second.found_at id after.checkpointer,
          inner-touch_config second.counted_at id
              (touch_config second.found_at id after.checkpointer),
        ),
        active,
      )

  -- A header's key is not bound to a session: a request that resumes any other saved session under
  -- a key whose entry lives gets the response that was made for the first, with that session's id,
  -- and its message reaches no graph.
  pub foreign_replay :
      (digest : String → String) (first second : Outside) (r other : TurnRequest) (id : String)
      (s : Server saver cache) (key : String) {response : TurnResponse} {after : Server saver cache}
      {between : Checkpoint}
      → r.session_id ≡ none
      → other.session_id ≡ some id
      → saver.aget_tuple id after.checkpointer.inner ≡ some between
      → make_key_from_header r.idempotency_key ≡ some key
      → make_key_from_header other.idempotency_key ≡ some key
      → cache.get first.cache_read_at key s.idempotency_cache ≡ none
      → first.cache_set_at ≤ second.cache_read_at
      → second.cache_read_at < first.cache_set_at + cache.ttl
      → handle_turn digest first r s ≡ (ok response, after)
      → let (reply, later) = handle_turn digest second other after in
        (reply ≡ ok response)
        × (response.session_id ≡ first.uuid)
        × (later.checkpointer.inner ≡ after.checkpointer.inner)
  foreign_replay digest first second r other id s key {after} new named found k k2 miss since until
        h =
      let t = looked_up second id after in
      let out =
        serve_ok digest first r true first.uuid 0 s (ground (arith, k, miss))
          (sym (turn_new digest first r s new) ∙ h) in
      let (reply, threads, active) =
        replay digest first second _ other false id 0 t out since until refl
          (ground (arith, k, k2)) in
      rw (turn_resumed digest second other after id named found) (
        reply,
        out.session,
        ground (
          arith,
          threads,
          inner-touch_config second.found_at id after.checkpointer,
          inner-touch_config second.counted_at id
              (touch_config second.found_at id after.checkpointer),
        ),
      )
