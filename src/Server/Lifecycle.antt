-- ===== src/Server/Lifecycle.antt =====
-- What POST /turn and POST /done do to a session.
use decision_maker_flow.Prelude.{
  ℕ, ◌+◌, ◌<◌, ◌≡◌, ◌≢◌, refl, String, true, false, none, some, raised, arith, str_eq, eq_iff,
  eq_refl, Bool-cases, inl, inr,
}
use decision_maker_flow.Prelude.Int.{pos, ◌-ℤ◌, -ℤ_parts}
use decision_maker_flow.Table.{select-upsert, upsert-IsKeyed, IsKeyed, listed, listed-keys_where}
use decision_maker_flow.Agent.Engine.{Checkpoint}
use decision_maker_flow.Server.Saver.{
  Saver, TouchingCheckpointer, Fault, no_fault, touch, touch_config, aget_tuple, get_last_touched,
  is_stale, list_stale, adelete_thread,
}
use decision_maker_flow.Server.Deletion.{inner-adelete_thread}
use decision_maker_flow.Server.Idempotency.{TtlCache}
use decision_maker_flow.Server.TurnApi.{
  TurnRequest, TurnResponse, session_not_found, Outside, Server,
}
use decision_maker_flow.Server.Turns.{inner-touch_config}
use decision_maker_flow.Server.TurnApi.Handlers.{route, close, handle_turn, handle_done}

module _ {saver : Saver} where
  touched_row :
      (now : ℕ) (k : String) (c : TouchingCheckpointer saver)
      → k ≢ ""
      → get_last_touched k (touch_config now k c) ≡ some now
  unfolding touch_config touch get_last_touched
  touched_row now k c named = ground (arith, select-upsert k k now c.meta, eq_refl k, eq_iff k "")

  touched_IsKeyed :
      (now : ℕ) (k : String) (c : TouchingCheckpointer saver)
      → IsKeyed c.meta
      → IsKeyed (touch_config now k c).meta
  unfolding touch_config touch
  touched_IsKeyed now k c h = elim (Bool-cases (str_eq k "")) [
    | inl e ↦ rw e h
    | inr e ↦ rw e (upsert-IsKeyed k now c.meta h)
  ]

  pub stale_listed :
      (k : String) (c : TouchingCheckpointer saver) (touched now threshold : ℕ)
      → IsKeyed c.meta
      → get_last_touched k c ≡ some touched
      → touched + threshold < now
      → listed k (list_stale now (pos threshold) c) ≡ true
  unfolding list_stale get_last_touched
  stale_listed k c touched now threshold keyed row old = ground (
    arith,
    listed-keys_where (is_stale now (pos threshold)) k c.meta keyed,
    -ℤ_parts (pos now) (pos threshold),
  )

module _ {saver : Saver} {cache : TtlCache TurnResponse} where
  handle_turn_missing :
      (digest : String → String) (o : Outside) (r : TurnRequest) (id : String)
      (s : Server saver cache)
      → r.session_id ≡ some id
      → saver.aget_tuple id s.checkpointer.inner ≡ none
      → handle_turn digest o r s ≡ (
        raised session_not_found,
        record s { checkpointer = touch_config o.found_at id s.checkpointer },
      )
  unfolding handle_turn route aget_tuple
  handle_turn_missing digest o r id s named missing = rw (named, missing) refl

  -- A turn for a session that the saver does not hold answers 404, and reads and writes neither
  -- the cache nor the collectors nor the saved threads. But it leaves a row for the id, unless
  -- this is the empty text, so a sweep that comes later than the threshold takes the id for a
  -- session to delete.
  pub unknown_session :
      (digest : String → String) (o : Outside) (r : TurnRequest) (id : String)
      (s : Server saver cache) (now threshold : ℕ)
      → r.session_id ≡ some id
      → id ≢ ""
      → saver.aget_tuple id s.checkpointer.inner ≡ none
      → IsKeyed s.checkpointer.meta
      → o.found_at + threshold < now
      → let (reply, after) = handle_turn digest o r s in
        (reply ≡ raised session_not_found)
        × (after.checkpointer.inner ≡ s.checkpointer.inner)
        × (after.idempotency_cache ≡ s.idempotency_cache)
        × (after.metrics ≡ s.metrics)
        × (listed id (list_stale now (pos threshold) after.checkpointer) ≡ true)
  unknown_session digest o r id s now threshold named nonempty missing keyed later =
      let c = touch_config o.found_at id s.checkpointer in
      rw (handle_turn_missing digest o r id s named missing) (
        refl,
        inner-touch_config o.found_at id s.checkpointer,
        refl,
        refl,
        stale_listed id c o.found_at now threshold
            (touched_IsKeyed o.found_at id s.checkpointer keyed)
            (touched_row o.found_at id s.checkpointer nonempty) later,
      )

  handle_done_missing :
      (now : ℕ) (f : Fault) (id : String) (s : Server saver cache)
      → saver.aget_tuple id s.checkpointer.inner ≡ none
      → handle_done now f id s ≡ record s {
        checkpointer = touch_config now id s.checkpointer;
        metrics = record (s.metrics) { done_total = s.metrics.done_total + 1 };
      }
  unfolding handle_done close aget_tuple
  handle_done_missing now f id s missing = rw missing refl

  pub handle_done_found :
      (now : ℕ) (id : String) (s : Server saver cache) {checkpoint : Checkpoint}
      → saver.aget_tuple id s.checkpointer.inner ≡ some checkpoint
      → handle_done now no_fault id s ≡ record s {
        checkpointer = (adelete_thread no_fault id (touch_config now id s.checkpointer)).1;
        metrics = record (s.metrics) {
          active_sessions = s.metrics.active_sessions -ℤ pos 1;
          done_total = s.metrics.done_total + 1;
        };
      }
  unfolding handle_done close aget_tuple adelete_thread
  handle_done_found now id s found = rw found refl

  -- POST /done on a saved session, without a fault: the session is gone, every other one is as
  -- before, and the gauge falls by one. A second POST /done finds nothing and leaves the saved
  -- threads and the gauge alone; both are counted.
  pub done_twice :
      (first second : ℕ) (f : Fault) (id other : String) (s : Server saver cache)
      {checkpoint : Checkpoint}
      → saver.aget_tuple id s.checkpointer.inner ≡ some checkpoint
      → str_eq id other ≡ false
      → let once = handle_done first no_fault id s in
        let twice = handle_done second f id once in
        (saver.aget_tuple id once.checkpointer.inner ≡ none)
        × (saver.aget_tuple other once.checkpointer.inner
            ≡ saver.aget_tuple other s.checkpointer.inner)
        × (once.metrics.active_sessions ≡ s.metrics.active_sessions -ℤ pos 1)
        × (twice.checkpointer.inner ≡ once.checkpointer.inner)
        × (twice.metrics.active_sessions ≡ once.metrics.active_sessions)
        × (twice.metrics.done_total ≡ s.metrics.done_total + 2)
  done_twice first second f id other s found different =
      let touched = touch_config first id s.checkpointer in
      let once = handle_done first no_fault id s in
      ground (
        arith,
        handle_done_found first id s found,
        inner-adelete_thread no_fault id id touched,
        inner-adelete_thread no_fault id other touched,
        inner-touch_config first id s.checkpointer,
        inner-touch_config second id once.checkpointer,
        handle_done_missing second f id once,
        eq_refl id,
      )

  -- POST /done on an id that is not saved, even one that was deleted before, leaves a row for it: a
  -- sweep that comes later than the threshold takes it for a session to delete.
  pub done_missing_listed :
      (first now threshold : ℕ) (f : Fault) (id : String) (s : Server saver cache)
      → id ≢ ""
      → saver.aget_tuple id s.checkpointer.inner ≡ none
      → IsKeyed s.checkpointer.meta
      → first + threshold < now
      → let after = handle_done first f id s in
        (after.metrics.active_sessions ≡ s.metrics.active_sessions)
        × (listed id (list_stale now (pos threshold) after.checkpointer) ≡ true)
  done_missing_listed first now threshold f id s nonempty missing keyed later =
      rw (handle_done_missing first f id s missing) (
        refl,
        stale_listed id (touch_config first id s.checkpointer) first now threshold
            (touched_IsKeyed first id s.checkpointer keyed)
            (touched_row first id s.checkpointer nonempty) later,
      )
