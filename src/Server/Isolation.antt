-- ===== src/Server/Isolation.antt =====
-- Interleaved requests and ticks leave a thread alone that none of them names.
use decision_maker_flow.Prelude.{
  ℕ, zero, suc, ◌+◌, ◌*◌, ◌≤◌, ◌≡◌, refl, ap, ◌∙◌, String, Bool, true, false, Option, none, some,
  List, [], ◌∷◌, ok, str_eq, All,
}
use decision_maker_flow.Prelude.Int.{ℤ, pos}
use decision_maker_flow.Table.{IsKeyed}
use decision_maker_flow.Agent.Engine.{Checkpoint}
use decision_maker_flow.Server.Saver.{
  Saver, TouchingCheckpointer, Fault, touch_config, aget_tuple, get_last_touched, adelete_thread,
}
use decision_maker_flow.Server.Idempotency.{TtlCache}
use decision_maker_flow.Server.TurnApi.{TurnResponse, Server}
use decision_maker_flow.Server.TurnApi.Handlers.{close, handle_done}
use decision_maker_flow.Server.Interleaving.{
  end_stream, run_tick, Pending, Accepted, replied, streaming, accept, finish_turn, Action, request,
  World, act, perform,
}
use decision_maker_flow.Server.Spared.{
  Spared, Spared-refl, Spared-trans, touch_config-Spared, adelete_thread-Spared,
  adelete_thread_IsKeyed,
}
use decision_maker_flow.Server.Halves.{named, IsTurnOf, accept-Spared, finish_turn-Spared}
use decision_maker_flow.Server.Config.{Config, validate}
use decision_maker_flow.Server.Metrics.{Metrics}
use decision_maker_flow.Server.Sweeper.{Swept, counted, sweep, summarised, started, tick}
use decision_maker_flow.Server.Saver.{list_stale}
use decision_maker_flow.Server.Sweeping.{in_flight_safe, checkpointer-counted}
use decision_maker_flow.Server.TurnApi.Handlers.{after_delete}
use decision_maker_flow.Server.Interleaving.{picked, with_front, with_concluded, with_accepted}

module _ {saver : Saver} {cache : TtlCache TurnResponse} where
  checkpointer-after_delete :
      (d : Bool × TouchingCheckpointer saver) (s : Server saver cache)
      → (after_delete d s).checkpointer ≡ d.1
  checkpointer-after_delete (true, c) s = refl
  checkpointer-after_delete (false, c) s = refl

  close-Spared :
      (t : String) (f : Fault) (id : String) (found : Option Checkpoint) (s : Server saver cache)
      → str_eq id t ≡ false
      → Spared t s.checkpointer (close f id found s).checkpointer
  unfolding close
  close-Spared t f id none s other = Spared-refl t s.checkpointer
  close-Spared t f id (some checkpoint) s other =
      rw (checkpointer-after_delete (adelete_thread f id s.checkpointer) s)
        (adelete_thread-Spared t f id s.checkpointer other)

  handle_done-Spared :
      (t : String) (now : ℕ) (f : Fault) (id : String) (s : Server saver cache)
      → str_eq id t ≡ false
      → Spared t s.checkpointer (handle_done now f id s).checkpointer
  unfolding handle_done aget_tuple
  handle_done-Spared t now f id s other =
      let touched = touch_config now id s.checkpointer in
      let found = saver.aget_tuple id s.checkpointer.inner in
      Spared-trans t (touch_config-Spared t now id s.checkpointer other)
        (close-Spared t f id found (record s { checkpointer = touched }) other)

module _ {saver : Saver} (faults : String → Fault) where
  sweep_IsKeyed :
      (ks : List String) (s : Swept saver)
      → IsKeyed s.checkpointer.meta
      → IsKeyed (sweep faults ks s).checkpointer.meta
  unfolding sweep
  sweep_IsKeyed [] s h = h
  sweep_IsKeyed (k ∷ ks) s h =
      let deleted = adelete_thread (faults k) k s.checkpointer in
      sweep_IsKeyed ks (counted deleted s) (
        rw (checkpointer-counted deleted s)
          (adelete_thread_IsKeyed k (faults k) k s.checkpointer h))

  tick_IsKeyed :
      (threshold : ℤ) (now : ℕ) (c : TouchingCheckpointer saver) (m : Metrics)
      → IsKeyed c.meta
      → IsKeyed (tick faults threshold now c m).checkpointer.meta
  unfolding tick summarised
  tick_IsKeyed threshold now c m h = sweep_IsKeyed (list_stale now threshold c) (started c m) h

-- What an action does not do to the thread: its requests name others, its ticks are not later than
-- the deadline.
abbrev pub Leaves : (t : String) (deadline : ℕ) → Action → Type 0
Leaves t deadline (request o r) = str_eq (named o r.session_id) t ≡ false
Leaves t deadline (end_stream index) = Unit
Leaves t deadline (Action.done now f id) = str_eq id t ≡ false
Leaves t deadline (run_tick faults now) = now ≤ deadline

abbrev pub IsOther : String → Pending → Type 0
IsOther t p = str_eq p.thread_id t ≡ false

abbrev AreOther : String → Option (Pending × List Pending) → Type 0
AreOther t none = Unit
AreOther t (some (p, ps)) = IsOther t p × All (IsOther t) ps

with_front-AreOther :
    (t : String) (q : Pending) (o : Option (Pending × List Pending))
    → IsOther t q
    → AreOther t o
    → AreOther t (with_front q o)
with_front-AreOther t q none h g = tt
with_front-AreOther t q (some (p, ps)) h g = (g.0, (h, g.1))

picked-AreOther :
    (t : String) (index : ℕ) (ps : List Pending) → All (IsOther t) ps → AreOther t (picked index ps)
unfolding picked
picked-AreOther t zero [] h = tt
picked-AreOther t (suc index) [] h = tt
picked-AreOther t zero (p ∷ ps) h = h
picked-AreOther t (suc index) (p ∷ ps) h =
    with_front-AreOther t p (picked index ps) h.0 (picked-AreOther t index ps h.1)

module _ {saver : Saver} {cache : TtlCache TurnResponse} (digest : String → String) (cfg : Config)
    (timeout touched : ℕ) (t : String) where
  -- The thread is as it was, and no stream is its own.
  abbrev IsKept : Option Checkpoint → World saver cache → Type 0
  IsKept checkpoint w =
      IsKeyed w.server.checkpointer.meta
      × (get_last_touched t w.server.checkpointer ≡ some touched)
      × (saver.aget_tuple t w.server.checkpointer.inner ≡ checkpoint)
      × All (IsOther t) w.streams

  keep :
      (checkpoint : Option Checkpoint) (w : World saver cache) (s : Server saver cache)
      (ps : List Pending)
      → IsKept checkpoint w
      → Spared t w.server.checkpointer s.checkpointer
      → All (IsOther t) ps
      → IsKept checkpoint (record { server = s; streams = ps })
  keep checkpoint w s ps (keyed, row, saved, others) spared h =
      (spared.keyed keyed, spared.row ∙ row, spared.saved ∙ saved, h)

  request-IsKept :
      (checkpoint : Option Checkpoint) (w : World saver cache) (id : String)
      (a : Accepted × Server saver cache)
      → IsKept checkpoint w
      → str_eq id t ≡ false
      → Spared t w.server.checkpointer a.1.checkpointer × IsTurnOf id a.0
      → IsKept checkpoint (with_accepted a w.streams)
  request-IsKept checkpoint w id (replied reply, s) kept other (spared, turn) =
      keep checkpoint w s w.streams kept spared kept.3
  request-IsKept checkpoint w id (streaming p, s) kept other (spared, turn) =
      keep checkpoint w s (p ∷ w.streams) kept spared (ap (λ k. str_eq k t) turn ∙ other, kept.3)

  conclude-IsKept :
      (checkpoint : Option Checkpoint) (w : World saver cache)
      (found : Option (Pending × List Pending))
      → IsKept checkpoint w
      → AreOther t found
      → IsKept checkpoint (with_concluded digest found w)
  conclude-IsKept checkpoint w none kept h = kept
  conclude-IsKept checkpoint w (some (p, ps)) kept h =
      keep checkpoint w (finish_turn digest p w.server).1 ps kept
        (finish_turn-Spared digest t p w.server h.0) h.1

  act-IsKept :
      (checkpoint : Option Checkpoint) (a : Action) (w : World saver cache)
      → validate cfg ≡ ok cfg
      → cfg.turn_timeout_sec ≡ pos timeout
      → Leaves t (touched + 5 * timeout) a
      → IsKept checkpoint w
      → IsKept checkpoint (act digest cfg.sweep_threshold_secs a w)
  unfolding act
  act-IsKept checkpoint (request o r) w valid long leaves kept =
      request-IsKept checkpoint w (named o r.session_id) (accept digest o r r.session_id w.server)
        kept leaves (accept-Spared digest t o r r.session_id w.server leaves)
  act-IsKept checkpoint (end_stream index) w valid long leaves kept =
      conclude-IsKept checkpoint w (picked index w.streams) kept
        (picked-AreOther t index w.streams kept.3)
  act-IsKept checkpoint (Action.done now f id) w valid long leaves kept =
      keep checkpoint w (handle_done now f id w.server) w.streams kept
        (handle_done-Spared t now f id w.server leaves) kept.3
  act-IsKept checkpoint (run_tick faults now) w valid long leaves (keyed, row, saved, others) =
      let c = w.server.checkpointer in
      let m = w.server.metrics in
      let (row_kept, same) =
        in_flight_safe faults cfg timeout now touched c m t valid long keyed row leaves in
      (tick_IsKeyed faults cfg.sweep_threshold_secs now c m keyed, row_kept, same ∙ saved, others)

  perform-IsKept :
      (checkpoint : Option Checkpoint) (actions : List Action) (w : World saver cache)
      → validate cfg ≡ ok cfg
      → cfg.turn_timeout_sec ≡ pos timeout
      → All (Leaves t (touched + 5 * timeout)) actions
      → IsKept checkpoint w
      → IsKept checkpoint (perform digest cfg.sweep_threshold_secs actions w)
  unfolding perform
  perform-IsKept checkpoint [] w valid long leaves kept = kept
  perform-IsKept checkpoint (a ∷ rest) w valid long leaves kept =
      perform-IsKept checkpoint rest (act digest cfg.sweep_threshold_secs a w) valid long leaves.1
        (act-IsKept checkpoint a w valid long leaves.0 kept)

  -- However requests, concluding turns and ticks interleave: while none of them names a thread that
  -- has a row and no stream of its own, and no tick is later than five turn timeouts behind the
  -- row, its row and its checkpoint stay, under a validated configuration with a timeout of at
  -- least 0.
  pub isolated :
      (actions : List Action) (w : World saver cache)
      → validate cfg ≡ ok cfg
      → cfg.turn_timeout_sec ≡ pos timeout
      → IsKeyed w.server.checkpointer.meta
      → get_last_touched t w.server.checkpointer ≡ some touched
      → All (IsOther t) w.streams
      → All (Leaves t (touched + 5 * timeout)) actions
      → let after = (perform digest cfg.sweep_threshold_secs actions w).server.checkpointer in
        (get_last_touched t after ≡ some touched)
        × (saver.aget_tuple t after.inner ≡ saver.aget_tuple t w.server.checkpointer.inner)
  isolated actions w valid long keyed row others leaves =
      let checkpoint = saver.aget_tuple t w.server.checkpointer.inner in
      let kept = perform-IsKept checkpoint actions w valid long leaves (keyed, row, refl, others) in
      (kept.1, kept.2)
