-- ===== src/Server/Sweeper.antt =====
-- server/sweeper.py: one tick. `run` is a tick after every sleep.
use decision_maker_flow.Prelude.{
  ℕ, ◌+◌, String, Bool, true, false, List, [], ◌∷◌, ltb, if◌then◌else◌,
}
use decision_maker_flow.Prelude.Int.{ℤ}
use decision_maker_flow.Server.Saver.{
  Saver, TouchingCheckpointer, Fault, list_stale, adelete_thread,
}
use decision_maker_flow.Server.Metrics.{Metrics, dec_sessions}

pub record Swept (saver : Saver) : Type 0 where
  pub checkpointer : TouchingCheckpointer saver
  pub metrics : Metrics
  pub deleted_count : ℕ

module _ {saver : Saver} where
  -- One turn of the loop, after `adelete_thread`.
  abbrev pub counted : Bool × TouchingCheckpointer saver → Swept saver → Swept saver
  counted (true, c) s = record {
    checkpointer = c;
    metrics = dec_sessions s.metrics;
    deleted_count = s.deleted_count + 1;
  }
  counted (false, c) s = record s { checkpointer = c }

  -- The loop over `stale_ids`. `faults` says how each deletion goes; a failure is logged and the
  -- loop goes on.
  unfoldable pub sweep : (faults : String → Fault) → List String → Swept saver → Swept saver
  unfolding adelete_thread
  sweep faults [] s = s
  sweep faults (k ∷ ks) s = sweep faults ks (counted (adelete_thread (faults k) k s.checkpointer) s)

  -- The counters behind the loop.
  unfoldable pub summarised : Swept saver → Swept saver
  summarised s =
      let runs = s.metrics.sweeper_runs_total + 1 in
      let deleted = s.metrics.sweeper_deleted_total + s.deleted_count in
      record s {
        metrics =
            if ltb 0 s.deleted_count
            then record (s.metrics) { sweeper_runs_total = runs; sweeper_deleted_total = deleted }
            else record (s.metrics) { sweeper_runs_total = runs };
      }

  abbrev pub started : TouchingCheckpointer saver → Metrics → Swept saver
  started c m = record { checkpointer = c; metrics = m; deleted_count = 0 }

  unfoldable pub tick :
      (faults : String → Fault) (threshold_sec : ℤ) (now_unix : ℕ)
      → TouchingCheckpointer saver
      → Metrics
      → Swept saver
  unfolding list_stale sweep summarised
  tick faults threshold_sec now_unix c m =
      summarised (sweep faults (list_stale now_unix threshold_sec c) (started c m))
