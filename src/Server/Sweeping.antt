-- ===== src/Server/Sweeping.antt =====
-- What a tick of the sweeper does to the threads and to the counters.
use decision_maker_flow.Prelude.{
  ℕ, ◌+◌, ◌*◌, ◌≤◌, ◌≡◌, refl, String, Bool, true, false, ◌&&◌, none, some, List, [], ◌∷◌, ok,
  arith, eq_iff, if◌then◌else◌,
}
use decision_maker_flow.Prelude.Int.{
  ℤ, pos, ◌+ℤ◌, -ℤ_parts, scale_parts, +ℤ_zero, +ℤ_suc, -ℤ_+ℤ_one,
}
use decision_maker_flow.Table.{select, IsKeyed, listed, satisfies, listed-keys_where}
use decision_maker_flow.Server.Saver.{
  Saver, TouchingCheckpointer, Fault, no_fault, at_checkpoints, at_writes, at_meta, at_commit,
  get_last_touched, is_stale, list_stale, adelete_thread,
}
use decision_maker_flow.Server.Deletion.{
  drops_checkpoint, drops_row, meta-adelete_thread, inner-adelete_thread, adelete_thread_result,
}
use decision_maker_flow.Server.Metrics.{Metrics}
use decision_maker_flow.Server.Config.{Config, validate}
use decision_maker_flow.Server.Sweeper.{Swept, counted, sweep, started, summarised, tick}

-- The deletions of a list that succeed.
unfoldable pub succeeded : (faults : String → Fault) → List String → ℕ
succeeded faults [] = 0
succeeded faults (k ∷ ks) =
    let rest = succeeded faults ks in
    elim (faults k) [
      | no_fault ↦ rest + 1
      | at_checkpoints ↦ rest
      | at_writes ↦ rest
      | at_meta ↦ rest
      | at_commit ↦ rest
    ]

module _ {saver : Saver} where
  pub checkpointer-counted :
      (d : Bool × TouchingCheckpointer saver) (s : Swept saver) → (counted d s).checkpointer ≡ d.1
  checkpointer-counted (true, c) s = refl
  checkpointer-counted (false, c) s = refl

module _ {saver : Saver} (faults : String → Fault) where
  meta-sweep :
      (ks : List String) (j : String) (s : Swept saver)
      → select j (sweep faults ks s).checkpointer.meta
        ≡ (if listed j ks && drops_row (faults j) then none else select j s.checkpointer.meta)
  unfolding sweep listed
  meta-sweep [] j s = ground arith
  meta-sweep (k ∷ ks) j s =
      let deleted = adelete_thread (faults k) k s.checkpointer in
      ground (
        arith,
        meta-sweep ks j (counted deleted s),
        checkpointer-counted deleted s,
        meta-adelete_thread (faults k) k j s.checkpointer,
        eq_iff k j,
      )

  inner-sweep :
      (ks : List String) (j : String) (s : Swept saver)
      → saver.aget_tuple j (sweep faults ks s).checkpointer.inner ≡ (
          if listed j ks && drops_checkpoint (faults j)
          then none
          else saver.aget_tuple j s.checkpointer.inner)
  unfolding sweep listed
  inner-sweep [] j s = ground arith
  inner-sweep (k ∷ ks) j s =
      let deleted = adelete_thread (faults k) k s.checkpointer in
      ground (
        arith,
        inner-sweep ks j (counted deleted s),
        checkpointer-counted deleted s,
        inner-adelete_thread (faults k) k j s.checkpointer,
        eq_iff k j,
      )

  metrics-sweep :
      (ks : List String) (s : Swept saver)
      → let after = sweep faults ks s in
        (after.deleted_count ≡ s.deleted_count + succeeded faults ks)
        × (after.metrics.active_sessions +ℤ pos (succeeded faults ks) ≡ s.metrics.active_sessions)
  unfolding sweep succeeded
  metrics-sweep [] s = (omega arith, +ℤ_zero s.metrics.active_sessions)
  metrics-sweep (k ∷ ks) s =
      let deleted = adelete_thread (faults k) k s.checkpointer in
      ground (
        arith,
        metrics-sweep ks (counted deleted s),
        adelete_thread_result (faults k) k s.checkpointer,
        -ℤ_+ℤ_one s.metrics.active_sessions,
        +ℤ_suc (sweep faults ks (counted deleted s)).metrics.active_sessions (succeeded faults ks),
      )

  sweeper_metrics-sweep :
      (ks : List String) (s : Swept saver)
      → ((sweep faults ks s).metrics.sweeper_runs_total ≡ s.metrics.sweeper_runs_total)
        × ((sweep faults ks s).metrics.sweeper_deleted_total ≡ s.metrics.sweeper_deleted_total)
  unfolding sweep
  sweeper_metrics-sweep [] s = (refl, refl)
  sweeper_metrics-sweep (k ∷ ks) s =
      ground
        (arith, sweeper_metrics-sweep ks (counted (adelete_thread (faults k) k s.checkpointer) s))

  -- After a tick a thread has no row of `_brainstorm_meta` if it was stale and its deletion did
  -- not fail before the commit, and the row that it had in every other case; the same holds of
  -- its checkpoint, with a deletion that got past its first statement.
  pub tick_evicts :
      (threshold_sec : ℤ) (now_unix : ℕ) (c : TouchingCheckpointer saver) (m : Metrics)
      (thread_id : String)
      → IsKeyed c.meta
      → let after = (tick faults threshold_sec now_unix c m).checkpointer in
        let stale = satisfies (is_stale now_unix threshold_sec) (get_last_touched thread_id c) in
        (get_last_touched thread_id after
          ≡ (if stale && drops_row (faults thread_id) then none else get_last_touched thread_id c))
        × (saver.aget_tuple thread_id after.inner ≡ (
            if stale && drops_checkpoint (faults thread_id)
            then none
            else saver.aget_tuple thread_id c.inner))
  unfolding tick summarised list_stale get_last_touched
  tick_evicts threshold_sec now_unix c m thread_id keyed =
      let stale = list_stale now_unix threshold_sec c in
      ground (
        arith,
        meta-sweep stale thread_id (started c m),
        inner-sweep stale thread_id (started c m),
        listed-keys_where (is_stale now_unix threshold_sec) thread_id c.meta keyed,
      )

  -- A tick counts itself once, adds the deletions that succeeded to `sweeper_deleted_total`, and
  -- takes as many off the gauge of active sessions.
  pub tick_counts :
      (threshold_sec : ℤ) (now_unix : ℕ) (c : TouchingCheckpointer saver) (m : Metrics)
      → let after = (tick faults threshold_sec now_unix c m).metrics in
        let n = succeeded faults (list_stale now_unix threshold_sec c) in
        (after.sweeper_runs_total ≡ m.sweeper_runs_total + 1)
        × (after.sweeper_deleted_total ≡ m.sweeper_deleted_total + n)
        × (after.active_sessions +ℤ pos n ≡ m.active_sessions)
  unfolding tick summarised
  tick_counts threshold_sec now_unix c m =
      let stale = list_stale now_unix threshold_sec c in
      ground (arith, metrics-sweep stale (started c m), sweeper_metrics-sweep stale (started c m))

-- Under a validated configuration with a turn timeout of at least 0, a tick leaves alone every
-- thread that was touched within the last five timeouts, whatever deletions fail: its row and its
-- checkpoint stay.
pub in_flight_safe :
    {saver : Saver} (faults : String → Fault) (cfg : Config) (timeout now_unix touched : ℕ)
    (c : TouchingCheckpointer saver) (m : Metrics) (thread_id : String)
    → validate cfg ≡ ok cfg
    → cfg.turn_timeout_sec ≡ pos timeout
    → IsKeyed c.meta
    → get_last_touched thread_id c ≡ some touched
    → now_unix ≤ touched + 5 * timeout
    → let after = (tick faults cfg.sweep_threshold_secs now_unix c m).checkpointer in
      (get_last_touched thread_id after ≡ some touched)
      × (saver.aget_tuple thread_id after.inner ≡ saver.aget_tuple thread_id c.inner)
unfolding validate
in_flight_safe faults cfg timeout now_unix touched c m thread_id valid long keyed row recent =
    ground (
      arith,
      -ℤ_parts (pos now_unix) cfg.sweep_threshold_secs,
      scale_parts 5 cfg.turn_timeout_sec,
      tick_evicts faults cfg.sweep_threshold_secs now_unix c m thread_id keyed,
    )
