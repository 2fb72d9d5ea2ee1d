-- ===== src/Server/Deletion.antt =====
-- What one deletion of a thread leaves, wherever the database fails.
use decision_maker_flow.Prelude.{
  ◌≡◌, refl, String, Bool, true, false, ◌&&◌, none, arith, str_eq, if◌then◌else◌,
}
use decision_maker_flow.Table.{select, select-delete}
use decision_maker_flow.Server.Saver.{
  Saver, TouchingCheckpointer, Fault, no_fault, at_checkpoints, at_writes, at_meta, at_commit,
  adelete_thread,
}

-- How far a deletion gets before it fails.
abbrev pub drops_checkpoint : Fault → Bool
drops_checkpoint no_fault = true
drops_checkpoint at_checkpoints = false
drops_checkpoint at_writes = true
drops_checkpoint at_meta = true
drops_checkpoint at_commit = true

abbrev pub succeeds : Fault → Bool
succeeds no_fault = true
succeeds at_checkpoints = false
succeeds at_writes = false
succeeds at_meta = false
succeeds at_commit = false

abbrev pub drops_row : Fault → Bool
drops_row no_fault = true
drops_row at_checkpoints = false
drops_row at_writes = false
drops_row at_meta = false
drops_row at_commit = true

-- The two DELETEs of the saver, together.
inner_deletes :
    (saver : Saver) (k j : String) (s : saver.State)
    → saver.aget_tuple j (saver.delete_writes k (saver.delete_checkpoints k s))
      ≡ (if str_eq k j then none else saver.aget_tuple j s)
inner_deletes saver k j s = ground (
  arith,
  saver.aget_tuple-delete_checkpoints k j s,
  saver.delete_writes_other k j (saver.delete_checkpoints k s),
  saver.delete_writes_missing k j (saver.delete_checkpoints k s),
)

module _ {saver : Saver} where
  pub meta-adelete_thread :
      (f : Fault) (k j : String) (c : TouchingCheckpointer saver)
      → select j (adelete_thread f k c).1.meta
        ≡ (if str_eq k j && drops_row f then none else select j c.meta)
  unfolding adelete_thread
  meta-adelete_thread no_fault k j c = ground (arith, select-delete k j c.meta)
  meta-adelete_thread at_checkpoints k j c = ground arith
  meta-adelete_thread at_writes k j c = ground arith
  meta-adelete_thread at_meta k j c = ground arith
  meta-adelete_thread at_commit k j c = ground (arith, select-delete k j c.meta)

  pub inner-adelete_thread :
      (f : Fault) (k j : String) (c : TouchingCheckpointer saver)
      → saver.aget_tuple j (adelete_thread f k c).1.inner
        ≡ (if str_eq k j && drops_checkpoint f then none else saver.aget_tuple j c.inner)
  unfolding adelete_thread
  inner-adelete_thread no_fault k j c = ground (arith, inner_deletes saver k j c.inner)
  inner-adelete_thread at_checkpoints k j c = ground arith
  inner-adelete_thread at_writes k j c =
      ground (arith, saver.aget_tuple-delete_checkpoints k j c.inner)
  inner-adelete_thread at_meta k j c = ground (arith, inner_deletes saver k j c.inner)
  inner-adelete_thread at_commit k j c = ground (arith, inner_deletes saver k j c.inner)

  -- It returns exactly without a fault.
  pub adelete_thread_result :
      (f : Fault) (k : String) (c : TouchingCheckpointer saver)
      → (adelete_thread f k c).0 ≡ succeeds f
  unfolding adelete_thread
  adelete_thread_result no_fault k c = refl
  adelete_thread_result at_checkpoints k c = refl
  adelete_thread_result at_writes k c = refl
  adelete_thread_result at_meta k c = refl
  adelete_thread_result at_commit k c = refl
