-- ===== src/Server/Saver/Plain.antt =====
-- A concrete saver, one row for each thread. It shows that what is asked of AsyncSqliteSaver can be
-- met, and gives states to instantiate theorems with.
use decision_maker_flow.Prelude.{refl}
use decision_maker_flow.Table.{Rows, select, delete, upsert, select-upsert, select-delete}
use decision_maker_flow.Agent.Engine.{Checkpoint}
use decision_maker_flow.Server.Saver.{Saver}

unfoldable pub plain : Saver
unfolding select delete upsert
plain = record {
  State = Rows Checkpoint;
  aget_tuple = select;
  aput = upsert;
  aput_writes = λ k s. s;
  delete_checkpoints = delete;
  delete_writes = λ k s. s;
  aget_tuple-aput = select-upsert;
  aget_tuple-aput_writes = λ k j s. refl;
  aget_tuple-delete_checkpoints = select-delete;
  delete_writes_other = λ k j s h. refl;
  delete_writes_missing = λ k j s h. h;
}
