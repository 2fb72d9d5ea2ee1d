-- ===== src/Server/Saver.antt =====
-- server/checkpoint_factory.py, TouchingCheckpointer: a saver of LangGraph with a table beside it of
-- when each thread was last used. Methods that only delegate (get, put, list, alist) and those that
-- open the database are left out.
pub mod Plain
use decision_maker_flow.Prelude.{
  ℕ, ◌≡◌, String, Bool, true, false, Option, none, some, List, str_eq, if◌then◌else◌,
}
use decision_maker_flow.Prelude.Int.{ℤ, pos, ◌-ℤ◌, ltb_ℤ}
use decision_maker_flow.Table.{Rows, select, delete, upsert, keys_where}
use decision_maker_flow.Json.{Json, obj, end, truthy, get, get_or}
use decision_maker_flow.Agent.Engine.{Checkpoint}

-- LangGraph's AsyncSqliteSaver, of which the repository calls these operations: a thread's latest
-- checkpoint, a new one, the pending writes of a task, which are not part of it, and the two DELETEs
-- on its tables.
pub record Saver : Type 1 where
  pub State : Type 0
  pub aget_tuple : String → State → Option Checkpoint
  pub aput : String → Checkpoint → State → State
  pub aput_writes : String → State → State
  pub delete_checkpoints : String → State → State
  pub delete_writes : String → State → State
  pub aget_tuple-aput :
      (k j : String) (c : Checkpoint) (s : State)
      → aget_tuple j (aput k c s) ≡ (if str_eq k j then some c else aget_tuple j s)
  pub aget_tuple-aput_writes :
      (k j : String) (s : State) → aget_tuple j (aput_writes k s) ≡ aget_tuple j s
  pub aget_tuple-delete_checkpoints :
      (k j : String) (s : State)
      → aget_tuple j (delete_checkpoints k s) ≡ (if str_eq k j then none else aget_tuple j s)
  pub delete_writes_other :
      (k j : String) (s : State)
      → str_eq k j ≡ false
      → aget_tuple j (delete_writes k s) ≡ aget_tuple j s
  pub delete_writes_missing :
      (k j : String) (s : State) → aget_tuple j s ≡ none → aget_tuple j (delete_writes k s) ≡ none

-- `self._inner`, and the rows of `_brainstorm_meta`: thread_id and last_touched.
pub record TouchingCheckpointer (saver : Saver) : Type 0 where
  pub inner : saver.State
  pub meta : Rows ℕ

-- Where the database fails during `adelete_thread`: nowhere, or at one of its four statements.
pub data Fault : Type 0 where
  no_fault : Fault
  at_checkpoints : Fault
  at_writes : Fault
  at_meta : Fault
  at_commit : Fault

-- WHERE last_touched < now - threshold
abbrev pub is_stale : (now : ℕ) (threshold_sec : ℤ) (last_touched : ℕ) → Bool
is_stale now threshold_sec last_touched = ltb_ℤ (pos last_touched) (pos now -ℤ threshold_sec)

-- `v or None`
abbrev if_truthy : Json → Option Json
if_truthy v = if truthy v then some v else none

abbrev thread_id_in : Json → Option Json
thread_id_in (obj configurable) = if_truthy (get "thread_id" configurable)
thread_id_in _ = none

-- `_extract_thread_id` of a config as it reaches LangGraph's savers, a dict.
unfoldable pub extract_thread_id : Json → Option Json
extract_thread_id (obj config) = thread_id_in (get_or "configurable" config (obj end))
extract_thread_id _ = none

module _ {saver : Saver} where
  -- `now` is int(time.time()).
  unfoldable pub touch :
      (now : ℕ) (thread_id : String) → TouchingCheckpointer saver → TouchingCheckpointer saver
  touch now thread_id c = record c { meta = upsert thread_id now c.meta }

  -- `_extract_thread_id` and the test of its result: the empty id touches nothing.
  unfoldable pub touch_config :
      (now : ℕ) (thread_id : String) → TouchingCheckpointer saver → TouchingCheckpointer saver
  unfolding touch
  touch_config now thread_id c =
      let touched = touch now thread_id c in if str_eq thread_id "" then c else touched

  unfoldable pub aget_tuple :
      (now : ℕ) (thread_id : String)
      → TouchingCheckpointer saver
      → Option Checkpoint × TouchingCheckpointer saver
  unfolding touch_config
  aget_tuple now thread_id c = (saver.aget_tuple thread_id c.inner, touch_config now thread_id c)

  unfoldable pub aput :
      (now : ℕ) (thread_id : String)
      → Checkpoint
      → TouchingCheckpointer saver
      → TouchingCheckpointer saver
  unfolding touch_config
  aput now thread_id checkpoint c =
      touch_config now thread_id (record c { inner = saver.aput thread_id checkpoint c.inner })

  -- The checkpoint of the tuple.
  unfoldable pub aget :
      (now : ℕ) (thread_id : String)
      → TouchingCheckpointer saver
      → Option Checkpoint × TouchingCheckpointer saver
  unfolding touch_config
  aget now thread_id c = (saver.aget_tuple thread_id c.inner, touch_config now thread_id c)

  unfoldable pub aput_writes :
      (now : ℕ) (thread_id : String) → TouchingCheckpointer saver → TouchingCheckpointer saver
  unfolding touch_config
  aput_writes now thread_id c =
      touch_config now thread_id (record c { inner = saver.aput_writes thread_id c.inner })

  unfoldable pub get_last_touched : String → TouchingCheckpointer saver → Option ℕ
  unfolding select
  get_last_touched thread_id c = select thread_id c.meta

  unfoldable pub list_stale :
      (now_unix : ℕ) (threshold_sec : ℤ) → TouchingCheckpointer saver → List String
  unfolding keys_where
  list_stale now_unix threshold_sec c = keys_where (is_stale now_unix threshold_sec) c.meta

  -- Whether it returned, and the tables as the open connection sees them: what ran before a
  -- failure is not rolled back.
  unfoldable pub adelete_thread :
      Fault → String → TouchingCheckpointer saver → Bool × TouchingCheckpointer saver
  unfolding delete
  adelete_thread at_checkpoints thread_id c = (false, c)
  adelete_thread at_writes thread_id c =
      (false, record c { inner = saver.delete_checkpoints thread_id c.inner })
  adelete_thread at_meta thread_id c = (
    false,
    record c { inner = saver.delete_writes thread_id (saver.delete_checkpoints thread_id c.inner) },
  )
  adelete_thread at_commit thread_id c = (
    false,
    record {
      inner = saver.delete_writes thread_id (saver.delete_checkpoints thread_id c.inner);
      meta = delete thread_id c.meta;
    },
  )
  adelete_thread no_fault thread_id c = (
    true,
    record {
      inner = saver.delete_writes thread_id (saver.delete_checkpoints thread_id c.inner);
      meta = delete thread_id c.meta;
    },
  )
