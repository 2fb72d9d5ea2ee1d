-- ===== src/Server/Spared.antt =====
-- What the operations of the TouchingCheckpointer leave of the threads that they do not name.
use decision_maker_flow.Prelude.{
  ℕ, ◌≡◌, refl, ◌∙◌, inl, inr, String, false, arith, str_eq, Bool-cases,
}
use decision_maker_flow.Table.{select-upsert, IsKeyed, upsert-IsKeyed, delete-IsKeyed}
use decision_maker_flow.Agent.Engine.{Checkpoint}
use decision_maker_flow.Server.Saver.{
  Saver, TouchingCheckpointer, Fault, touch, touch_config, aput, get_last_touched, adelete_thread,
  no_fault, at_checkpoints, at_writes, at_meta, at_commit,
}
use decision_maker_flow.Server.Deletion.{meta-adelete_thread, inner-adelete_thread}

-- The row and the checkpoint of a thread stay, and no id gets a second row.
pub record Spared {saver : Saver} (t : String) (c d : TouchingCheckpointer saver) : Type 0 where
  pub row : get_last_touched t d ≡ get_last_touched t c
  pub saved : saver.aget_tuple t d.inner ≡ saver.aget_tuple t c.inner
  pub keyed : IsKeyed c.meta → IsKeyed d.meta

module _ {saver : Saver} (t : String) where
  pub Spared-refl : (c : TouchingCheckpointer saver) → Spared t c c
  Spared-refl c = record { row = refl; saved = refl; keyed = λ k. k }

  pub Spared-trans :
      {c d e : TouchingCheckpointer saver} → Spared t c d → Spared t d e → Spared t c e
  Spared-trans a b = record {
    row = b.row ∙ a.row;
    saved = b.saved ∙ a.saved;
    keyed = λ k. b.keyed (a.keyed k);
  }

  pub touch_config-Spared :
      (now : ℕ) (k : String) (c : TouchingCheckpointer saver)
      → str_eq k t ≡ false
      → Spared t c (touch_config now k c)
  unfolding touch_config touch get_last_touched
  touch_config-Spared now k c other = elim (Bool-cases (str_eq k "")) [
    | inl e ↦ rw e (Spared-refl c)
    | inr e ↦ rw e (record {
      row = ground (arith, select-upsert k t now c.meta);
      saved = refl;
      keyed = upsert-IsKeyed k now c.meta;
    })
  ]

  pub aput-Spared :
      (now : ℕ) (k : String) (checkpoint : Checkpoint) (c : TouchingCheckpointer saver)
      → str_eq k t ≡ false
      → Spared t c (aput now k checkpoint c)
  unfolding aput get_last_touched
  aput-Spared now k checkpoint c other =
      let written = record c { inner = saver.aput k checkpoint c.inner } in
      Spared-trans
        (record {
          row = refl;
          saved = ground (arith, saver.aget_tuple-aput k t checkpoint c.inner);
          keyed = λ k. k;
        })
        (touch_config-Spared now k written other)

  pub adelete_thread_IsKeyed :
      (f : Fault) (k : String) (c : TouchingCheckpointer saver)
      → IsKeyed c.meta
      → IsKeyed (adelete_thread f k c).1.meta
  unfolding adelete_thread
  adelete_thread_IsKeyed no_fault k c h = delete-IsKeyed k c.meta h
  adelete_thread_IsKeyed at_checkpoints k c h = h
  adelete_thread_IsKeyed at_writes k c h = h
  adelete_thread_IsKeyed at_meta k c h = h
  adelete_thread_IsKeyed at_commit k c h = delete-IsKeyed k c.meta h

  pub adelete_thread-Spared :
      (f : Fault) (k : String) (c : TouchingCheckpointer saver)
      → str_eq k t ≡ false
      → Spared t c (adelete_thread f k c).1
  unfolding get_last_touched
  adelete_thread-Spared f k c other = record {
    row = ground (arith, meta-adelete_thread f k t c);
    saved = ground (arith, inner-adelete_thread f k t c);
    keyed = adelete_thread_IsKeyed f k c;
  }
