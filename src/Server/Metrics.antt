-- ===== src/Server/Metrics.antt =====
-- server/metrics.py: the collectors, by their values. A histogram is the number of its
-- observations; the labels of turns_total, idempotent_hits_total
-- and readyz_checks_total are fields of their own.
pub mod Registry
pub mod Bundled
use decision_maker_flow.Prelude.{ℕ}
use decision_maker_flow.Prelude.Int.{ℤ, pos, ◌+ℤ◌, ◌-ℤ◌}

pub record Metrics : Type 0 where
  pub turns_running : ℕ
  pub turns_done : ℕ
  pub turn_duration_seconds : ℕ
  pub llm_roundtrip_seconds : ℕ
  pub active_sessions : ℤ
  pub done_total : ℕ
  pub idempotent_hits_header : ℕ
  pub idempotent_hits_internal : ℕ
  pub sweeper_runs_total : ℕ
  pub sweeper_deleted_total : ℕ
  pub readyz_ok : ℕ
  pub readyz_checkpointer_fail : ℕ
  pub readyz_llm_gateway_fail : ℕ

abbrev pub fresh : Metrics
fresh = record {
  turns_running = 0;
  turns_done = 0;
  turn_duration_seconds = 0;
  llm_roundtrip_seconds = 0;
  active_sessions = pos 0;
  done_total = 0;
  idempotent_hits_header = 0;
  idempotent_hits_internal = 0;
  sweeper_runs_total = 0;
  sweeper_deleted_total = 0;
  readyz_ok = 0;
  readyz_checkpointer_fail = 0;
  readyz_llm_gateway_fail = 0;
}

-- Gauge.inc() and Gauge.dec(): nothing keeps the value at 0 or more.
abbrev pub inc_sessions : Metrics → Metrics
inc_sessions m = record m { active_sessions = m.active_sessions +ℤ pos 1 }

abbrev pub dec_sessions : Metrics → Metrics
dec_sessions m = record m { active_sessions = m.active_sessions -ℤ pos 1 }
