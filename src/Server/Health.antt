-- ===== src/Server/Health.antt =====
-- server/turn_api.py: GET /readyz and GET /healthz.
use decision_maker_flow.Prelude.{
  ℕ, ◌+◌, String, Bool, true, false, Option, none, some, Outcome, ok, raised, ◌==◌, if◌then◌else◌,
}
use decision_maker_flow.Server.Metrics.{Metrics}

-- The status of a component in the body; `fail` carries `repr(exc)`.
pub data Check : Type 0 where
  passed unknown : Check
  fail : (err : String) → Check

-- "ready", or "not_ready" with status 503.
pub record Readiness : Type 0 where
  pub ready : Bool
  pub checkpointer : Check
  pub llm_gateway : Check

-- What the probe of the gateway meets: a response with its status, or an exception of httpx.
pub data Probe : Type 0 where
  responded : (status_code : ℕ) → Probe
  unreachable : (err : String) → Probe

-- The exception that a probe ends in, if it does. `refused` is the text of the ValueError for a
-- status other than 200.
abbrev pub probe_error : (refused : ℕ → String) → Probe → Option String
probe_error refused (responded status_code) =
    if status_code == 200 then none else some (refused status_code)
probe_error refused (unreachable err) = some err

abbrev gateway_checked : Option String → Metrics → Outcome Readiness Readiness × Metrics
gateway_checked none m = (
  ok (record { ready = true; checkpointer = passed; llm_gateway = passed }),
  record m { readyz_ok = m.readyz_ok + 1 },
)
gateway_checked (some err) m = (
  raised (record { ready = false; checkpointer = passed; llm_gateway = fail err }),
  record m { readyz_llm_gateway_fail = m.readyz_llm_gateway_fail + 1 },
)

-- `ping` is the exception of `checkpointer.ping()`, if it raises; the gateway is then not asked.
unfoldable pub handle_readyz :
    (refused : ℕ → String) (ping : Option String)
    → Probe
    → Metrics
    → Outcome Readiness Readiness × Metrics
handle_readyz refused (some err) probe m = (
  raised (record { ready = false; checkpointer = fail err; llm_gateway = unknown }),
  record m { readyz_checkpointer_fail = m.readyz_checkpointer_fail + 1 },
)
handle_readyz refused none probe m = gateway_checked (probe_error refused probe) m
