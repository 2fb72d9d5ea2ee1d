-- ===== src/Agent/Engine.antt =====
-- What LangGraph documents of a run of a compiled graph over a checkpointed thread. The engine is
-- not in the repository: an `Engine` is any function whose runs are `Leg`s of the graph.
pub mod Executor
use decision_maker_flow.Prelude.{
  ◌≡◌, Bool, true, false, ◌&&◌, Option, none, some, List, [], ◌∷◌, Outcome, ok, raised,
}
use decision_maker_flow.Agent.State.{AgentState}
use decision_maker_flow.Agent.Env.{AgentError, Env}
use decision_maker_flow.Agent.Nodes.{Delta}
use decision_maker_flow.Agent.Graph.{Node, Graph, build_graph, Step, superstep}

-- The saved state of a thread, and the node that runs next, `none` after END.
pub record Checkpoint : Type 0 where
  pub values : AgentState
  pub next : Option Node

-- Why a run stops early: a node or router raised, or the engine stopped it between two
-- supersteps (its recursion limit, a cancellation, or a failure of the saver).
pub data Failure : Type 0 where
  agent : AgentError → Failure
  stopped : Failure

-- `{node_id: state_delta}`, as `stream_mode="updates"` yields it.
pub record Chunk : Type 0 where
  pub node : Node
  pub delta : Delta

pub record Run : Type 0 where
  pub chunks : List Chunk
  pub checkpoint : Checkpoint
  pub failure : Option Failure

abbrev pub is_some {ℓ} : {A : Type ℓ} → Option A → Bool
is_some none = false
is_some (some a) = true

-- `interrupt_after` holds a thread that has a node left to run.
abbrev pub pauses : Graph → Node → Option Node → Bool
pauses g n next = g.interrupt_after n && is_some next

-- The runs from a node and a state, one superstep at a time. Each superstep meets a world of its
-- own, which satisfies `P`.
pub data Leg (g : Graph) (P : Env → Type 0) : Option Node → AgentState → Run → Type 0 where
  at_end :
      {s : AgentState}
      → Leg g P none s
          (record { chunks = []; checkpoint = record { values = s; next = none }; failure = none })
  stop :
      {n : Node} {s : AgentState}
      → Leg g P (some n) s (record {
        chunks = [];
        checkpoint = record { values = s; next = some n };
        failure = some stopped;
      })
  fail :
      {n : Node} {s : AgentState} (env : Env) {e : AgentError}
      → P env
      → superstep g env n s ≡ raised e
      → Leg g P (some n) s (record {
        chunks = [];
        checkpoint = record { values = s; next = some n };
        failure = some (agent e);
      })
  pause :
      {n : Node} {s : AgentState} (env : Env) {t : Step}
      → P env
      → superstep g env n s ≡ ok t
      → pauses g n t.next ≡ true
      → Leg g P (some n) s (record {
        chunks = record { node = n; delta = t.delta } ∷ [];
        checkpoint = record { values = t.values; next = t.next };
        failure = none;
      })
  proceed :
      {n : Node} {s : AgentState} (env : Env) {t : Step} {r : Run}
      → P env
      → superstep g env n s ≡ ok t
      → pauses g n t.next ≡ false
      → Leg g P t.next t.values r
      → Leg g P (some n) s (record r { chunks = record { node = n; delta = t.delta } ∷ r.chunks })

abbrev pub AnyEnv : Env → Type 0
AnyEnv env = Unit

-- `astream` of the compiled graph on a thread with this checkpoint. `aupdate_state` and the input
-- of a new leg have already been merged into it.
pub record Engine : Type 0 where
  pub astream : Checkpoint → Run
  pub follows : (c : Checkpoint) → Leg build_graph AnyEnv c.next c.values (astream c)
