-- ===== src/Agent/Engine/Executor.antt =====
-- A concrete engine: supersteps in order up to a recursion limit. It shows that the documented
-- behaviour can be met, and gives runs to instantiate theorems with.
use decision_maker_flow.Prelude.{
  ℕ, zero, suc, ◌≡◌, true, false, Bool-cases, inl, inr, Option, none, some, [], ◌∷◌, ok, raised,
  Outcome-cases,
}
use mathlib.Core.Path.{subst, sym}
use decision_maker_flow.Agent.State.{AgentState}
use decision_maker_flow.Agent.Env.{AgentError, Env}
use decision_maker_flow.Agent.Graph.{Node, Graph, build_graph, Step, superstep}
use decision_maker_flow.Agent.Engine.{
  Failure, agent, stopped, Run, pauses, Leg, at_end, stop, fail, pause, proceed, AnyEnv, Engine,
}

abbrev pub prepend : Node → Step → Run → Run
prepend n t r = record r { chunks = record { node = n; delta = t.delta } ∷ r.chunks }

abbrev pub halted : Node → Step → Run
halted n t = record {
  chunks = record { node = n; delta = t.delta } ∷ [];
  checkpoint = record { values = t.values; next = t.next };
  failure = none;
}

abbrev pub stuck : Node → AgentState → Failure → Run
stuck n s f = record {
  chunks = [];
  checkpoint = record { values = s; next = some n };
  failure = some f;
}

-- `world k` is what a superstep meets with k more to go.
unfoldable pub execute : Graph → (ℕ → Env) → ℕ → Option Node → AgentState → Run
execute g world fuel none s = record {
  chunks = [];
  checkpoint = record { values = s; next = none };
  failure = none;
}
execute g world zero (some n) s = stuck n s stopped
execute g world (suc fuel) (some n) s = elim (superstep g (world fuel) n s) [
  | raised e ↦ stuck n s (agent e)
  | ok t ↦ elim (pauses g n t.next) [
    | true ↦ halted n t
    | false ↦ prepend n t (execute g world fuel t.next t.values)
  ]
]

module _ (g : Graph) (world : ℕ → Env) where
  pub execute_raised :
      (fuel : ℕ) (n : Node) (s : AgentState) {e : AgentError}
      → superstep g (world fuel) n s ≡ raised e
      → execute g world (suc fuel) (some n) s ≡ stuck n s (agent e)
  unfolding execute
  execute_raised fuel n s h = rw (h, execute)

  pub execute_pause :
      (fuel : ℕ) (n : Node) (s : AgentState) {t : Step}
      → superstep g (world fuel) n s ≡ ok t
      → pauses g n t.next ≡ true
      → execute g world (suc fuel) (some n) s ≡ halted n t
  unfolding execute
  execute_pause fuel n s h p = rw (h, p, execute)

  pub execute_proceed :
      (fuel : ℕ) (n : Node) (s : AgentState) {t : Step}
      → superstep g (world fuel) n s ≡ ok t
      → pauses g n t.next ≡ false
      → execute g world (suc fuel) (some n) s ≡ prepend n t (execute g world fuel t.next t.values)
  unfolding execute
  execute_proceed fuel n s h p = rw (h, p, execute)

  module _ (P : Env → Type 0) (allowed : (k : ℕ) → P (world k)) where
    pub execute-Leg :
        (fuel : ℕ) (n : Option Node) (s : AgentState) → Leg g P n s (execute g world fuel n s)
    unfolding execute
    execute-Leg zero none s = at_end
    execute-Leg (suc fuel) none s = at_end
    execute-Leg zero (some n) s = stop
    execute-Leg (suc fuel) (some n) s = elim (Outcome-cases (superstep g (world fuel) n s)) [
      | inr (e, h) ↦
          subst (Leg g P (some n) s) (sym (execute_raised fuel n s h))
            (fail (world fuel) (allowed fuel) h)
      | inl (t, h) ↦ elim (Bool-cases (pauses g n t.next)) [
        | inl p ↦
            subst (Leg g P (some n) s) (sym (execute_pause fuel n s h p))
              (pause (world fuel) (allowed fuel) h p)
        | inr p ↦
            subst (Leg g P (some n) s) (sym (execute_proceed fuel n s h p))
              (proceed (world fuel) (allowed fuel) h p (execute-Leg fuel t.next t.values))
      ]
    ]

-- The executor with a recursion limit is an engine.
unfoldable pub executor : (ℕ → Env) → ℕ → Engine
unfolding execute
executor world limit = record {
  astream = λ c. execute build_graph world limit c.next c.values;
  follows = λ c. execute-Leg build_graph world AnyEnv (λ k. tt) limit c.next c.values;
}
