-- ===== src/Agent/Convergence.antt =====
-- The second leg of graph.py ends: how many supersteps it takes.
use decision_maker_flow.Prelude.{
  ℕ, zero, suc, ◌≤◌, ◌<◌, ◌≡◌, refl, false, Option, none, some, ok, arith,
}
use decision_maker_flow.Json.{Fields}
use decision_maker_flow.Agent.State.{AgentState}
use decision_maker_flow.Agent.Env.{Env}
use decision_maker_flow.Agent.Nodes.{
  Delta, merge, audit, weight_parser, draft_generator, final_synthesizer,
}
use decision_maker_flow.Agent.Graph.{
  Node, parser, drafter, critic, synthesizer, build_graph, Step, superstep,
}
use decision_maker_flow.Agent.Critique.{after_audit, superstep-critic}
use decision_maker_flow.Agent.Supersteps.{
  superstep-drafter, superstep-parser, superstep-synthesizer, superstep-critic_inv,
}
use decision_maker_flow.Agent.Engine.Executor.{execute, execute_proceed}
use decision_maker_flow.Agent.RewriteLoop.{IsConsistent}
use decision_maker_flow.Agent.Legs.{is_gathering, on_gathering, settling_next}

-- Every call of the model after the answer returns, and its JSON is parsed.
pub record Answers (env : Env) : Type 0 where
  pub parsing : (s : AgentState) → (d : Delta) × (weight_parser env s ≡ ok d)
  pub drafting : (s : AgentState) → (d : Delta) × (draft_generator env s ≡ ok d)
  pub auditing : (s : AgentState) → (parsed : Fields) × (audit env s ≡ ok parsed)
  pub closing : (s : AgentState) → (d : Delta) × (final_synthesizer env s ≡ ok d)

-- The supersteps that are left at most, with `c` rewrites counted.
unfoldable pub steps_left : Option Node → ℕ → ℕ
steps_left (some parser) zero = 6
steps_left (some parser) (suc c) = 4
steps_left (some drafter) zero = 5
steps_left (some drafter) (suc c) = 3
steps_left (some critic) zero = 4
steps_left (some critic) (suc c) = 2
steps_left (some synthesizer) c = 1
steps_left _ c = 0

steps_fall :
    (env : Env) (n : Node) (s : AgentState) {t : Step}
    → is_gathering n ≡ false
    → IsConsistent env
    → superstep build_graph env n s ≡ ok t
    → steps_left t.next t.values.rewrite_count < steps_left (some n) s.rewrite_count
unfolding steps_left
steps_fall env parser s g con h = ground (arith, superstep-parser env s h)
steps_fall env drafter s g con h = ground (arith, superstep-drafter env s h)
steps_fall env critic s g con h =
    let (parsed, a, e) = superstep-critic_inv env s h in ground (arith, con s parsed a)
steps_fall env synthesizer s g con h = ground (arith, superstep-synthesizer env s h)
steps_fall env _ s g con h = cc

goes_on :
    (env : Env) (n : Node) (s : AgentState)
    → is_gathering n ≡ false
    → Answers env
    → (t : Step) × (superstep build_graph env n s ≡ ok t)
unfolding superstep build_graph
goes_on env parser s g a =
    let (d, e) = a.parsing s in
    (record { delta = d; values = merge d s; next = some drafter }, rw e)
goes_on env drafter s g a =
    let (d, e) = a.drafting s in
    (record { delta = d; values = merge d s; next = some critic }, rw e)
goes_on env critic s g a = let (d, e) = a.auditing s in (after_audit s d, superstep-critic env s e)
goes_on env synthesizer s g a =
    let (d, e) = a.closing s in (record { delta = d; values = merge d s; next = none }, rw e)
goes_on env _ s g a = absurd (cc)

module _ (world : ℕ → Env) (answers : (k : ℕ) → Answers (world k))
    (consistent : (k : ℕ) → IsConsistent (world k)) where
  -- If every call is answered and the auditor is consistent, a run from the other nodes that is
  -- given the supersteps that `steps_left` counts, six at most, does not fail and reaches the end.
  pub converges :
      (fuel : ℕ) (n : Option Node) (s : AgentState)
      → on_gathering n ≡ false
      → steps_left n s.rewrite_count ≤ fuel
      → ((execute build_graph world fuel n s).failure ≡ none)
        × ((execute build_graph world fuel n s).checkpoint.next ≡ none)
  unfolding execute
  converges zero none s g h = (refl, refl)
  converges (suc fuel) none s g h = (refl, refl)
  converges zero (some n) s g h =
      let (t, e) = goes_on (world 0) n s g (answers 0) in
      absurd (omega (arith, steps_fall (world 0) n s g (consistent 0) e))
  converges (suc fuel) (some n) s g h =
      let (t, e) = goes_on (world fuel) n s g (answers fuel) in
      let (goes, stays) = settling_next (world fuel) n s g e in
      let ih =
        converges fuel t.next t.values stays
          (omega (arith, steps_fall (world fuel) n s g (consistent fuel) e)) in
      rw (execute_proceed build_graph world fuel n s e goes) ih
