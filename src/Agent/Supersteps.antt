-- ===== src/Agent/Supersteps.antt =====
-- One superstep of the graph of graph.py, node by node: what it writes and where it leads.
use decision_maker_flow.Prelude.{◌≡◌, some, none, ok, arith, ◌⊎◌, inl, inr, Outcome-cases}
use decision_maker_flow.Json.{Fields}
use decision_maker_flow.Agent.State.{AgentState}
use decision_maker_flow.Agent.Env.{Env}
use decision_maker_flow.Agent.Nodes.{
  merge, audit, cove_critique, draft_generator, weight_parser, weighing,
}
use decision_maker_flow.Agent.Graph.{
  Node, analyzer, searcher, questioner, parser, drafter, critic, synthesizer, Graph, build_graph,
  Step, successor, superstep, after_context,
}
use decision_maker_flow.Agent.Critique.{after_audit, superstep-critic}

-- The parts of a superstep that succeeds.
pub record Parts (g : Graph) (env : Env) (n : Node) (s : AgentState) (t : Step) : Type 0 where
  pub acted : g.action n env s ≡ ok t.delta
  pub routed : successor (g.edge n) (merge t.delta s) ≡ ok t.next
  pub merged : t.values ≡ merge t.delta s

pub superstep_taken :
    (g : Graph) (env : Env) (n : Node) (s : AgentState) {t : Step}
    → superstep g env n s ≡ ok t
    → Parts g env n s t
unfolding superstep
superstep_taken g env n s h = ground arith

-- Node 4 keeps the count and leads to node 5.
pub superstep-drafter :
    (env : Env) (s : AgentState) {t : Step}
    → superstep build_graph env drafter s ≡ ok t
    → (t.next ≡ some critic) × (t.values.rewrite_count ≡ s.rewrite_count)
unfolding superstep build_graph draft_generator merge
superstep-drafter env s h = ground arith

pub superstep-parser :
    (env : Env) (s : AgentState) {t : Step}
    → superstep build_graph env parser s ≡ ok t
    → (t.next ≡ some drafter) × (t.values.rewrite_count ≡ s.rewrite_count)
unfolding superstep build_graph weight_parser weighing merge
superstep-parser env s h = ground arith

pub superstep-synthesizer :
    (env : Env) (s : AgentState) {t : Step}
    → superstep build_graph env synthesizer s ≡ ok t
    → t.next ≡ none
unfolding superstep build_graph
superstep-synthesizer env s h = ground arith

pub superstep-searcher :
    (env : Env) (s : AgentState) {t : Step}
    → superstep build_graph env searcher s ≡ ok t
    → t.next ≡ some analyzer
unfolding superstep build_graph
superstep-searcher env s h = ground arith

pub superstep-questioner :
    (env : Env) (s : AgentState) {t : Step}
    → superstep build_graph env questioner s ≡ ok t
    → t.next ≡ some parser
unfolding superstep build_graph
superstep-questioner env s h = ground arith

-- Node 1 leads to node 2 or node 3.
pub superstep-analyzer :
    (env : Env) (s : AgentState) {t : Step}
    → superstep build_graph env analyzer s ≡ ok t
    → (t.next ≡ some searcher) ⊎ (t.next ≡ some questioner)
unfolding superstep build_graph after_context
superstep-analyzer env s h = ground arith

-- Node 5 succeeds only with a parsed audit.
pub superstep-critic_inv :
    (env : Env) (s : AgentState) {t : Step}
    → superstep build_graph env critic s ≡ ok t
    → (parsed : Fields) × (audit env s ≡ ok parsed) × (t ≡ after_audit s parsed)
superstep-critic_inv env s {t} h = elim (Outcome-cases (audit env s)) [
  | inl (parsed, p) ↦ (parsed, p, cc (superstep-critic env s p))
  | inr (e, p) ↦ unfold superstep build_graph cove_critique in ground arith
]
