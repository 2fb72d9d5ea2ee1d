-- ===== src/Agent/Graph.antt =====
-- src/features/decision_maker/graph.py, `build_graph`: the nodes and edges as data, and what one
-- superstep of such a graph does.
use decision_maker_flow.Prelude.{Bool, true, false, Option, none, some, Outcome, ok, ◌>>=◌}
use decision_maker_flow.Json.{null}
use decision_maker_flow.Agent.State.{AgentState}
use decision_maker_flow.Agent.Env.{AgentError, Env}
use decision_maker_flow.Agent.Nodes.{
  Delta, merge, context_analyzer, tool_node, weight_questioner, weight_parser, draft_generator,
  cove_critique, final_synthesizer,
}
use decision_maker_flow.Agent.Routing.{
  ContextRoute, CritiqueRoute, route_from_context, route_from_critique,
}

-- "1_Context_Analyzer", "2_Tool_Node", "3_Weight_Questioner", "3.5_Weight_Parser",
-- "4_Draft_Generator", "5_CoVe_Critique" and "6_Final_Synthesizer".
pub data Node : Type 0 where
  analyzer searcher questioner parser drafter critic synthesizer : Node

pub Node-discrete : Discrete Node
Node-discrete = hlevel

-- `add_edge` to a node, `add_conditional_edges`, and `add_edge` to END.
pub data Edge : Type 0 where
  goto : Node → Edge
  conditional : (AgentState → Outcome AgentError Node) → Edge
  finish : Edge

pub record Graph : Type 0 where
  pub entry : Node
  pub action : Node → Env → AgentState → Outcome AgentError Delta
  pub edge : Node → Edge
  pub interrupt_after : Node → Bool

unfoldable pub actions : Node → Env → AgentState → Outcome AgentError Delta
actions analyzer = context_analyzer
actions searcher = tool_node
actions questioner = weight_questioner
actions parser = weight_parser
actions drafter = draft_generator
actions critic = cove_critique
actions synthesizer = final_synthesizer

abbrev context_target : ContextRoute → Node
context_target ContextRoute.tool = searcher
context_target ContextRoute.questioner = questioner

abbrev critique_target : CritiqueRoute → Node
critique_target CritiqueRoute.rewrite = drafter
critique_target CritiqueRoute.finalize = synthesizer

unfoldable pub after_context : AgentState → Outcome AgentError Node
after_context s = do route ← route_from_context null null s; ok (context_target route)

unfoldable pub after_critique : AgentState → Outcome AgentError Node
after_critique s = ok (critique_target (route_from_critique s))

unfoldable pub edges : Node → Edge
edges analyzer = conditional after_context
edges searcher = goto analyzer
edges questioner = goto parser
edges parser = goto drafter
edges drafter = goto critic
edges critic = conditional after_critique
edges synthesizer = finish

abbrev pub is_questioner : Node → Bool
is_questioner questioner = true
is_questioner _ = false

unfoldable pub build_graph : Graph
unfolding actions edges
build_graph = record {
  entry = analyzer;
  action = actions;
  edge = edges;
  interrupt_after = is_questioner;
}

-- The node that an edge leads to from the merged state; `none` is END.
unfoldable pub successor : Edge → AgentState → Outcome AgentError (Option Node)
successor (goto n) s = ok (some n)
successor (conditional route) s = do n ← route s; ok (some n)
successor finish s = ok none

pub record Step : Type 0 where
  pub delta : Delta
  pub values : AgentState
  pub next : Option Node

-- One node runs, its partial state is merged, and its edge is followed.
unfoldable pub superstep : Graph → Env → Node → AgentState → Outcome AgentError Step
unfolding successor
superstep g env n s = do
  delta ← g.action n env s
  next ← successor (g.edge n) (merge delta s)
  ok (record { delta = delta; values = merge delta s; next = next })
