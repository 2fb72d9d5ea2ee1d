-- ===== src/Ui/Events.antt =====
-- src/ui/controllers.py: the events that the controllers emit, and the dict of a node's partial
-- state as they carry it.
use decision_maker_flow.Prelude.{String, Option, none, some, List, [], ◌∷◌}
use decision_maker_flow.Prelude.Int.{pos}
use decision_maker_flow.Json.{Json, str, bool, int, arr, obj, Items, nil, cons, Fields, end, field}
use decision_maker_flow.Agent.State.{Fact}
use decision_maker_flow.Agent.Nodes.{
  Delta, analyzed, searched, questioned, weighed, drafted, critiqued, synthesized,
}
use decision_maker_flow.Agent.Graph.{
  Node, analyzer, searcher, questioner, parser, drafter, critic, synthesizer,
}

-- `UIEvent`, by its `kind`; `other` is any kind that `render` does not know.
pub data UiEvent : Type 0 where
  session_started : (thread_id : String) → UiEvent
  node_started : (node thread_id : String) → UiEvent
  node_completed : (node : String) (state_delta : Fields) (thread_id : String) → UiEvent
  state_snapshot : (node : String) (snapshot : Fields) (thread_id : String) → UiEvent
  cove_rewrite : (critique_feedback : Json) (thread_id : String) → UiEvent
  awaiting_user : (question : Json) (thread_id : String) → UiEvent
  resume_started : (thread_id : String) → UiEvent
  final_answer : (answer thread_id : String) → UiEvent
  error : (error_message thread_id : String) → UiEvent
  other : (kind : String) → UiEvent

-- The names that `add_node` gives the nodes.
unfoldable pub node_id : Node → String
node_id analyzer = "1_Context_Analyzer"
node_id searcher = "2_Tool_Node"
node_id questioner = "3_Weight_Questioner"
node_id parser = "3.5_Weight_Parser"
node_id drafter = "4_Draft_Generator"
node_id critic = "5_CoVe_Critique"
node_id synthesizer = "6_Final_Synthesizer"

abbrev fact_dict : Fact → Json
fact_dict f = obj (field "query" f.query (field "result" f.result (field "source" f.source end)))

abbrev fact_dicts : List Fact → Items
fact_dicts [] = nil
fact_dicts (f ∷ fs) = cons (fact_dict f) (fact_dicts fs)

abbrev assumption_field : Option Json → Fields
assumption_field none = end
assumption_field (some a) = field "assumptions" a end

-- The dict that a node returns.
unfoldable pub delta_dict : Delta → Fields
delta_dict (analyzed d b q) =
    field "dilemma" d (field "is_data_sufficient" (bool b) (field "search_queries" q end))
delta_dict (searched fs) = field "tool_facts" (arr (fact_dicts fs)) end
delta_dict (questioned q) = field "last_question" q end
delta_dict (weighed w a) = field "weights" w (assumption_field a)
delta_dict (drafted d) = field "draft_analysis" (str d) end
delta_dict (critiqued c n) = field "critique_feedback" c (field "rewrite_count" (int (pos n)) end)
delta_dict (synthesized a) = field "final_answer" (str a) end
