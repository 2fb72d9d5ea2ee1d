-- ===== src/Agent/Nodes.antt =====
-- src/features/decision_maker/nodes.py: the seven nodes. A node returns the partial state that the
-- graph merges, or raises; `llm_factory` and `search_fn` are None in the graph, as here.
use decision_maker_flow.Prelude.{
  ℕ, ◌+◌, String, Bool, true, false, not, Option, none, some, List, ◌++◌, Outcome, ok, ◌>>=◌,
  traverse, leb, if◌then◌else◌,
}
use decision_maker_flow.Json.{
  Json, str, bool, arr, obj, nil, end, Fields, truthy, or_default, get, get_or, iterate,
}
use decision_maker_flow.Core.LlmUtils.{sanitize_llm_response}
use decision_maker_flow.Core.JsonUtils.{safe_json_parse}
use decision_maker_flow.Agent.State.{Fact, AgentState}
use decision_maker_flow.Agent.Env.{
  AgentError, Prompt, context_analyzer_prompt, weight_questioner_prompt, weight_parser_prompt,
  draft_generator_prompt, cove_critique_prompt, final_synthesizer_prompt, Env, lift_type,
  lift_parse,
}
use decision_maker_flow.Agent.Tools.{search_async}
use mathlib.Core.List.{flatten}

-- The dict that a node returns, one shape for each node.
pub data Delta : Type 0 where
  analyzed : (dilemma : Json) (is_data_sufficient : Bool) (search_queries : Json) → Delta
  searched : (tool_facts : List Fact) → Delta
  questioned : (last_question : Json) → Delta
  weighed : (weights : Json) (assumptions : Option Json) → Delta
  drafted : (draft_analysis : String) → Delta
  critiqued : (critique_feedback : Json) (rewrite_count : ℕ) → Delta
  synthesized : (final_answer : String) → Delta

abbrev assume : Option Json → Json → Json
assume none old = old
assume (some new) old = new

-- Each key of the partial state replaces the one of the state.
unfoldable pub merge : Delta → AgentState → AgentState
merge (analyzed d b q) s = record s { dilemma = d; is_data_sufficient = b; search_queries = q }
merge (searched fs) s = record s { tool_facts = fs }
merge (questioned q) s = record s { last_question = q }
merge (weighed w a) s = record s { weights = w; assumptions = assume a s.assumptions }
merge (drafted d) s = record s { draft_analysis = d }
merge (critiqued c n) s = record s { critique_feedback = c; rewrite_count = n }
merge (synthesized a) s = record s { final_answer = a }

abbrev chosen_client :
    Option (Prompt → Outcome AgentError String)
    → (Prompt → Outcome AgentError String)
    → Prompt
    → Outcome AgentError String
chosen_client (some client) _ = client
chosen_client none built = built

-- The client of a node: the override, or the one that `build_llm` makes for the node's policy.
unfoldable pub resolve_llm : Env → Bool → Prompt → Outcome AgentError String
resolve_llm env reasoning = chosen_client env.override (env.build_llm reasoning)

unfoldable pub invoke_llm_async : Env → Bool → Prompt → Outcome AgentError String
unfolding resolve_llm
invoke_llm_async env reasoning prompt = do
  raw_response ← resolve_llm env reasoning prompt
  ok (sanitize_llm_response env.is_word raw_response)

-- The call and the `safe_json_parse` of its reply, as nodes 1, 3, 3.5 and 5 have them.
unfoldable pub invoke_json : Env → Bool → Prompt → Outcome AgentError Fields
invoke_json env reasoning prompt = do
  raw_response ← invoke_llm_async env reasoning prompt
  lift_parse (safe_json_parse env.is_word env.decoder raw_response)

-- The fields of the state that node 1 writes, from the parsed reply.
unfoldable pub analysis : Fields → Delta
analysis parsed =
    let needs_data = truthy (get_or "needs_data" parsed (bool false)) in
    analyzed (get_or "dilemma" parsed (str "")) (not needs_data)
      (if needs_data then get_or "search_queries" parsed (arr nil) else arr nil)

unfoldable pub context_analyzer : Env → AgentState → Outcome AgentError Delta
unfolding analysis
context_analyzer env state = do
  parsed ← invoke_json env false (context_analyzer_prompt state.user_input state.tool_facts)
  ok (analysis parsed)

unfoldable pub tool_node : Env → AgentState → Outcome AgentError Delta
tool_node env state = do
  queries ← lift_type (iterate (or_default state.search_queries (arr nil)))
  gathered_results ← traverse (search_async env) queries
  ok (searched (state.tool_facts ++ flatten gathered_results))

unfoldable pub weight_questioner : Env → AgentState → Outcome AgentError Delta
weight_questioner env state = do
  parsed ← invoke_json env false (
      weight_questioner_prompt state.user_input (or_default state.dilemma (str ""))
        state.tool_facts)
  ok (questioned (get_or "last_question" parsed (str "")))

-- What node 3.5 takes from the parsed reply; an empty `assumptions` leaves the old one.
unfoldable pub weighing : Fields → Delta
weighing parsed =
    let assumptions = or_default (get "assumptions" parsed) (str "") in
    weighed (or_default (get "weights" parsed) (obj end))
      (if truthy assumptions then some assumptions else none)

unfoldable pub weight_parser : Env → AgentState → Outcome AgentError Delta
unfolding weighing
weight_parser env state = do
  parsed ←
      invoke_json env false
        (weight_parser_prompt (or_default state.last_question (str "")) state.user_answer)
  ok (weighing parsed)

unfoldable pub draft_generator : Env → AgentState → Outcome AgentError Delta
draft_generator env state = do
  raw_response ← invoke_llm_async env true (
      draft_generator_prompt state.user_input (or_default state.dilemma (str ""))
        (or_default state.weights (obj end)) state.tool_facts
        (or_default state.critique_feedback (str "")))
  ok (drafted raw_response)

-- What node 5 makes of the audit: the cap of two overrides the model, and only a rewrite counts.
unfoldable pub judge : ℕ → Fields → Delta
judge current_rewrite_count parsed =
    let asked = truthy (get_or "needs_rewrite" parsed (bool false)) in
    let needs_rewrite = if leb 2 current_rewrite_count then false else asked in
    critiqued (or_default (get "critique_feedback" parsed) (str ""))
      (if needs_rewrite then current_rewrite_count + 1 else current_rewrite_count)

-- The audit that node 5 asks for.
unfoldable pub audit : Env → AgentState → Outcome AgentError Fields
audit env state = invoke_json env true (
    cove_critique_prompt state.user_input (or_default state.dilemma (str ""))
      (or_default state.weights (obj end)) state.tool_facts state.draft_analysis
      state.rewrite_count)

unfoldable pub cove_critique : Env → AgentState → Outcome AgentError Delta
unfolding judge
cove_critique env state = do parsed ← audit env state; ok (judge state.rewrite_count parsed)

unfoldable pub final_synthesizer : Env → AgentState → Outcome AgentError Delta
final_synthesizer env state = do
  raw_response ← invoke_llm_async env true (
      final_synthesizer_prompt state.draft_analysis state.user_input
        (or_default state.dilemma (str "")) (or_default state.weights (obj end)))
  ok (synthesized raw_response)
