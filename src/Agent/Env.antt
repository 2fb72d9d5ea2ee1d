-- ===== src/Agent/Env.antt =====
-- What the nodes call that they do not implement, and the exceptions that reach the graph.
use decision_maker_flow.Prelude.{ℕ, String, Bool, Option, List, Outcome, ok, raised}
use decision_maker_flow.Json.{Json, TypeError}
use decision_maker_flow.Core.JsonUtils.{Decoder, ParseError}
use decision_maker_flow.Agent.State.{Fact}

pub data AgentError : Type 0 where
  json_parse_error : (raw_snippet : String) → AgentError
  recursion_error : AgentError
  double_true_error : AgentError
  type_error : TypeError → AgentError
  attribute_error : AgentError
  llm_error : AgentError
  search_error : AgentError

-- The messages of one call: the template of prompts.py that is formatted, with its arguments.
pub data Prompt : Type 0 where
  context_analyzer_prompt : (user_input : String) (tool_facts : List Fact) → Prompt
  weight_questioner_prompt :
      (user_input : String) (dilemma : Json) (tool_facts : List Fact) → Prompt
  weight_parser_prompt : (last_question : Json) (user_answer : String) → Prompt
  draft_generator_prompt :
      (user_input : String) (dilemma weights : Json) (tool_facts : List Fact)
      (critique_feedback : Json)
      → Prompt
  cove_critique_prompt :
      (user_input : String) (dilemma weights : Json) (tool_facts : List Fact)
      (draft_analysis : String) (rewrite_count : ℕ)
      → Prompt
  final_synthesizer_prompt : (verified_draft user_input : String) (dilemma weights : Json) → Prompt

-- A chat model, by what `ainvoke` returns for the messages of one call.
abbrev pub Client : Type 0
Client = Prompt → Outcome AgentError String

-- The world as one superstep meets it: a reply may differ from step to step. `override` is the
-- global `_LLM_CLIENT_OVERRIDE`; `is_word` and `decoder` are Python's `\w` and `json`.
pub record Env : Type 0 where
  pub override : Option Client
  pub build_llm : (reasoning_enabled : Bool) → Client
  pub tavily_key : String
  pub tavily_search : Json → Outcome AgentError Json
  pub is_word : ℕ → Bool
  pub decoder : Decoder

unfoldable pub lift_type {ℓ} : {A : Type ℓ} → Outcome TypeError A → Outcome AgentError A
lift_type (ok a) = ok a
lift_type (raised e) = raised (type_error e)

-- `JsonParseError` is logged and raised again; a `RecursionError` passes through.
unfoldable pub lift_parse {ℓ} : {A : Type ℓ} → Outcome ParseError A → Outcome AgentError A
lift_parse (ok a) = ok a
lift_parse (raised (ParseError.json_parse_error raw_snippet)) =
    raised (json_parse_error raw_snippet)
lift_parse (raised ParseError.recursion_error) = raised recursion_error
