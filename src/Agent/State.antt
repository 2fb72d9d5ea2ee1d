-- ===== src/Agent/State.antt =====
-- src/features/decision_maker/state.py: the state of the graph. A field of the language model's
-- making is any JSON value, `null` where it is missing or None; the rest is what the code writes.
use decision_maker_flow.Prelude.{ℕ, String, Bool, false, List, []}
use decision_maker_flow.Json.{Json, null}

-- One entry of `tool_facts`.
pub record Fact : Type 0 where
  pub query : Json
  pub result : Json
  pub source : Json

-- `DecisionMakerState`. A text that is missing is "", a count 0 and a flag false: the code reads
-- each of them through `or` or `bool`.
pub record AgentState : Type 0 where
  pub user_input : String
  pub dilemma : Json
  pub weights : Json
  pub tool_facts : List Fact
  pub last_question : Json
  pub draft_analysis : String
  pub critique_feedback : Json
  pub rewrite_count : ℕ
  pub is_data_sufficient : Bool
  pub user_answer : String
  pub search_queries : Json
  pub final_answer : String
  pub assumptions : Json

-- The state of a thread with no checkpoint.
abbrev pub blank : AgentState
blank = record {
  user_input = "";
  dilemma = null;
  weights = null;
  tool_facts = [];
  last_question = null;
  draft_analysis = "";
  critique_feedback = null;
  rewrite_count = 0;
  is_data_sufficient = false;
  user_answer = "";
  search_queries = null;
  final_answer = "";
  assumptions = null;
}
