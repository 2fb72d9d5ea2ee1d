-- ===== src/Agent/Samples.antt =====
-- Concrete replies of the model, and the runs that they make.
use decision_maker_flow.Prelude.{
  ℕ, zero, suc, ◌≡◌, refl, String, Bool, true, false, ◌&&◌, none, [], ◌∷◌, Outcome, ok, traverse,
  leb, prefix_of, lstrip, rstrip, strip,
}
use decision_maker_flow.Json.{
  null, str, bool, obj, arr, nil, cons, Fields, end, field, iterate, get, get_or, truthy,
  len_positive,
}
use mathlib.Core.Bool.{false≢true}
use mathlib.Core.List.{flatten}
use decision_maker_flow.Core.Patterns.{literal}
use decision_maker_flow.Core.LlmUtils.{
  strip_reasoning_blocks, extract_output_payload, without_blocks, find_outputs, reasoning_block,
  output_block, sanitize_llm_response,
}
use decision_maker_flow.Core.JsonUtils.{Decoded, value, Decoder, attempt, safe_json_parse}
use decision_maker_flow.Agent.Routing.{route_from_context, route_from_critique}
use decision_maker_flow.Agent.State.{blank}
use decision_maker_flow.Agent.Env.{
  AgentError, Client, lift_type, lift_parse, context_analyzer_prompt, weight_questioner_prompt,
  weight_parser_prompt, draft_generator_prompt, cove_critique_prompt, final_synthesizer_prompt, Env,
}
use decision_maker_flow.Agent.Tools.{search_async, stub_search_async}
use decision_maker_flow.Agent.Nodes.{
  audit, invoke_json, draft_generator, tool_node, weight_parser, final_synthesizer, merge,
  invoke_llm_async, context_analyzer, weight_questioner, cove_critique, analysis,
}
use decision_maker_flow.Agent.Graph.{build_graph, superstep, after_context, after_critique}
use decision_maker_flow.Agent.Critique.{asked, comments}
use decision_maker_flow.Agent.Engine.{Checkpoint, Engine}
use decision_maker_flow.Agent.Engine.Executor.{execute, executor}
use decision_maker_flow.Agent.RewriteLoop.{drafts, IsConsistent}
use decision_maker_flow.Agent.Runaway.{ApprovesWithRemarks}
use decision_maker_flow.Agent.Convergence.{Answers}
use decision_maker_flow.Agent.Session.{
  begun, answered, seed, start_session, stream_session, stream_resume_session,
}

-- The reply "x" stands for one JSON object, the empty reply for another.
abbrev pub eager : Fields
eager = field "needs_data" (bool true) (
    field "search_queries" (arr (cons (str "rent prices") nil)) (
      field "last_question" (str "what matters?")
        (field "needs_rewrite" (bool true) (field "critique_feedback" (str "check the sums") end))))

abbrev pub content : Fields
content = field "needs_data" (bool false) (field "needs_rewrite" (bool false) end)

abbrev pub remark : Fields
remark = field "needs_rewrite" (bool false) (field "critique_feedback" (str "good draft") end)

-- A rewrite is asked for once.
abbrev pub audit_reply : ℕ → String
audit_reply zero = "x"
audit_reply (suc n) = ""

abbrev pub model : Client
model (context_analyzer_prompt u []) = ok "x"
model (context_analyzer_prompt u (f ∷ fs)) = ok ""
model (weight_questioner_prompt u d fs) = ok "x"
model (weight_parser_prompt q a) = ok ""
model (draft_generator_prompt u d w fs c) = ok "draft"
model (cove_critique_prompt u d w fs draft n) = ok (audit_reply n)
model (final_synthesizer_prompt draft u d w) = ok "answer"

abbrev reading : String → Decoded
reading String.[] = value (obj content)
reading (String.◌∷◌ c s) = value (obj eager)

abbrev pub decoder : Decoder
decoder = record { loads = reading; raw_decode = reading }

-- `\w` among the small letters.
abbrev is_word : ℕ → Bool
is_word c = leb 97 c && leb c 122

abbrev pub sample : Env
sample = record {
  override = none;
  build_llm = λ reasoning. model;
  tavily_key = "";
  tavily_search = λ q. ok null;
  is_word = is_word;
  decoder = decoder;
}

-- The same model with an auditor that approves and adds a remark.
abbrev pub remarking : Env
remarking = record sample {
  decoder = record { loads = λ s. value (obj remark); raw_decode = λ s. value (obj remark) };
}

-- How a reply is read.
abbrev pub read_reply : String → Outcome AgentError Fields
read_reply reply =
    lift_parse (safe_json_parse is_word decoder (sanitize_llm_response is_word reply))

-- What reading a reply calls.
unfoldable pub cleaned : Unit {0}
unfolding lift_parse safe_json_parse sanitize_llm_response strip_reasoning_blocks
    extract_output_payload without_blocks find_outputs reasoning_block output_block literal strip
    lstrip rstrip attempt prefix_of
cleaned = tt

read_x : read_reply "x" ≡ ok eager
unfolding cleaned
read_x = refl

read_empty : read_reply "" ≡ ok content
unfolding cleaned
read_empty = refl

audits_consistent :
    (n : ℕ) (parsed : Fields)
    → read_reply (audit_reply n) ≡ ok parsed
    → comments parsed ≡ true
    → asked parsed ≡ true
unfolding get get_or truthy cleaned
audits_consistent zero parsed h c = let e : parsed ≡ eager = cc in rw e refl
audits_consistent (suc n) parsed h c =
    let e : parsed ≡ content = cc in absurd (false≢true (rw e at c))

pub sample-IsConsistent : IsConsistent sample
unfolding audit invoke_json invoke_llm_async
sample-IsConsistent s parsed h c = audits_consistent s.rewrite_count parsed h c

audits_answered : (n : ℕ) → (parsed : Fields) × (read_reply (audit_reply n) ≡ ok parsed)
audits_answered zero = (eager, read_x)
audits_answered (suc n) = (content, read_empty)

pub sample-Answers : Answers sample
unfolding audit invoke_json invoke_llm_async weight_parser draft_generator final_synthesizer cleaned
sample-Answers = record {
  parsing = λ s. (_, refl);
  drafting = λ s. (_, refl);
  auditing = λ s. audits_answered s.rewrite_count;
  closing = λ s. (_, refl);
}

pub remarking-ApprovesWithRemarks : ApprovesWithRemarks remarking
unfolding audit invoke_json invoke_llm_async draft_generator get get_or truthy cleaned
remarking-ApprovesWithRemarks = record {
  drafting = λ s. (_, refl);
  auditing = λ s. (remark, refl, refl, refl);
}

-- All that a run calls.
unfoldable pub computed : Unit {0}
unfolding execute superstep build_graph context_analyzer tool_node weight_questioner weight_parser
    draft_generator cove_critique final_synthesizer invoke_json invoke_llm_async after_context
    after_critique route_from_context route_from_critique merge get get_or truthy search_async
    stub_search_async iterate len_positive traverse lift_type analysis drafts stream_session
    stream_resume_session start_session executor begun answered seed flatten lift_parse
    safe_json_parse sanitize_llm_response strip_reasoning_blocks extract_output_payload
    without_blocks find_outputs reasoning_block output_block literal strip lstrip rstrip attempt
    prefix_of
computed = tt

abbrev pub blank_thread : Checkpoint
blank_thread = record { values = blank; next = none }

abbrev pub engine : Engine
engine = executor (λ k. sample) 25

abbrev pub asked_thread : Checkpoint
asked_thread = (stream_session engine "rent or buy?" "t1" blank_thread).checkpoint

abbrev pub answered_thread : Checkpoint
answered_thread = (stream_resume_session engine "stability" "t1" asked_thread).checkpoint
