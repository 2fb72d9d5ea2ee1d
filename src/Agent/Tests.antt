-- ===== src/Agent/Tests.antt =====
-- The theorems about the agentic core at concrete inputs.
use decision_maker_flow.Prelude.{
  String, ◌⊎◌, true, ◌≤◌, ◌≡◌, refl, false, none, some, [], ◌∷◌, ◌++◌, map, ok, ◌>>=◌, arith,
  length, lstrip, rstrip, strip,
}
use decision_maker_flow.Json.{null, str}
use decision_maker_flow.Agent.State.{blank}
use decision_maker_flow.Core.Texts.{lacks-Lacks}
use decision_maker_flow.Core.Blocks.{thinking}
use decision_maker_flow.Core.Sanitizing.{wrapped}
use decision_maker_flow.Agent.Env.{context_analyzer_prompt, Env}
use decision_maker_flow.Agent.Replies.{reply_read}
use decision_maker_flow.Agent.Nodes.{resolve_llm, audit, invoke_json, invoke_llm_async}
use decision_maker_flow.Agent.Graph.{analyzer, parser, drafter, critic, build_graph, superstep}
use decision_maker_flow.Agent.Critique.{after_audit, superstep-critic}
use decision_maker_flow.Agent.ContextRouting.{context_spec, context_route}
use decision_maker_flow.Agent.Engine.{stopped}
use decision_maker_flow.Agent.Engine.Executor.{execute, execute-Leg}
use decision_maker_flow.Agent.RewriteLoop.{drafts, IsConsistent, drafts_bounded}
use decision_maker_flow.Agent.Runaway.{double, runaway}
use decision_maker_flow.Agent.Convergence.{steps_left, converges}
use decision_maker_flow.Agent.Session.{
  Message, update, begun, start_session, stream_session, stream_resume_session,
}
use decision_maker_flow.Agent.SessionFlow.{first_turn, start-stream, second_turn}
use decision_maker_flow.Agent.Override.{call, leave, met, calls, starts, lost_override}
use decision_maker_flow.Agent.Samples.{
  cleaned, eager, sample, remarking, sample-IsConsistent, sample-Answers,
  remarking-ApprovesWithRemarks, computed, blank_thread, engine, asked_thread, answered_thread,
}

-- The whole session: the question after a search, then two drafts and the answer.
session_test :
    ((stream_session engine "rent or buy?" "t1" blank_thread).failure ≡ none)
    × (length (stream_session engine "rent or buy?" "t1" blank_thread).messages ≡ 5)
    × (answered_thread.values.final_answer ≡ "answer")
    × (length (stream_resume_session engine "stability" "t1" asked_thread).messages ≡ 7)
unfolding computed audit
session_test = (refl, refl, refl, refl)

drafts_bounded_example :
    drafts (execute build_graph (λ k. sample) 25 (some parser) blank).chunks ≤ 2
drafts_bounded_example = drafts_bounded (
    execute-Leg build_graph (λ k. sample) IsConsistent (λ k. sample-IsConsistent) 25 (some parser)
      blank)

runaway_example :
    (drafts (execute build_graph (λ _. remarking) (double 12) (some drafter) blank).chunks ≡ 12)
    × ((execute build_graph (λ _. remarking) (double 12) (some drafter) blank).failure
        ≡ some stopped)
runaway_example = runaway remarking-ApprovesWithRemarks 12 blank (omega arith)

converges_example :
    ((execute build_graph (λ k. sample) 6 (some parser) blank).failure ≡ none)
    × ((execute build_graph (λ k. sample) 6 (some parser) blank).checkpoint.next ≡ none)
converges_example =
    converges (λ k. sample) (λ k. sample-Answers) (λ k. sample-IsConsistent) 6 (some parser) blank
      refl (unfold steps_left in omega arith)

first_turn_example :
    let after = (stream_session engine "rent or buy?" "t1" blank_thread).checkpoint in
    (after.next ≡ some parser)
    × (after.values.user_input ≡ "rent or buy?")
    × (after.values.rewrite_count ≡ 0)
    × (after.values.draft_analysis ≡ "")
    × (after.values.critique_feedback ≡ null)
    × (after.values.final_answer ≡ "")
unfolding computed
first_turn_example = first_turn engine "rent or buy?" "t1" blank_thread refl

start-stream_example :
    let after = (start_session engine "rent or buy?" "t1" blank_thread).1 in
    (after.next ≡ some parser)
    × (((true ≡ true) × (str "what matters?" ≡ str "what matters?"))
        ⊎ ((true ≡ false) × (str "what matters?" ≡ str "")))
    × ((stream_session engine "rent or buy?" "t1" blank_thread).messages
        ≡ map update (engine.astream (begun "rent or buy?" blank_thread)).chunks
          ++ Message.awaiting_user (str "what matters?") "t1" ∷ [])
unfolding computed
start-stream_example =
    start-stream engine "rent or buy?" "t1" blank_thread (str "what matters?") refl

second_turn_example :
    let after = (stream_resume_session engine "stability" "t1" asked_thread).checkpoint in
    (after.next ≡ none)
    × (after.values.user_answer ≡ "stability")
    × (after.values.user_input ≡ asked_thread.values.user_input)
    × (after.values.dilemma ≡ asked_thread.values.dilemma)
    × (after.values.tool_facts ≡ asked_thread.values.tool_facts)
    × (after.values.last_question ≡ asked_thread.values.last_question)
unfolding computed audit
second_turn_example = second_turn engine "stability" "t1" asked_thread refl refl

context_route_example :
    (superstep build_graph sample analyzer blank >>= λ t. ok t.next)
    ≡ (context_spec eager >>= λ n. ok (some n))
unfolding invoke_json invoke_llm_async cleaned
context_route_example = context_route sample blank refl

superstep-critic_example : superstep build_graph sample critic blank ≡ ok (after_audit blank eager)
unfolding computed audit
superstep-critic_example = superstep-critic sample blank refl

lost_override_example :
    met {Client = String} (leave (some "b") ∷ call ∷ leave (some "a") ∷ []) (some "a") ≡ none ∷ []
unfolding calls starts
lost_override_example = lost_override "b" (call ∷ leave (some "a") ∷ []) (some "a") refl

abbrev thoughtful : Env
thoughtful = record sample { build_llm = λ reasoning prompt. ok (wrapped thinking "a=1" "\n{x}\n") }

reply_read_example :
    invoke_json thoughtful false (context_analyzer_prompt "rent or buy?" []) ≡ ok eager
unfolding resolve_llm lstrip rstrip strip
reply_read_example =
    reply_read thoughtful false (context_analyzer_prompt "rent or buy?" []) thinking "a=1" "\n{x}\n"
      refl refl (lacks-Lacks 60 "a=1" refl) (lacks-Lacks 60 "\n{x}\n" refl) refl
