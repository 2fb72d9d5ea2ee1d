-- ===== src/Agent/SessionFlow.antt =====
-- Whole sessions over the public API of graph.py, for every engine.
use decision_maker_flow.Prelude.{
  ◌≡◌, refl, String, true, false, ◌⊎◌, inl, inr, Bool-cases, Option, none, some, [], ◌∷◌, ◌++◌, map,
  ok, arith,
}
use decision_maker_flow.Json.{Json, str, truthy}
use decision_maker_flow.Agent.State.{AgentState}
use decision_maker_flow.Agent.Env.{Env}
use decision_maker_flow.Agent.Nodes.{
  merge, context_analyzer, tool_node, weight_questioner, weight_parser, draft_generator,
  cove_critique, final_synthesizer,
}
use decision_maker_flow.Agent.Graph.{
  Node, analyzer, searcher, questioner, parser, drafter, critic, synthesizer, build_graph, Step,
  superstep,
}
use decision_maker_flow.Agent.Engine.{
  Checkpoint, Run, Leg, at_end, stop, fail, pause, proceed, AnyEnv, Engine,
}
use decision_maker_flow.Agent.Legs.{gathering_run, settling_run, on_gathering}
use decision_maker_flow.Agent.Session.{
  seed, begun, answered, Message, update, stream_session, stream_resume_session, Reply,
  start_session,
}

-- What no node writes.
pub record SameInputs (s u : AgentState) : Type 0 where
  pub input : u.user_input ≡ s.user_input
  pub answer : u.user_answer ≡ s.user_answer

keeps_inputs :
    (env : Env) (n : Node) (s : AgentState) {t : Step}
    → superstep build_graph env n s ≡ ok t
    → SameInputs s t.values
unfolding superstep build_graph context_analyzer tool_node weight_questioner weight_parser
    draft_generator cove_critique final_synthesizer merge
keeps_inputs env analyzer s h = ground arith
keeps_inputs env searcher s h = ground arith
keeps_inputs env questioner s h = ground arith
keeps_inputs env parser s h = ground arith
keeps_inputs env drafter s h = ground arith
keeps_inputs env critic s h = ground arith
keeps_inputs env synthesizer s h = ground arith

SameInputs-trans : {s t u : AgentState} → SameInputs s t → SameInputs t u → SameInputs s u
SameInputs-trans a b = ground arith

Leg-SameInputs :
    {P : Env → Type 0} {n : Option Node} {s : AgentState} {r : Run}
    → Leg build_graph P n s r
    → SameInputs s r.checkpoint.values
Leg-SameInputs at_end = ground arith
Leg-SameInputs stop = ground arith
Leg-SameInputs (fail env p h) = ground arith
Leg-SameInputs (pause {n} {s} env p h w) = keeps_inputs env n s h
Leg-SameInputs (proceed {n} {s} env p h w l) =
    SameInputs-trans (keeps_inputs env n s h) (Leg-SameInputs l)

ended_run :
    {P : Env → Type 0} {n : Option Node} {s : AgentState} {r : Run}
    → Leg build_graph P n s r
    → n ≡ none
    → r ≡ record { chunks = []; checkpoint = record { values = s; next = none }; failure = none }
ended_run at_end e = refl
ended_run stop e = cc
ended_run (fail env p h) e = cc
ended_run (pause env p h w) e = cc
ended_run (proceed env p h w l) e = cc

module _ (engine : Engine) (user_input thread_id : String) (c : Checkpoint) where
  begun_run :
      Leg build_graph AnyEnv
        (some analyzer)
        (seed user_input c.values)
        (engine.astream (begun user_input c))
  unfolding begun
  begun_run = engine.follows (begun user_input c)

  -- A first turn that does not fail halts with the thread at node 3.5, its input the user's and its
  -- count 0; the draft, the audit and the final answer are those that the thread held before.
  pub first_turn :
      (stream_session engine user_input thread_id c).failure ≡ none
      → let after = (stream_session engine user_input thread_id c).checkpoint in
        (after.next ≡ some parser)
        × (after.values.user_input ≡ user_input)
        × (after.values.rewrite_count ≡ 0)
        × (after.values.draft_analysis ≡ c.values.draft_analysis)
        × (after.values.critique_feedback ≡ c.values.critique_feedback)
        × (after.values.final_answer ≡ c.values.final_answer)
  unfolding stream_session seed
  first_turn h =
      let (same, halts) = gathering_run begun_run refl in
      (halts h, (Leg-SameInputs begun_run).input, same.count, same.draft, same.feedback, same.final)

  start_whole :
      (q : Json)
      → (start_session engine user_input thread_id c).0 ≡ ok (Reply.awaiting_user q thread_id)
      → (engine.astream (begun user_input c)).failure ≡ none
  unfolding start_session
  start_whole q h = ground arith

  -- A question that `start_session` returns is that of the thread, which halts at node 3.5: its last
  -- question where that is truthy, and the empty text otherwise. `stream_session` yields the same
  -- question in its sentinel, behind all chunks.
  pub start-stream :
      (q : Json)
      → (start_session engine user_input thread_id c).0 ≡ ok (Reply.awaiting_user q thread_id)
      → let after = (start_session engine user_input thread_id c).1 in
        let last = after.values.last_question in
        (after.next ≡ some parser)
        × (((truthy last ≡ true) × (q ≡ last)) ⊎ ((truthy last ≡ false) × (q ≡ str "")))
        × ((stream_session engine user_input thread_id c).messages
            ≡ map update (engine.astream (begun user_input c)).chunks
              ++ Message.awaiting_user q thread_id ∷ [])
  unfolding stream_session start_session
  start-stream q h =
      let (same, halts) = gathering_run begun_run refl in
      let last = (engine.astream (begun user_input c)).checkpoint.values.last_question in
      (
        halts (start_whole q h),
        elim (Bool-cases (truthy last)) [
          | inl e ↦ inl (e, ground (arith, e, h))
          | inr e ↦ inr (e, ground (arith, e, h))
        ],
        ground (arith, h),
      )

module _ (engine : Engine) (user_answer thread_id : String) (c : Checkpoint) where
  answered_run :
      Leg build_graph AnyEnv c.next
        (answered user_answer c).values
        (engine.astream (answered user_answer c))
  unfolding answered
  answered_run = engine.follows (answered user_answer c)

  -- A second turn that does not fail, on a thread past node 3, ends the graph; the input, the
  -- dilemma, the facts and the question are those of the first turn.
  pub second_turn :
      on_gathering c.next ≡ false
      → (stream_resume_session engine user_answer thread_id c).failure ≡ none
      → let after = (stream_resume_session engine user_answer thread_id c).checkpoint in
        (after.next ≡ none)
        × (after.values.user_answer ≡ user_answer)
        × (after.values.user_input ≡ c.values.user_input)
        × (after.values.dilemma ≡ c.values.dilemma)
        × (after.values.tool_facts ≡ c.values.tool_facts)
        × (after.values.last_question ≡ c.values.last_question)
  unfolding stream_resume_session answered
  second_turn g h =
      let (same, ends) = settling_run answered_run g in
      let inputs = Leg-SameInputs answered_run in
      (ends h, inputs.answer, inputs.input, same.dilemma, same.facts, same.question)

  -- A turn on a thread that has ended runs nothing: it gives the old final answer again, and only
  -- the stored answer of the user changes.
  pub turn_after_end :
      c.next ≡ none
      → ((stream_resume_session engine user_answer thread_id c).messages
          ≡ Message.done c.values.final_answer thread_id ∷ [])
        × ((stream_resume_session engine user_answer thread_id c).checkpoint
            ≡ record { values = record (c.values) { user_answer = user_answer }; next = none })
  unfolding stream_resume_session answered
  turn_after_end e = rw (ended_run answered_run e) (refl, refl)
