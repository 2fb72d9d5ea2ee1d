-- ===== src/Agent/Session.antt =====
-- src/features/decision_maker/graph.py: the public API over a thread and its checkpoint. The two
-- paths of each function, an injected checkpointer and one of its own, do the same to the thread.
-- An exception, here the run's failure, passes through: nothing follows the chunks.
use decision_maker_flow.Prelude.{
  String, Option, none, some, List, [], ◌∷◌, ◌++◌, map, Outcome, ok, raised,
}
use decision_maker_flow.Json.{Json, str, or_default}
use decision_maker_flow.Agent.State.{AgentState}
use decision_maker_flow.Agent.Graph.{build_graph}
use decision_maker_flow.Agent.Engine.{Checkpoint, Failure, Chunk, Engine}

-- `initial_state`, merged over what the thread holds already.
unfoldable pub seed : String → AgentState → AgentState
seed user_input s = record s { user_input = user_input; tool_facts = []; rewrite_count = 0 }

-- What the generators yield: the chunks, then a sentinel.
pub data Message : Type 0 where
  update : Chunk → Message
  awaiting_user : (last_question : Json) (thread_id : String) → Message
  done : (final_answer thread_id : String) → Message

pub record Streamed : Type 0 where
  pub messages : List Message
  pub checkpoint : Checkpoint
  pub failure : Option Failure

-- The thread at the entry of the graph, with the input merged.
unfoldable pub begun : String → Checkpoint → Checkpoint
unfolding seed build_graph
begun user_input c = record { values = seed user_input c.values; next = some (build_graph.entry) }

-- `aupdate_state`: the answer is merged, and the pending node stays.
unfoldable pub answered : String → Checkpoint → Checkpoint
answered user_answer c = record c { values = record (c.values) { user_answer = user_answer } }

abbrev pub question_of : Checkpoint → Json
question_of c = or_default c.values.last_question (str "")

-- The chunks of a run, with the sentinel behind them if the run did not fail.
abbrev pub sentinel : Option Failure → Message → List Message
sentinel none m = m ∷ []
sentinel (some f) m = []

unfoldable pub stream_session : Engine → (user_input thread_id : String) → Checkpoint → Streamed
unfolding begun
stream_session engine user_input thread_id c =
    let run = engine.astream (begun user_input c) in
    record {
      messages =
          map update run.chunks
          ++ sentinel run.failure (awaiting_user (question_of run.checkpoint) thread_id);
      checkpoint = run.checkpoint;
      failure = run.failure;
    }

unfoldable pub stream_resume_session :
    Engine → (user_answer thread_id : String) → Checkpoint → Streamed
unfolding answered
stream_resume_session engine user_answer thread_id c =
    let run = engine.astream (answered user_answer c) in
    record {
      messages =
          map update run.chunks
          ++ sentinel run.failure (done run.checkpoint.values.final_answer thread_id);
      checkpoint = run.checkpoint;
      failure = run.failure;
    }

pub data Reply : Type 0 where
  awaiting_user : (question : Json) (thread_id : String) → Reply
  done : (final_answer thread_id : String) → Reply

abbrev returned : Option Failure → Reply → Outcome Failure Reply
returned none r = ok r
returned (some f) r = raised f

-- `ainvoke` is the run without its chunks.
unfoldable pub start_session :
    Engine → (user_input thread_id : String) → Checkpoint → Outcome Failure Reply × Checkpoint
unfolding begun
start_session engine user_input thread_id c =
    let run = engine.astream (begun user_input c) in
    (returned run.failure (awaiting_user (question_of run.checkpoint) thread_id), run.checkpoint)

unfoldable pub resume_session :
    Engine → (user_answer thread_id : String) → Checkpoint → Outcome Failure Reply × Checkpoint
unfolding answered
resume_session engine user_answer thread_id c =
    let run = engine.astream (answered user_answer c) in
    (returned run.failure (done run.checkpoint.values.final_answer thread_id), run.checkpoint)
