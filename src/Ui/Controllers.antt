-- ===== src/Ui/Controllers.antt =====
-- src/ui/controllers.py: the two generators between a session and the screen. A generator is the
-- events that it yields, what the session leaves of the thread, and the exception that it re-raises.
use Prim.Native.String.{◌++◌ as ◌++ˢ◌}
use decision_maker_flow.Prelude.{
  String, Bool, true, false, ◌&&◌, ◌||◌, Option, none, some, List, [], ◌∷◌, ◌++◌, str_eq,
  if◌then◌else◌,
}
use decision_maker_flow.Json.{Json, bool, str, Fields, truthy, or_default, get, get_or}
use decision_maker_flow.Agent.Engine.{Checkpoint, Failure, Chunk, Engine}
use decision_maker_flow.Agent.Session.{Message, update, done, stream_session, stream_resume_session}
use decision_maker_flow.Ui.Events.{
  UiEvent, session_started, node_completed, state_snapshot, cove_rewrite, resume_started,
  final_answer, error, node_id, delta_dict,
}

-- How Python prints the exceptions of a session: `type(exc).__name__` and `str(exc)`.
pub record Printer : Type 0 where
  pub type_name : Failure → String
  pub message : Failure → String

abbrev is_true : Json → Bool
is_true (bool true) = true
is_true _ = false

abbrev is_text : String → Json → Bool
is_text t (str s) = str_eq s t
is_text t _ = false

-- `_extract_cove_rewrite_event`
unfoldable pub extract_cove_rewrite_event : Fields → (thread_id : String) → Option UiEvent
extract_cove_rewrite_event state_delta thread_id =
    let decision = or_default (get "decision" state_delta) (get "needs_rewrite" state_delta) in
    let critique_feedback = get_or "critique_feedback" state_delta (str "") in
    if (is_text "rewrite" decision || is_true decision) && truthy critique_feedback
    then some (cove_rewrite critique_feedback thread_id)
    else none

abbrev event_list : Option UiEvent → List UiEvent
event_list none = []
event_list (some e) = e ∷ []

-- The events for one chunk of the graph.
unfoldable pub chunk_events : (thread_id : String) → Chunk → List UiEvent
chunk_events thread_id chunk =
    let node = node_id chunk.node in
    let state_delta = delta_dict chunk.delta in
    (if str_eq node "5_CoVe_Critique"
      then event_list (extract_cove_rewrite_event state_delta thread_id)
      else [])
    ++ node_completed node state_delta thread_id ∷ state_snapshot node state_delta thread_id ∷ []

-- The loop of `orchestrate_start`, which returns at its sentinel. `stream_session` yields no
-- message `done`, and `stream_resume_session` no `awaiting_user`.
unfoldable pub start_events : (thread_id : String) → List Message → List UiEvent
start_events thread_id [] = []
start_events thread_id (update chunk ∷ ms) =
    chunk_events thread_id chunk ++ start_events thread_id ms
start_events thread_id (Message.awaiting_user q t ∷ ms) = UiEvent.awaiting_user q thread_id ∷ []
start_events thread_id (done a t ∷ ms) = start_events thread_id ms

unfoldable pub resume_events : (thread_id : String) → List Message → List UiEvent
resume_events thread_id [] = []
resume_events thread_id (update chunk ∷ ms) =
    chunk_events thread_id chunk ++ resume_events thread_id ms
resume_events thread_id (done a t ∷ ms) = final_answer a thread_id ∷ []
resume_events thread_id (Message.awaiting_user q t ∷ ms) = resume_events thread_id ms

-- The event of the `except` clause.
unfoldable pub error_events : Printer → (thread_id : String) → Option Failure → List UiEvent
error_events printer thread_id none = []
error_events printer thread_id (some exc) =
    error (printer.type_name exc ++ˢ ": " ++ˢ printer.message exc) thread_id ∷ []

pub record Orchestrated : Type 0 where
  pub events : List UiEvent
  pub checkpoint : Checkpoint
  pub failure : Option Failure

unfoldable pub orchestrate_start :
    Printer → Engine → (user_input thread_id : String) → Checkpoint → Orchestrated
orchestrate_start printer engine user_input thread_id c =
    let streamed = stream_session engine user_input thread_id c in
    record {
      events =
          session_started thread_id ∷ start_events thread_id streamed.messages
          ++ error_events printer thread_id streamed.failure;
      checkpoint = streamed.checkpoint;
      failure = streamed.failure;
    }

unfoldable pub orchestrate_resume :
    Printer → Engine → (user_answer thread_id : String) → Checkpoint → Orchestrated
orchestrate_resume printer engine user_answer thread_id c =
    let streamed = stream_resume_session engine user_answer thread_id c in
    record {
      events =
          resume_started thread_id ∷ resume_events thread_id streamed.messages
          ++ error_events printer thread_id streamed.failure;
      checkpoint = streamed.checkpoint;
      failure = streamed.failure;
    }
