-- ===== src/Ui/App.antt =====
-- src/ui/app.py: the two handlers and the components that they are wired to. The failures are
-- the exceptions that `except Exception` sees; nobody reads the screen of a handler that is
-- cancelled.
use Prim.Native.String.{◌++◌ as ◌++ˢ◌}
use decision_maker_flow.Prelude.{
  String, Option, none, some, List, [], ◌∷◌, ◌++◌, strip, if◌then◌else◌,
}
use decision_maker_flow.Json.{Json, str, Fields, end, nonempty}
use decision_maker_flow.Agent.Engine.{Checkpoint, Failure, Engine}
use decision_maker_flow.Ui.Events.{UiEvent, awaiting_user, final_answer}
use decision_maker_flow.Ui.Controllers.{
  Printer, Orchestrated, orchestrate_start, orchestrate_resume,
}
use decision_maker_flow.Ui.Presenter.{ChatMessage, user, assistant, render}

pub data Mode : Type 0 where
  awaiting_submit awaiting_user_answer : Mode

-- The components that the handlers write. `state_state_snapshot` is not among them: no handler
-- has it for an output, and it stays {}.
pub record Screen : Type 0 where
  pub chatbot : List ChatMessage
  pub state_xray : Fields
  pub status_md : String
  pub mode : Mode
  pub thread_id : String
  pub textbox : String

-- The user's message, unless it is blank.
unfoldable pub with_user_turn : String → List ChatMessage → List ChatMessage
with_user_turn user_input chat =
    if nonempty (strip user_input)
    then chat ++ record { role = user; content = str user_input } ∷ []
    else chat

unfoldable pub next_mode : UiEvent → Mode → Mode
next_mode (awaiting_user q t) mode = awaiting_user_answer
next_mode (final_answer a t) mode = awaiting_submit
next_mode _ mode = mode

-- The update for one event.
unfoldable pub show_event : (shown : Json → String) → UiEvent → Screen → Screen
show_event shown event s =
    let rendered = render shown event s.chatbot s.state_xray in
    record {
      chatbot = rendered.chat;
      state_xray = rendered.snapshot;
      status_md = rendered.status;
      mode = next_mode event s.mode;
      thread_id = s.thread_id;
      textbox = "";
    }

-- The update of the `except` clause, if there is one.
unfoldable pub show_failure : Printer → Option Failure → Screen → List Screen
show_failure printer none s = []
show_failure printer (some exc) s =
    record {
      chatbot =
          s.chatbot
          ++ record {
            role = assistant;
            content = str ("❌ Ошибка обработки: " ++ˢ printer.message exc);
          }
            ∷ [];
      state_xray = s.state_xray;
      status_md = "❌ Критическая ошибка";
      mode = s.mode;
      thread_id = s.thread_id;
      textbox = "";
    }
    ∷ []

-- What the handler yields: an update for each event, then the one of the `except` clause.
unfoldable pub show_events :
    (shown : Json → String) → Printer → Option Failure → List UiEvent → Screen → List Screen
show_events shown printer failure [] s = show_failure printer failure s
show_events shown printer failure (event ∷ events) s =
    let next = show_event shown event s in next ∷ show_events shown printer failure events next

unfoldable pub dispatch :
    Printer → Engine → Mode → (user_input thread_id : String) → Checkpoint → Orchestrated
dispatch printer engine awaiting_submit = orchestrate_start printer engine
dispatch printer engine awaiting_user_answer = orchestrate_resume printer engine

pub record Submitted : Type 0 where
  pub updates : List Screen
  pub checkpoint : Checkpoint

-- `on_submit` on the components as it reads them, and the thread's checkpoint.
unfoldable pub on_submit :
    (shown : Json → String)
    → Printer
    → Engine
    → (user_input thread_id : String) → Mode
    → (chat_history : List ChatMessage) (state_snapshot : Fields) → Checkpoint
    → Submitted
on_submit shown printer engine user_input thread_id mode chat_history state_snapshot c =
    let run = dispatch printer engine mode user_input thread_id c in
    record {
      updates = show_events shown printer run.failure run.events (record {
        chatbot = with_user_turn user_input chat_history;
        state_xray = state_snapshot;
        status_md = "";
        mode = mode;
        thread_id = thread_id;
        textbox = user_input;
      });
      checkpoint = run.checkpoint;
    }

-- The last update stays on the screen.
unfoldable pub last_of : Screen → List Screen → Screen
last_of s [] = s
last_of s (u ∷ us) = last_of u us

-- A click on "Отправить", as `build_ui` wires it: the screen that it leaves, and the checkpoint.
unfoldable pub submit :
    (shown : Json → String) → Printer → Engine → Screen → Checkpoint → Screen × Checkpoint
submit shown printer engine s c =
    let submitted = on_submit shown printer engine s.textbox s.thread_id s.mode s.chatbot end c in
    (last_of s submitted.updates, submitted.checkpoint)

-- `on_new_session`, with the id that `uuid4` makes; it writes all components but the textbox.
unfoldable pub on_new_session : (new_thread_id : String) → Screen → Screen
on_new_session new_thread_id s = record {
  chatbot = [];
  state_xray = end;
  status_md = "Готов принять дилемму.";
  mode = awaiting_submit;
  thread_id = new_thread_id;
  textbox = s.textbox;
}
