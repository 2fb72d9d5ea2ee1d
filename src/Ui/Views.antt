-- ===== src/Ui/Views.antt =====
-- src/ui/: a submission as the user sees it, described without the events between graph and screen.
use Prim.Native.String.{◌++◌ as ◌++ˢ◌}
use decision_maker_flow.Prelude.{String, Option, none, some, List, [], ◌∷◌, ◌++◌}
use decision_maker_flow.Json.{Json, str}
use decision_maker_flow.Agent.Engine.{Checkpoint, Failure, Engine}
use decision_maker_flow.Agent.Session.{question_of, Streamed, stream_session, stream_resume_session}
use decision_maker_flow.Ui.Controllers.{Printer}
use decision_maker_flow.Ui.Presenter.{ChatMessage, assistant}
use decision_maker_flow.Ui.App.{Mode, awaiting_submit, awaiting_user_answer, Screen, with_user_turn}

-- What the user reads of a screen, and what the next submission goes by.
pub record View : Type 0 where
  pub chat : List ChatMessage
  pub mode : Mode
  pub thread_id : String

abbrev pub view : Screen → View
view s = record { chat = s.chatbot; mode = s.mode; thread_id = s.thread_id }

abbrev pub said : Json → ChatMessage
said reply = record { role = assistant; content = reply }

-- The leg of the session that a mode stands for, and its reply.
abbrev pub leg : Mode → Engine → (text thread_id : String) → Checkpoint → Streamed
leg awaiting_submit = stream_session
leg awaiting_user_answer = stream_resume_session

abbrev pub reply_in : Mode → Checkpoint → Json
reply_in awaiting_submit c = question_of c
reply_in awaiting_user_answer c = str c.values.final_answer

abbrev pub turned : Mode → Mode
turned awaiting_submit = awaiting_user_answer
turned awaiting_user_answer = awaiting_submit

-- The reply of the leg, or the exception, which is reported twice and keeps the mode.
abbrev pub concluded : Printer → Option Failure → Json → View → View
concluded printer none reply v = record v { chat = v.chat ++ said reply ∷ []; mode = turned v.mode }
concluded printer (some exc) reply v = record v {
  chat =
      v.chat
      ++ said (str ("❌ Ошибка: " ++ˢ printer.type_name exc ++ˢ ": " ++ˢ printer.message exc))
        ∷ said (str ("❌ Ошибка обработки: " ++ˢ printer.message exc))
        ∷ [];
}

abbrev pub turn : Printer → Engine → String → Checkpoint → View → View
turn printer engine text c v =
    let streamed = leg v.mode engine text v.thread_id c in
    concluded printer streamed.failure (reply_in v.mode streamed.checkpoint)
      (record v { chat = with_user_turn text v.chat })
