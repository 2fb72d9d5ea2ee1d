-- ===== src/Ui/Conversation.antt =====
-- src/ui/app.py: a whole session on the screen, from the button for a new one to the final answer.
use decision_maker_flow.Prelude.{
  ◌≡◌, refl, ap, sym, ◌∙◌, String, true, none, some, List, [], ◌∷◌, ◌++◌, strip,
}
use decision_maker_flow.Json.{Json, str, nonempty}
use mathlib.Core.List.{append_assoc}
use decision_maker_flow.Agent.Graph.{parser}
use decision_maker_flow.Agent.Engine.{Checkpoint, Engine}
use decision_maker_flow.Agent.Session.{question_of, stream_session, stream_resume_session}
use decision_maker_flow.Agent.Legs.{on_gathering}
use decision_maker_flow.Agent.SessionFlow.{first_turn, second_turn}
use decision_maker_flow.Ui.Controllers.{Printer}
use decision_maker_flow.Ui.Presenter.{ChatMessage, user}
use decision_maker_flow.Ui.App.{
  awaiting_submit, awaiting_user_answer, Screen, with_user_turn, submit, on_new_session,
}
use decision_maker_flow.Ui.Views.{View, view, said, leg, reply_in, turned, turn}
use decision_maker_flow.Ui.Screens.{submit-view}

-- The user types.
abbrev pub typed : String → Screen → Screen
typed text s = record s { textbox = text }

abbrev pub asked : String → ChatMessage
asked text = record { role = user; content = str text }

with_user_turn_lem :
    (text : String) (chat : List ChatMessage)
    → nonempty (strip text) ≡ true
    → with_user_turn text chat ≡ chat ++ asked text ∷ []
unfolding with_user_turn
with_user_turn_lem text chat h = rw h refl

turn_reply :
    (printer : Printer) (engine : Engine) (text : String) (c : Checkpoint) (v : View)
    → nonempty (strip text) ≡ true
    → (leg v.mode engine text v.thread_id c).failure ≡ none
    → turn printer engine text c v ≡ record v {
      chat =
          v.chat
          ++ asked text
            ∷ said (reply_in v.mode (leg v.mode engine text v.thread_id c).checkpoint)
            ∷ [];
      mode = turned v.mode;
    }
turn_reply printer engine text c v filled f =
    rw (f, with_user_turn_lem text v.chat filled, append_assoc v.chat (asked text ∷ []) _) refl

module _ (shown : Json → String) (printer : Printer) (engine : Engine)
    (dilemma answer new_id : String) (s : Screen) (c : Checkpoint) where
  abbrev first : Screen × Checkpoint
  first = submit shown printer engine (typed dilemma (on_new_session new_id s)) c

  abbrev second : Screen × Checkpoint
  second = submit shown printer engine (typed answer first.0) first.1

  abbrev started : View
  started = record { chat = []; mode = awaiting_submit; thread_id = new_id }

  abbrev waiting : View
  waiting = record {
    chat = asked dilemma ∷ said (question_of first.1) ∷ [];
    mode = awaiting_user_answer;
    thread_id = new_id;
  }

  first-checkpoint : first.1 ≡ (stream_session engine dilemma new_id c).checkpoint
  unfolding on_new_session
  first-checkpoint =
      (submit-view shown printer engine (typed dilemma (on_new_session new_id s)) c).1

  first-view :
      nonempty (strip dilemma) ≡ true
      → (stream_session engine dilemma new_id c).failure ≡ none
      → view first.0 ≡ waiting
  unfolding on_new_session
  first-view filled f =
      (submit-view shown printer engine (typed dilemma (on_new_session new_id s)) c).0
      ∙ turn_reply printer engine dilemma c started filled f
      ∙ ap (λ d. record waiting { chat = asked dilemma ∷ said (question_of d) ∷ [] })
          (sym first-checkpoint)

  second-checkpoint :
      view first.0 ≡ waiting
      → second.1 ≡ (stream_resume_session engine answer new_id first.1).checkpoint
  second-checkpoint seen =
      (submit-view shown printer engine (typed answer first.0) first.1).1
      ∙ ap (λ v. (leg v.mode engine answer v.thread_id first.1).checkpoint) seen

  -- A new session, a dilemma and an answer, neither of them blank, whose legs do not fail: the chat
  -- is the dilemma, the question, the answer and the final answer of the thread, the next text
  -- is a dilemma again under the same id, and the thread has ended with the two texts in it.
  pub conversation :
      nonempty (strip dilemma) ≡ true
      → nonempty (strip answer) ≡ true
      → (stream_session engine dilemma new_id c).failure ≡ none
      → (stream_resume_session engine answer new_id first.1).failure ≡ none
      → (view second.0 ≡ record {
        chat =
            asked dilemma
            ∷ said (question_of first.1)
            ∷ asked answer
            ∷ said (str second.1.values.final_answer)
            ∷ [];
        mode = awaiting_submit;
        thread_id = new_id;
      })
        × (second.1.next ≡ none)
        × (second.1.values.user_input ≡ dilemma)
        × (second.1.values.user_answer ≡ answer)
  conversation d a f g =
      let seen = first-view d f in
      let saved = second-checkpoint seen in
      let asking = first_turn engine dilemma new_id c f in
      let asks : first.1.next ≡ some parser = ap (λ d. d.next) first-checkpoint ∙ asking.0 in
      let input : first.1.values.user_input ≡ dilemma =
        ap (λ d. d.values.user_input) first-checkpoint ∙ asking.1 in
      let ending = second_turn engine answer new_id first.1 (ap on_gathering asks) g in
      (
        (submit-view shown printer engine (typed answer first.0) first.1).0
            ∙ ap (turn printer engine answer first.1) seen
            ∙ turn_reply printer engine answer first.1 waiting a g
            ∙ ap
                (λ d. record waiting {
                  chat = waiting.chat ++ asked answer ∷ said (str d.values.final_answer) ∷ [];
                  mode = awaiting_submit;
                })
                (sym saved),
        ap (λ d. d.next) saved ∙ ending.0,
        ap (λ d. d.values.user_input) saved ∙ ending.2 ∙ input,
        ap (λ d. d.values.user_answer) saved ∙ ending.1,
      )
