-- ===== src/Ui/Tests.antt =====
-- Sessions on a concrete screen.
use decision_maker_flow.Prelude.{
  ◌≡◌, refl, String, none, [], ◌∷◌, lstrip, rstrip, strip, All, len, arith,
}
use decision_maker_flow.Json.{Json, str, end, field}
use decision_maker_flow.Agent.Samples.{sample, computed, engine, blank_thread, asked_thread}
use decision_maker_flow.Agent.Nodes.{audit}
use decision_maker_flow.Ui.Display.{state_display_fields}
use decision_maker_flow.Agent.Engine.{Engine}
use decision_maker_flow.Agent.Engine.Executor.{executor}
use decision_maker_flow.Agent.Session.{question_of}
use decision_maker_flow.Ui.Controllers.{
  Printer, orchestrate_start, orchestrate_resume, resume_events, error_events,
}
use decision_maker_flow.Ui.Presenter.{render, rendered_messages}
use decision_maker_flow.Ui.App.{
  last_of, show_events, show_failure, show_event, with_user_turn, Screen, awaiting_submit,
  awaiting_user_answer, dispatch, on_submit, submit, on_new_session,
}
use decision_maker_flow.Ui.Views.{view, said, turn, leg}
use decision_maker_flow.Ui.Screens.{submit-view}
use decision_maker_flow.Ui.Conversation.{typed, asked, conversation}
use decision_maker_flow.Ui.Xray.{IsDisplayed, on_submit-IsDisplayed}

abbrev printer : Printer
printer = record { type_name = λ f. "GraphRecursionError"; message = λ f. "limit" }

abbrev shown : Json → String
shown v = "1"

abbrev opened : Screen
opened = record {
  chatbot = [];
  state_xray = end;
  status_md = "";
  mode = awaiting_user_answer;
  thread_id = "t1";
  textbox = "stability";
}

submit-view_example :
    let after = submit shown printer engine opened asked_thread in
    (view after.0 ≡ turn printer engine "stability" asked_thread (view opened))
    × (after.1 ≡ (leg awaiting_user_answer engine "stability" "t1" asked_thread).checkpoint)
submit-view_example = submit-view shown printer engine opened asked_thread

conversation_example :
    let first =
      submit shown printer engine
        (typed "rent or buy?" (on_new_session "t2" opened))
        blank_thread in
    let second = submit shown printer engine (typed "stability" first.0) first.1 in
    (view second.0 ≡ record {
      chat =
          asked "rent or buy?"
          ∷ said (question_of first.1)
          ∷ asked "stability"
          ∷ said (str second.1.values.final_answer)
          ∷ [];
      mode = awaiting_submit;
      thread_id = "t2";
    })
    × (second.1.next ≡ none)
    × (second.1.values.user_input ≡ "rent or buy?")
    × (second.1.values.user_answer ≡ "stability")
unfolding computed audit strip lstrip rstrip submit on_submit dispatch on_new_session
    orchestrate_start
conversation_example =
    conversation shown printer engine "rent or buy?" "stability" "t2" opened blank_thread refl refl
      refl refl

on_submit-IsDisplayed_example :
    All
      (λ u. IsDisplayed u.state_xray)
      (on_submit shown printer engine "rent or buy?" "t1" awaiting_submit []
        (field "weights" (str "1") end)
        blank_thread).updates
unfolding state_display_fields len
on_submit-IsDisplayed_example =
    on_submit-IsDisplayed shown printer engine "rent or buy?" "t1" awaiting_submit []
      (field "weights" (str "1") end) blank_thread (refl, omega arith, tt)

-- A graph that is stopped at once.
abbrev stopping : Engine
stopping = executor (λ k. sample) 0

failed_chat :
    (submit shown printer stopping opened asked_thread).0.chatbot
    ≡ asked "stability"
      ∷ said (str "❌ Ошибка: GraphRecursionError: limit")
      ∷ said (str "❌ Ошибка обработки: limit")
      ∷ []
unfolding computed audit strip lstrip rstrip submit on_submit dispatch orchestrate_resume last_of
    show_events resume_events error_events show_failure show_event render with_user_turn
    rendered_messages
failed_chat = refl
