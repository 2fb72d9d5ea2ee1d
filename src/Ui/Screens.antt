-- ===== src/Ui/Screens.antt =====
-- src/ui/: the screen that a submission leaves, event by event.
use Prim.Native.String.{◌++◌ as ◌++ˢ◌}
use mathlib.Core.List.{append-nil, append_assoc}
use decision_maker_flow.Prelude.{
  ◌≡◌, refl, ap, ◌∙◌, String, Option, none, some, List, [], ◌∷◌, ◌++◌,
}
use decision_maker_flow.Json.{Json, str}
use decision_maker_flow.Agent.Engine.{Checkpoint, Failure, Chunk, Engine}
use decision_maker_flow.Agent.Session.{
  begun, answered, question_of, stream_session, stream_resume_session,
}
use decision_maker_flow.Ui.Events.{
  UiEvent, session_started, node_completed, state_snapshot, resume_started, final_answer, node_id,
  delta_dict,
}
use decision_maker_flow.Ui.Controllers.{
  Printer, error_events, orchestrate_start, orchestrate_resume,
}
use decision_maker_flow.Ui.Presenter.{render, rendered_messages}
use decision_maker_flow.Ui.Streams.{
  plain_events, sentinel_event, start_events-stream, resume_events-stream,
}
use decision_maker_flow.Ui.Views.{View, view, said, leg, reply_in, turned, concluded, turn}
use decision_maker_flow.Ui.App.{
  Mode, awaiting_submit, awaiting_user_answer, Screen, next_mode, show_event, show_failure,
  show_events, dispatch, on_submit, last_of, submit,
}

module _ (shown : Json → String) (printer : Printer) where
  abbrev fold : List UiEvent → Screen → Screen
  fold [] s = s
  fold (e ∷ es) s = fold es (show_event shown e s)

  abbrev failed : Option Failure → Screen → Screen
  failed failure s = last_of s (show_failure printer failure s)

  last-show_events :
      (failure : Option Failure) (es : List UiEvent) (s : Screen)
      → last_of s (show_events shown printer failure es s) ≡ failed failure (fold es s)
  unfolding show_events last_of
  last-show_events failure [] s = refl
  last-show_events failure (e ∷ es) s = last-show_events failure es (show_event shown e s)

  -- Events on the view.
  abbrev see : UiEvent → View → View
  see e v = record v { chat = v.chat ++ rendered_messages shown e; mode = next_mode e v.mode }

  abbrev see_all : List UiEvent → View → View
  see_all [] v = v
  see_all (e ∷ es) v = see_all es (see e v)

  abbrev see_failed : Option Failure → View → View
  see_failed none v = v
  see_failed (some exc) v = record v {
    chat = v.chat ++ said (str ("❌ Ошибка обработки: " ++ˢ printer.message exc)) ∷ [];
  }

  view-fold : (es : List UiEvent) (s : Screen) → view (fold es s) ≡ see_all es (view s)
  unfolding show_event render
  view-fold [] s = refl
  view-fold (e ∷ es) s = view-fold es (show_event shown e s)

  view-failed :
      (failure : Option Failure) (s : Screen)
      → view (failed failure s) ≡ see_failed failure (view s)
  unfolding show_failure last_of
  view-failed none s = refl
  view-failed (some exc) s = refl

  see_all-append :
      (es fs : List UiEvent) (v : View) → see_all (es ++ fs) v ≡ see_all fs (see_all es v)
  see_all-append [] fs v = refl
  see_all-append (e ∷ es) fs v = see_all-append es fs (see e v)

  see-silent :
      (e : UiEvent) (v : View)
      → rendered_messages shown e ≡ []
      → next_mode e v.mode ≡ v.mode
      → see e v ≡ v
  see-silent e v h m = rw (h, m, append-nil v.chat) refl

  see_all-plain_events :
      (t : String) (cs : List Chunk) (v : View) → see_all (plain_events t cs) v ≡ v
  unfolding rendered_messages next_mode
  see_all-plain_events t [] v = refl
  see_all-plain_events t (c ∷ cs) v =
      let completed = node_completed (node_id c.node) (delta_dict c.delta) t in
      let snapshot = state_snapshot (node_id c.node) (delta_dict c.delta) t in
      ap (λ u. see_all (plain_events t cs) (see snapshot u)) (see-silent completed v refl refl)
      ∙ ap (see_all (plain_events t cs)) (see-silent snapshot v refl refl)
      ∙ see_all-plain_events t cs v

  -- A leg whose sentinel becomes the event `e`.
  see_leg :
      (t : String) (cs : List Chunk) (failure : Option Failure) (e : UiEvent) (reply : Json)
      (v : View)
      → rendered_messages shown e ≡ said reply ∷ []
      → next_mode e v.mode ≡ turned v.mode
      → see_failed failure (
          see_all
            ((plain_events t cs ++ sentinel_event failure e) ++ error_events printer t failure)
            v)
        ≡ concluded printer failure reply v
  unfolding error_events rendered_messages next_mode
  see_leg t cs none e reply v h m =
      rw
        (
          see_all-append (plain_events t cs ++ e ∷ []) [] v,
          see_all-append (plain_events t cs) (e ∷ []) v,
          see_all-plain_events t cs v,
          h,
          m,
        )
        refl
  see_leg t cs (some exc) e reply v h m =
      rw
        (
          see_all-append (plain_events t cs ++ []) _ v,
          see_all-append (plain_events t cs) [] v,
          see_all-plain_events t cs v,
          append_assoc v.chat _ _,
        )
        refl

  view-show_events :
      (failure : Option Failure) (e : UiEvent) (es : List UiEvent) (s s₀ : Screen)
      → see e (view s₀) ≡ view s₀
      → view (last_of s (show_events shown printer failure (e ∷ es) s₀))
        ≡ see_failed failure (see_all es (view s₀))
  unfolding show_events last_of show_event render
  view-show_events failure e es s s₀ silent =
      ap view (last-show_events failure es (show_event shown e s₀))
      ∙ view-failed failure (fold es (show_event shown e s₀))
      ∙ ap (see_failed failure) (view-fold es (show_event shown e s₀))
      ∙ ap (λ v. see_failed failure (see_all es v)) silent

  view-dispatch :
      (engine : Engine) (m : Mode) (text t : String) (c : Checkpoint) (s s₀ : Screen)
      → s₀.mode ≡ m
      → let run = dispatch printer engine m text t c in
        let streamed = leg m engine text t c in
        view (last_of s (show_events shown printer run.failure run.events s₀))
        ≡ concluded printer streamed.failure (reply_in m streamed.checkpoint) (view s₀)
  unfolding dispatch orchestrate_start orchestrate_resume stream_session stream_resume_session
      rendered_messages next_mode
  view-dispatch engine awaiting_submit text t c s s₀ h =
      let run = engine.astream (begun text c) in
      let question = question_of run.checkpoint in
      let es = start_events-stream t t run.chunks run.failure question in
      view-show_events run.failure (session_started t) _ s s₀
        (see-silent (session_started t) (view s₀) refl refl)
      ∙ ap
          (λ es.
            see_failed run.failure (see_all (es ++ error_events printer t run.failure) (view s₀)))
          es
      ∙ see_leg t run.chunks run.failure (UiEvent.awaiting_user question t) question (view s₀) refl
          (rw h refl)
  view-dispatch engine awaiting_user_answer text t c s s₀ h =
      let run = engine.astream (answered text c) in
      let answer = run.checkpoint.values.final_answer in
      let es = resume_events-stream t t run.chunks run.failure answer in
      view-show_events run.failure (resume_started t) _ s s₀
        (see-silent (resume_started t) (view s₀) refl refl)
      ∙ ap
          (λ es.
            see_failed run.failure (see_all (es ++ error_events printer t run.failure) (view s₀)))
          es
      ∙ see_leg t run.chunks run.failure (final_answer answer t) (str answer) (view s₀) refl
          (rw h refl)

  checkpoint-dispatch :
      (engine : Engine) (m : Mode) (text t : String) (c : Checkpoint)
      → (dispatch printer engine m text t c).checkpoint ≡ (leg m engine text t c).checkpoint
  unfolding dispatch orchestrate_start orchestrate_resume
  checkpoint-dispatch engine awaiting_submit text t c = refl
  checkpoint-dispatch engine awaiting_user_answer text t c = refl

  -- A click on the button does to the view what `turn` says, whatever the mode and however the leg
  -- ends: the reply of the leg and the other mode, or two messages on the exception and the same
  -- mode. The thread is left as the leg leaves it.
  pub submit-view :
      (engine : Engine) (s : Screen) (c : Checkpoint)
      → let after = submit shown printer engine s c in
        (view after.0 ≡ turn printer engine s.textbox c (view s))
        × (after.1 ≡ (leg s.mode engine s.textbox s.thread_id c).checkpoint)
  unfolding submit on_submit dispatch
  submit-view engine s c = (
    view-dispatch engine s.mode s.textbox s.thread_id c s _ refl,
    checkpoint-dispatch engine s.mode s.textbox s.thread_id c,
  )
