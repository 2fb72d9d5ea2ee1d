-- ===== src/Ui/Xray.antt =====
-- src/ui/presenter.py: what can stand in the State X-Ray.
use decision_maker_flow.Prelude.{
  ◌≤◌, ◌≡◌, inl, inr, String, true, Option, none, some, List, [], ◌∷◌, arith, ltb, Bool-cases, len,
  prefix_of, len-append, len-prefix_of, str_eq, All,
}
use decision_maker_flow.Json.{
  Json, str, arr, obj, null, bool, int, float, Items, nil, cons, Fields, end, field,
}
use decision_maker_flow.Ui.Events.{
  UiEvent, session_started, node_started, node_completed, state_snapshot, cove_rewrite,
  awaiting_user, resume_started, final_answer, error, other,
}
use decision_maker_flow.Ui.Display.{
  state_display_fields, is_among, truncate_text, truncate_value, truncate_fields, truncate_item,
  truncate_items, display_value, filter_state_for_display,
}
use decision_maker_flow.Agent.Engine.{Checkpoint, Failure, Engine}
use decision_maker_flow.Ui.Controllers.{Printer}
use decision_maker_flow.Ui.Presenter.{ChatMessage, put, update, rendered_snapshot, render}
use decision_maker_flow.Ui.App.{
  Mode, Screen, show_event, show_failure, show_events, dispatch, on_submit,
}

-- A text with its ellipsis fits into 503 characters.
abbrev pub IsShort : Json → Type 0
IsShort (str s) = len s ≤ 503
IsShort v = Unit

abbrev pub IsShortFields : Fields → Type 0
IsShortFields end = Unit
IsShortFields (field k v fs) = IsShort v × IsShortFields fs

abbrev pub IsShortItems : Items → Type 0
IsShortItems nil = Unit
IsShortItems (cons (obj fs) vs) = IsShortFields fs × IsShortItems vs
IsShortItems (cons v vs) = IsShort v × IsShortItems vs

abbrev pub IsShortValue : Json → Type 0
IsShortValue (arr vs) = IsShortItems vs
IsShortValue v = IsShort v

-- Only keys of the allowlist; texts of at most 503 characters as values, in lists, and in the dicts
-- of lists. Nothing is said of a dict that is a value itself, or of what is nested deeper.
abbrev pub IsDisplayed : Fields → Type 0
IsDisplayed end = Unit
IsDisplayed (field k v fs) =
    (is_among k state_display_fields ≡ true) × IsShortValue v × IsDisplayed fs

truncate_text-len : (s : String) → len (truncate_text s) ≤ 503
unfolding truncate_text len
truncate_text-len s = elim (Bool-cases (ltb 500 (len s))) [
  | inl long ↦
      let enough : 500 ≤ len s = ground arith in
      rw (long, len-append (prefix_of 500 s) "...", len-prefix_of 500 s enough) (omega arith)
  | inr short ↦ rw short (ground arith)
]

truncate_fields-IsShort : (fs : Fields) → IsShortFields (truncate_fields fs)
unfolding truncate_fields truncate_value
truncate_fields-IsShort end = tt
truncate_fields-IsShort (field k (str s) fs) = (truncate_text-len s, truncate_fields-IsShort fs)
truncate_fields-IsShort (field k null fs) = (tt, truncate_fields-IsShort fs)
truncate_fields-IsShort (field k (bool b) fs) = (tt, truncate_fields-IsShort fs)
truncate_fields-IsShort (field k (int i) fs) = (tt, truncate_fields-IsShort fs)
truncate_fields-IsShort (field k (float f) fs) = (tt, truncate_fields-IsShort fs)
truncate_fields-IsShort (field k (arr vs) fs) = (tt, truncate_fields-IsShort fs)
truncate_fields-IsShort (field k (obj gs) fs) = (tt, truncate_fields-IsShort fs)

truncate_items-IsShort : (vs : Items) → IsShortItems (truncate_items vs)
unfolding truncate_items truncate_item
truncate_items-IsShort nil = tt
truncate_items-IsShort (cons (str s) vs) = (truncate_text-len s, truncate_items-IsShort vs)
truncate_items-IsShort (cons (obj fs) vs) = (truncate_fields-IsShort fs, truncate_items-IsShort vs)
truncate_items-IsShort (cons null vs) = (tt, truncate_items-IsShort vs)
truncate_items-IsShort (cons (bool b) vs) = (tt, truncate_items-IsShort vs)
truncate_items-IsShort (cons (int i) vs) = (tt, truncate_items-IsShort vs)
truncate_items-IsShort (cons (float f) vs) = (tt, truncate_items-IsShort vs)
truncate_items-IsShort (cons (arr ws) vs) = (tt, truncate_items-IsShort vs)

display_value-IsShort : (v : Json) → IsShortValue (display_value v)
unfolding display_value
display_value-IsShort (str s) = truncate_text-len s
display_value-IsShort (arr vs) = truncate_items-IsShort vs
display_value-IsShort null = tt
display_value-IsShort (bool b) = tt
display_value-IsShort (int i) = tt
display_value-IsShort (float f) = tt
display_value-IsShort (obj fs) = tt

pub filter_state_for_display-IsDisplayed : (fs : Fields) → IsDisplayed (filter_state_for_display fs)
unfolding filter_state_for_display
filter_state_for_display-IsDisplayed end = tt
filter_state_for_display-IsDisplayed (field k v fs) =
    let rest = filter_state_for_display-IsDisplayed fs in
    elim (Bool-cases (is_among k state_display_fields)) [
      | inl allowed ↦ rw allowed (allowed, display_value-IsShort v, rest)
      | inr dropped ↦ rw dropped rest
    ]

put-IsDisplayed :
    (k : String) (v : Json) (d : Fields)
    → is_among k state_display_fields ≡ true
    → IsShortValue v
    → IsDisplayed d
    → IsDisplayed (put k v d)
unfolding put
put-IsDisplayed k v end a s h = (a, s, tt)
put-IsDisplayed k v (field j w fs) a s h =
    let rest = put-IsDisplayed k v fs a s h.2 in
    elim (Bool-cases (str_eq j k)) [ inl e ↦ rw e (h.0, s, h.2) | inr e ↦ rw e (h.0, h.1, rest) ]

update-IsDisplayed : (d fs : Fields) → IsDisplayed d → IsDisplayed fs → IsDisplayed (update d fs)
unfolding update
update-IsDisplayed d end h g = h
update-IsDisplayed d (field k v fs) h g =
    update-IsDisplayed (put k v d) fs (put-IsDisplayed k v d g.0 g.1 h) g.2

rendered_snapshot-IsDisplayed :
    (e : UiEvent) (d : Fields) → IsDisplayed d → IsDisplayed (rendered_snapshot e d)
unfolding rendered_snapshot
rendered_snapshot-IsDisplayed (session_started t) d h = tt
rendered_snapshot-IsDisplayed (node_completed n g t) d h =
    update-IsDisplayed d (filter_state_for_display g) h (filter_state_for_display-IsDisplayed g)
rendered_snapshot-IsDisplayed (state_snapshot n g t) d h =
    update-IsDisplayed d (filter_state_for_display g) h (filter_state_for_display-IsDisplayed g)
rendered_snapshot-IsDisplayed (node_started n t) d h = h
rendered_snapshot-IsDisplayed (cove_rewrite f t) d h = h
rendered_snapshot-IsDisplayed (awaiting_user q t) d h = h
rendered_snapshot-IsDisplayed (resume_started t) d h = h
rendered_snapshot-IsDisplayed (final_answer a t) d h = h
rendered_snapshot-IsDisplayed (error m t) d h = h
rendered_snapshot-IsDisplayed (other k) d h = h

module _ (shown : Json → String) (printer : Printer) where
  show_failure-IsDisplayed :
      (failure : Option Failure) (s : Screen)
      → IsDisplayed s.state_xray
      → All (λ u. IsDisplayed u.state_xray) (show_failure printer failure s)
  unfolding show_failure
  show_failure-IsDisplayed none s h = tt
  show_failure-IsDisplayed (some exc) s h = (h, tt)

  show_events-IsDisplayed :
      (failure : Option Failure) (es : List UiEvent) (s : Screen)
      → IsDisplayed s.state_xray
      → All (λ u. IsDisplayed u.state_xray) (show_events shown printer failure es s)
  unfolding show_events show_event render
  show_events-IsDisplayed failure [] s h = show_failure-IsDisplayed failure s h
  show_events-IsDisplayed failure (e ∷ es) s h =
      let next = rendered_snapshot-IsDisplayed e s.state_xray h in
      (next, show_events-IsDisplayed failure es (show_event shown e s) next)

  -- Every update of a submission has an X-Ray with keys of the allowlist alone, in which a text has
  -- at most 503 characters where it is a value, an element of a list, or a value of a dict in a list,
  -- if the submission was given such a one. Of a dict that is a value itself, and of what is nested
  -- deeper, nothing is said.
  pub on_submit-IsDisplayed :
      (engine : Engine) (user_input thread_id : String) (mode : Mode) (chat : List ChatMessage)
      (snapshot : Fields) (c : Checkpoint)
      → IsDisplayed snapshot
      → All
          (λ u. IsDisplayed u.state_xray)
          (on_submit shown printer engine user_input thread_id mode chat snapshot c).updates
  unfolding on_submit
  on_submit-IsDisplayed engine user_input thread_id mode chat snapshot c h =
      let run = dispatch printer engine mode user_input thread_id c in
      show_events-IsDisplayed run.failure run.events _ h
