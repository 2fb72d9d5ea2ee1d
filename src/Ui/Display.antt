-- ===== src/Ui/Display.antt =====
-- src/ui/presenter.py, `_filter_state_for_display`: what the State X-Ray shows of a state.
use Prim.Native.String.{◌++◌ as ◌++ˢ◌}
use decision_maker_flow.Prelude.{
  String, Bool, ◌||◌, List, [], ◌∷◌, ltb, len, prefix_of, str_eq, if◌then◌else◌, false,
}
use decision_maker_flow.Json.{Json, str, arr, obj, Items, nil, cons, Fields, end, field}

-- `_STATE_DISPLAY_FIELDS`
unfoldable pub state_display_fields : List String
state_display_fields =
    "dilemma" ∷ "search_queries" ∷ "tool_facts" ∷ "weights" ∷ "rewrite_count" ∷ "critique_feedback"
    ∷ "decision" ∷ "final_answer" ∷ "last_question" ∷ "needs_rewrite" ∷ []

-- `key in keys`
abbrev pub is_among : String → List String → Bool
is_among key [] = false
is_among key (k ∷ ks) = str_eq k key || is_among key ks

-- A text over `_MAX_VALUE_LENGTH` characters is cut there.
unfoldable pub truncate_text : String → String
truncate_text s = if ltb 500 (len s) then prefix_of 500 s ++ˢ "..." else s

unfoldable pub truncate_value : Json → Json
truncate_value (str s) = str (truncate_text s)
truncate_value v = v

unfoldable pub truncate_fields : Fields → Fields
truncate_fields end = end
truncate_fields (field k v fs) = field k (truncate_value v) (truncate_fields fs)

-- An element of a list: a text, or a dict one level deep.
unfoldable pub truncate_item : Json → Json
truncate_item (str s) = str (truncate_text s)
truncate_item (obj fs) = obj (truncate_fields fs)
truncate_item v = v

unfoldable pub truncate_items : Items → Items
truncate_items nil = nil
truncate_items (cons v vs) = cons (truncate_item v) (truncate_items vs)

unfoldable pub display_value : Json → Json
display_value (str s) = str (truncate_text s)
display_value (arr vs) = arr (truncate_items vs)
display_value v = v

unfoldable pub filter_state_for_display : Fields → Fields
filter_state_for_display end = end
filter_state_for_display (field k v fs) =
    let rest = filter_state_for_display fs in
    if is_among k state_display_fields then field k (display_value v) rest else rest
