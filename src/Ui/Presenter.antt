-- ===== src/Ui/Presenter.antt =====
-- src/ui/presenter.py: `_format_status` and `render`.
use Prim.Native.String.{◌++◌ as ◌++ˢ◌}
use decision_maker_flow.Prelude.{String, List, [], ◌∷◌, ◌++◌, str_eq, if◌then◌else◌}
use decision_maker_flow.Json.{Json, str, Fields, end, field, nonempty, truthy, get}
use decision_maker_flow.Ui.Events.{
  UiEvent, session_started, node_started, node_completed, state_snapshot, cove_rewrite,
  awaiting_user, resume_started, final_answer, error, other,
}
use decision_maker_flow.Ui.Display.{filter_state_for_display}

-- {"role": ..., "content": ...}
pub data Role : Type 0 where
  user assistant : Role

pub record ChatMessage : Type 0 where
  pub role : Role
  pub content : Json

-- `_NODE_DISPLAY_NAMES`
abbrev node_display_names : List (String × String)
node_display_names =
    ("1_Context_Analyzer", "Анализ контекста")
    ∷ ("2_Tool_Node", "Поиск данных")
    ∷ ("3_Weight_Questioner", "Формирование вопроса")
    ∷ ("3.5_Weight_Parser", "Разбор приоритетов")
    ∷ ("4_Draft_Generator", "Генерация черновика")
    ∷ ("5_CoVe_Critique", "Самокритика (CoVe)")
    ∷ ("6_Final_Synthesizer", "Финальный синтез")
    ∷ []

-- `names.get(node, node)`
abbrev name_in : List (String × String) → String → String
name_in [] node = node
name_in ((k, v) ∷ rest) node = let later = name_in rest node in if str_eq k node then v else later

-- `_format_status` of the kinds that take a node.
unfoldable pub format_node_status : (before after bare : String) (node_name : String) → String
format_node_status before after bare node_name =
    let node_display = name_in node_display_names node_name in
    if nonempty node_display then before ++ˢ node_display ++ˢ after else bare

-- `_format_status` of cove_rewrite; `shown` is the text of a value in an f-string.
unfoldable pub format_cove_status : (shown : Json → String) (rewrite_count : Json) → String
format_cove_status shown rewrite_count =
    if truthy rewrite_count
    then "🚨 Критик нашёл ошибку, переписываю (попытка " ++ˢ shown rewrite_count ++ˢ "/2)"
    else "🚨 Критик нашёл ошибку, переписываю..."

-- `_format_status`
unfoldable pub format_status : (shown : Json → String) (snapshot : Fields) → UiEvent → String
format_status shown snapshot (session_started t) = "⏳ Сессия запущена, анализирую дилемму..."
format_status shown snapshot (node_started n t) =
    format_node_status "⏳ Узел " ": начало обработки..." "⏳ Обработка..." n
format_status shown snapshot (node_completed n d t) =
    format_node_status "✅ Узел " ": завершено" "✅ Узел завершён" n
format_status shown snapshot (state_snapshot n d t) =
    format_node_status "📊 Состояние обновлено (" ")" "📊 Состояние обновлено" n
format_status shown snapshot (cove_rewrite f t) =
    format_cove_status shown (get "rewrite_count" snapshot)
format_status shown snapshot (awaiting_user q t) = "🤔 Нужен ваш ответ:"
format_status shown snapshot (resume_started t) = "▶ Продолжаю сессию с вашим ответом..."
format_status shown snapshot (final_answer a t) = "✅ Готово"
format_status shown snapshot (error m t) = "❌ Произошла ошибка"
format_status shown snapshot (other kind) = "ℹ\u{fe0f} " ++ˢ kind

-- `d[key] = value`
unfoldable pub put : String → Json → Fields → Fields
put key value end = field key value end
put key value (field k v fs) =
    let rest = put key value fs in if str_eq k key then field k value fs else field k v rest

-- `d.update(other)`
unfoldable pub update : Fields → Fields → Fields
update d end = d
update d (field k v fs) = update (put k v d) fs

-- The messages that an event appends to the chat.
unfoldable pub rendered_messages : (shown : Json → String) → UiEvent → List ChatMessage
rendered_messages shown (cove_rewrite f t) =
    record { role = assistant; content = str ("⚠\u{fe0f} CoVe-критика:\n\n" ++ˢ shown f) } ∷ []
rendered_messages shown (awaiting_user q t) = record { role = assistant; content = q } ∷ []
rendered_messages shown (final_answer a t) = record { role = assistant; content = str a } ∷ []
rendered_messages shown (error m t) =
    record { role = assistant; content = str ("❌ Ошибка: " ++ˢ m) } ∷ []
rendered_messages shown _ = []

unfoldable pub rendered_snapshot : UiEvent → Fields → Fields
rendered_snapshot (session_started t) snapshot = end
rendered_snapshot (node_completed n d t) snapshot = update snapshot (filter_state_for_display d)
rendered_snapshot (state_snapshot n d t) snapshot = update snapshot (filter_state_for_display d)
rendered_snapshot _ snapshot = snapshot

pub record Rendered : Type 0 where
  pub chat : List ChatMessage
  pub snapshot : Fields
  pub status : String

unfoldable pub render : (shown : Json → String) → UiEvent → List ChatMessage → Fields → Rendered
render shown event chat_history snapshot = record {
  chat = chat_history ++ rendered_messages shown event;
  snapshot = rendered_snapshot event snapshot;
  status = format_status shown snapshot event;
}
