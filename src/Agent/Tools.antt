-- ===== src/Agent/Tools.antt =====
-- src/features/decision_maker/tools.py: the search behind node 2.
use decision_maker_flow.Prelude.{List, [], ◌∷◌, Outcome, ok, raised, ◌>>=◌, traverse, if◌then◌else◌}
use decision_maker_flow.Json.{
  Json, str, arr, obj, nil, truthy, or_default, get, get_or, iterate, nonempty,
}
use decision_maker_flow.Agent.State.{Fact}
use decision_maker_flow.Agent.Env.{AgentError, attribute_error, lift_type, Env}

unfoldable pub stub_search_async : Json → Outcome AgentError (List Fact)
stub_search_async query =
    ok (record { query = query; result = str "<stubbed-fact>"; source = str "stub" } ∷ [])

-- One round of the loop over `raw_results`; `item.get` exists only on a dict.
unfoldable pub normalize_item : Json → Json → Outcome AgentError Fact
normalize_item query (obj item) = ok (record {
  query = query;
  result = or_default (or_default (get "content" item) (get "snippet" item)) (str "<empty>");
  source = or_default (get "url" item) (str "tavily");
})
normalize_item query _ = raised attribute_error

-- `response.get("results", [])`, or `[]` for what is no dict
unfoldable pub raw_results : Json → Json
raw_results (obj response) = get_or "results" response (arr nil)
raw_results _ = arr nil

unfoldable pub normalize : Json → Json → Outcome AgentError (List Fact)
unfolding normalize_item
normalize query results =
    if truthy results
    then (do listed ← lift_type (iterate results); traverse (normalize_item query) listed)
    else ok
        (record { query = query; result = str "<no-tavily-result>"; source = str "tavily" } ∷ [])

-- The adapter that `_build_tavily_adapter` returns.
unfoldable pub tavily_adapter :
    (Json → Outcome AgentError Json) → Json → Outcome AgentError (List Fact)
unfolding normalize raw_results
tavily_adapter search query = do response ← search query; normalize query (raw_results response)

unfoldable pub search_async : Env → Json → Outcome AgentError (List Fact)
search_async env query =
    if nonempty env.tavily_key
    then tavily_adapter env.tavily_search query
    else stub_search_async query
