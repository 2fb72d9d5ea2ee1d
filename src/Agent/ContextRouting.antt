-- ===== src/Agent/ContextRouting.antt =====
-- What nodes.py's `context_analyzer` and `route_from_context` decide together.
use decision_maker_flow.Prelude.{
  ◌≡◌, ◌≢◌, refl, Bool, true, false, not, ◌&&◌, some, Outcome, ok, raised, ◌>>=◌, arith,
  if◌then◌else◌,
}
use decision_maker_flow.Json.{
  Json, null, str, arr, obj, bool, nil, Fields, truthy, or_default, get_or, len_positive, not_sized,
}
use decision_maker_flow.Agent.State.{AgentState}
use decision_maker_flow.Agent.Env.{
  AgentError, double_true_error, type_error, lift_type, context_analyzer_prompt, Env,
}
use decision_maker_flow.Agent.Nodes.{merge, invoke_json, analysis, context_analyzer}
use decision_maker_flow.Agent.Routing.{route_from_context}
use decision_maker_flow.Agent.Graph.{
  Node, analyzer, searcher, build_graph, superstep, after_context,
}

abbrev pub needs_data : Fields → Bool
needs_data parsed = truthy (get_or "needs_data" parsed (bool false))

abbrev pub queries : Fields → Json
queries parsed = get_or "search_queries" parsed (arr nil)

-- A value that `len` takes.
abbrev pub is_sized : Json → Bool
is_sized (str s) = true
is_sized (arr vs) = true
is_sized (obj fs) = true
is_sized _ = false

-- Where node 1 leads, from the parsed reply.
abbrev pub context_spec : Fields → Outcome AgentError Node
context_spec parsed =
    if needs_data parsed && truthy (queries parsed)
    then (if is_sized (queries parsed) then ok searcher else raised (type_error not_sized))
    else ok Node.questioner

len_positive_lem :
    (v : Json)
    → len_positive (or_default v (arr nil))
      ≡ (if truthy v then (if is_sized v then ok true else raised not_sized) else ok false)
unfolding len_positive truthy
len_positive_lem null = refl
len_positive_lem (bool true) = refl
len_positive_lem (bool false) = refl
len_positive_lem v = ground arith

-- The router reads the flag, and what `len` makes of the queries.
after_context_lem :
    (s : AgentState)
    → after_context s ≡ (
        if not s.is_data_sufficient && truthy s.search_queries
        then (if is_sized s.search_queries then ok searcher else raised (type_error not_sized))
        else ok Node.questioner)
unfolding after_context route_from_context lift_type
after_context_lem s = rw len_positive_lem (ground arith)

truthy_nil : truthy (arr nil) ≡ false
unfolding truthy
truthy_nil = refl

-- If the reply to node 1 is parsed, the superstep leads to the search exactly when the reply needs
-- data and its queries are truthy and have a length, fails with a TypeError when they are truthy
-- and have none, and leads to the question otherwise.
pub context_route :
    (env : Env) (s : AgentState) {parsed : Fields}
    → invoke_json env false (context_analyzer_prompt s.user_input s.tool_facts) ≡ ok parsed
    → (superstep build_graph env analyzer s >>= λ t. ok t.next)
      ≡ (context_spec parsed >>= λ n. ok (some n))
unfolding superstep build_graph context_analyzer analysis merge
context_route env s {parsed} h = rw h (rw after_context_lem (ground (arith, truthy_nil)))

-- Once the reply to node 1 is parsed, the superstep never raises DoubleTrueError, whatever the
-- reply's two flags are.
pub never_double_true :
    (env : Env) (s : AgentState) {parsed : Fields}
    → invoke_json env false (context_analyzer_prompt s.user_input s.tool_facts) ≡ ok parsed
    → superstep build_graph env analyzer s ≢ raised double_true_error
never_double_true env s h e = ground (arith, context_route env s h)
