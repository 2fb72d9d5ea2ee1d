-- ===== src/Agent/Routing.antt =====
-- src/features/decision_maker/nodes.py: the routers after node 1 and node 5.
use decision_maker_flow.Prelude.{
  Bool, true, false, ◌&&◌, Outcome, ok, raised, ◌>>=◌, ltb, if◌then◌else◌,
}
use decision_maker_flow.Json.{Json, null, str, arr, nil, truthy, or_default, len_positive}
use decision_maker_flow.Agent.State.{AgentState}
use decision_maker_flow.Agent.Env.{AgentError, double_true_error, lift_type}

pub data ContextRoute : Type 0 where
  tool questioner : ContextRoute

pub data CritiqueRoute : Type 0 where
  rewrite finalize : CritiqueRoute

-- `not bool(is_data_sufficient) and len(search_queries) > 0`
derived_needs_data : AgentState → Outcome AgentError Bool
derived_needs_data state =
    if state.is_data_sufficient
    then ok false
    else lift_type (len_positive (or_default state.search_queries (arr nil)))

abbrev is_none : Json → Bool
is_none null = true
is_none _ = false

-- The keys `_needs_data` and `_ready_for_weights` of the dict, `null` where it has none. They are
-- no fields of `DecisionMakerState`: tests set them.
explicit_flags : Json → Json → Bool → Outcome AgentError Bool
explicit_flags explicit_needs_data explicit_ready_for_weights needs_data =
    if is_none explicit_needs_data
    then ok needs_data
    else if is_none explicit_ready_for_weights
    then ok needs_data
    else if truthy explicit_needs_data && truthy explicit_ready_for_weights
    then raised double_true_error
    else ok (truthy explicit_needs_data)

unfoldable pub route_from_context :
    (explicit_needs_data explicit_ready_for_weights : Json)
    → AgentState
    → Outcome AgentError ContextRoute
unfolding derived_needs_data explicit_flags
route_from_context explicit_needs_data explicit_ready_for_weights state = do
  derived ← derived_needs_data state
  needs_data ← explicit_flags explicit_needs_data explicit_ready_for_weights derived
  ok (if needs_data then tool else questioner)

unfoldable pub route_from_critique : AgentState → CritiqueRoute
route_from_critique state =
    if truthy (or_default state.critique_feedback (str "")) && ltb state.rewrite_count 2
    then rewrite
    else finalize
