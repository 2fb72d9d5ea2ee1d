-- ===== src/Agent/Search.antt =====
-- What the search of tools.py and node 2 of nodes.py add to the facts.
use mathlib.Core.List.{flatten}
use decision_maker_flow.Prelude.{
  ◌≡◌, ◌≢◌, ◌<◌, ◌≤◌, refl, traverse-All, ap, String, true, Bool-cases, inl, inr, List, [], ◌∷◌,
  ◌++◌, length-append, All, Outcome, ok, traverse, Outcome-cases, arith, length,
}
use decision_maker_flow.Json.{
  Json, str, arr, obj, nil, Fields, truthy, or_default, iterate, nonempty, TypeError,
}
use decision_maker_flow.Agent.State.{AgentState, Fact}
use decision_maker_flow.Agent.Env.{lift_type, Env}
use decision_maker_flow.Agent.Tools.{
  normalize_item, raw_results, normalize, tavily_adapter, stub_search_async, search_async,
}
use decision_maker_flow.Agent.Nodes.{tool_node, searched}

-- A search result that answers `query`, and is no empty list.
pub record Answering (query : Json) (facts : List Fact) : Type 0 where
  pub nonempty : facts ≢ []
  pub echoed : All (λ f. f.query ≡ query) facts

normalize_item-query :
    (query item : Json) {f : Fact} → normalize_item query item ≡ ok f → f.query ≡ query
unfolding normalize_item
normalize_item-query query (obj o) h = ground arith
normalize_item-query query _ h = cc

lift_type-ok : {A : Type 0} {a : A} (o : Outcome TypeError A) → lift_type o ≡ ok a → o ≡ ok a
unfolding lift_type
lift_type-ok o h = ground arith

iterate_nonempty : (v : Json) {l : List Json} → truthy v ≡ true → iterate v ≡ ok l → 0 < length l
unfolding truthy iterate
iterate_nonempty (str String.[]) t h = cc
iterate_nonempty (str (String.◌∷◌ c s)) t h = ground arith
iterate_nonempty (arr nil) t h = cc
iterate_nonempty (obj Fields.end) t h = cc
iterate_nonempty v t h = ground arith

one_fact :
    (query : Json) (result source : String) {facts : List Fact}
    → facts ≡ record { query = query; result = str result; source = str source } ∷ []
    → Answering query facts
one_fact query result source e = rw e (record { nonempty = λ p. cc; echoed = (refl, tt) })

normalize-Answering :
    (query results : Json) {facts : List Fact}
    → normalize query results ≡ ok facts
    → Answering query facts
unfolding normalize
normalize-Answering query results {facts} h = elim (Bool-cases (truthy results)) [
  | inl t ↦ elim (Outcome-cases (lift_type (iterate results))) [
    | inl (listed, l) ↦
        let mapped : traverse (normalize_item query) listed ≡ ok facts = ground arith in
        let (echoed, len) =
          traverse-All (λ (f : Fact). f.query ≡ query) (normalize_item query)
            (λ x y. normalize_item-query query x) listed mapped in
        record {
          nonempty = λ e. absurd (
              omega (
                arith,
                ap (λ (l : List Fact). length l) e,
                len,
                iterate_nonempty results t (lift_type-ok _ l),
              ));
          echoed = echoed;
        }
    | inr (e, l) ↦ absurd (ground arith)
  ]
  | inr t ↦ one_fact query "<no-tavily-result>" "tavily" (ground arith)
]

-- A search that succeeds is never empty, and each of its facts carries the query.
pub search_async-Answering :
    (env : Env) (query : Json) {facts : List Fact}
    → search_async env query ≡ ok facts
    → Answering query facts
unfolding search_async tavily_adapter stub_search_async
search_async-Answering env query {facts} h = elim (Bool-cases (nonempty env.tavily_key)) [
  | inl key ↦ elim (Outcome-cases (env.tavily_search query)) [
    | inl (response, r) ↦ normalize-Answering query (raw_results response) (ground arith)
    | inr (e, r) ↦ absurd (ground arith)
  ]
  | inr key ↦ one_fact query "<stubbed-fact>" "stub" (ground arith)
]

Answering-length : {query : Json} {facts : List Fact} → Answering query facts → 0 < length facts
Answering-length {facts = []} a = absurd (a.nonempty refl)
Answering-length {facts = f ∷ fs} a = omega arith

length-flatten :
    (lists : List (List Fact))
    → All (λ l. 0 < length l) lists
    → length lists ≤ length (flatten lists)
unfolding flatten
length-flatten [] a = omega arith
length-flatten (l ∷ ls) (h, a) = omega (arith, length-append l (flatten ls), length-flatten ls a)

-- If node 2 succeeds it keeps the facts in front and appends at least one for each query.
pub tool_node_facts :
    (env : Env) (s : AgentState) {facts : List Fact}
    → tool_node env s ≡ ok (searched facts)
    → (queries : List Json) × (new : List Fact) × (iterate (or_default s.search_queries (arr nil))
        ≡ ok queries)
      × (facts ≡ s.tool_facts ++ new)
      × (length queries ≤ length new)
unfolding tool_node
tool_node_facts env s {facts} h =
    elim (Outcome-cases (lift_type (iterate (or_default s.search_queries (arr nil))))) [
      | inr (e, l) ↦ absurd (ground arith)
      | inl (queries, l) ↦ elim (Outcome-cases (traverse (search_async env) queries)) [
        | inr (e, g) ↦ absurd (ground arith)
        | inl (gathered, g) ↦
            let (each, len) =
              traverse-All (λ (l : List Fact). 0 < length l) (search_async env)
                (λ q fs found. Answering-length (search_async-Answering env q found)) queries g in
            (
              queries,
              flatten gathered,
              lift_type-ok _ l,
              ground arith,
              omega (arith, len, length-flatten gathered each),
            )
      ]
    ]
