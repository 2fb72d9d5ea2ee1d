-- ===== src/Agent/Legs.antt =====
-- The two legs of a session over the graph of graph.py: up to the question, and from the answer.
use decision_maker_flow.Prelude.{◌≡◌, refl, Bool, true, false, ◌⊎◌, Option, none, some, ok, arith}
use decision_maker_flow.Agent.State.{AgentState}
use decision_maker_flow.Agent.Env.{Env}
use decision_maker_flow.Agent.Nodes.{
  merge, context_analyzer, tool_node, weight_questioner, weight_parser, draft_generator,
  cove_critique, final_synthesizer,
}
use decision_maker_flow.Agent.Graph.{
  Node, analyzer, searcher, questioner, parser, drafter, critic, synthesizer, build_graph, Step,
  superstep,
}
use decision_maker_flow.Agent.Supersteps.{
  superstep-drafter, superstep-parser, superstep-synthesizer, superstep-searcher,
  superstep-questioner, superstep-analyzer, superstep-critic_inv,
}
use decision_maker_flow.Agent.Engine.{Run, pauses, Leg, at_end, stop, fail, pause, proceed}

-- Nodes 1, 2 and 3.
abbrev pub is_gathering : Node → Bool
is_gathering analyzer = true
is_gathering searcher = true
is_gathering questioner = true
is_gathering _ = false

-- What no gathering node writes.
pub record SameAnalysis (s u : AgentState) : Type 0 where
  pub weights : u.weights ≡ s.weights
  pub draft : u.draft_analysis ≡ s.draft_analysis
  pub feedback : u.critique_feedback ≡ s.critique_feedback
  pub count : u.rewrite_count ≡ s.rewrite_count
  pub final : u.final_answer ≡ s.final_answer

-- What no node after the answer writes.
pub record SameBasis (s u : AgentState) : Type 0 where
  pub dilemma : u.dilemma ≡ s.dilemma
  pub facts : u.tool_facts ≡ s.tool_facts
  pub question : u.last_question ≡ s.last_question
  pub queries : u.search_queries ≡ s.search_queries

gathers :
    (env : Env) (n : Node) (s : AgentState) {t : Step}
    → is_gathering n ≡ true
    → superstep build_graph env n s ≡ ok t
    → SameAnalysis s t.values
unfolding superstep build_graph context_analyzer tool_node weight_questioner merge
gathers env analyzer s g h = ground arith
gathers env searcher s g h = ground arith
gathers env questioner s g h = ground arith
gathers env parser s g h = cc
gathers env drafter s g h = cc
gathers env critic s g h = cc
gathers env synthesizer s g h = cc

settles :
    (env : Env) (n : Node) (s : AgentState) {t : Step}
    → is_gathering n ≡ false
    → superstep build_graph env n s ≡ ok t
    → SameBasis s t.values
unfolding superstep build_graph weight_parser draft_generator cove_critique final_synthesizer merge
settles env analyzer s g h = cc
settles env searcher s g h = cc
settles env questioner s g h = cc
settles env parser s g h = ground arith
settles env drafter s g h = ground arith
settles env critic s g h = ground arith
settles env synthesizer s g h = ground arith

abbrev pub on_gathering : Option Node → Bool
on_gathering none = false
on_gathering (some n) = is_gathering n

-- A gathering node pauses exactly with the thread at node 3.5.
gathering_next :
    (env : Env) (n : Node) (s : AgentState) {t : Step}
    → is_gathering n ≡ true
    → superstep build_graph env n s ≡ ok t
    → ((pauses build_graph n t.next ≡ true) × (t.next ≡ some parser))
      ⊎ ((pauses build_graph n t.next ≡ false) × (on_gathering t.next ≡ true))
unfolding build_graph
gathering_next env analyzer s g h = ground (arith, superstep-analyzer env s h)
gathering_next env searcher s g h = ground (arith, superstep-searcher env s h)
gathering_next env questioner s g h = ground (arith, superstep-questioner env s h)
gathering_next env _ s g h = cc

-- The rest of the graph never pauses and never goes back.
pub settling_next :
    (env : Env) (n : Node) (s : AgentState) {t : Step}
    → is_gathering n ≡ false
    → superstep build_graph env n s ≡ ok t
    → (pauses build_graph n t.next ≡ false) × (on_gathering t.next ≡ false)
unfolding build_graph
settling_next env parser s g h = ground (arith, superstep-parser env s h)
settling_next env drafter s g h = ground (arith, superstep-drafter env s h)
settling_next env critic s g h = let (parsed, a, e) = superstep-critic_inv env s h in ground arith
settling_next env synthesizer s g h = ground (arith, superstep-synthesizer env s h)
settling_next env _ s g h = cc

SameAnalysis-trans : {s t u : AgentState} → SameAnalysis s t → SameAnalysis t u → SameAnalysis s u
SameAnalysis-trans a b = ground arith

SameBasis-trans : {s t u : AgentState} → SameBasis s t → SameBasis t u → SameBasis s u
SameBasis-trans a b = ground arith

-- From nodes 1, 2 and 3 a run leaves the weights, the draft, the audit, the count and the final
-- answer as they were, and if it does not fail it halts with the thread at node 3.5.
pub gathering_run :
    {P : Env → Type 0} {n : Option Node} {s : AgentState} {r : Run}
    → Leg build_graph P n s r
    → on_gathering n ≡ true
    → SameAnalysis s r.checkpoint.values × (r.failure ≡ none → r.checkpoint.next ≡ some parser)
gathering_run at_end g = cc
gathering_run stop g = (ground arith, λ e. cc)
gathering_run (fail env p h) g = (ground arith, λ e. cc)
gathering_run (pause {n} {s} env p h w) g =
    (gathers env n s g h, λ e. ground (arith, gathering_next env n s g h))
gathering_run (proceed {n} {s} env {t} p h w l) g =
    let again : on_gathering t.next ≡ true = ground (arith, gathering_next env n s g h) in
    let (same, end) = gathering_run l again in (SameAnalysis-trans (gathers env n s g h) same, end)

-- From the other nodes a run leaves the dilemma, the facts, the question and the queries as they
-- were, and if it does not fail it reaches the end of the graph.
pub settling_run :
    {P : Env → Type 0} {n : Option Node} {s : AgentState} {r : Run}
    → Leg build_graph P n s r
    → on_gathering n ≡ false
    → SameBasis s r.checkpoint.values × (r.failure ≡ none → r.checkpoint.next ≡ none)
settling_run at_end g = (ground arith, λ e. refl)
settling_run stop g = (ground arith, λ e. cc)
settling_run (fail env p h) g = (ground arith, λ e. cc)
settling_run (pause {n} {s} env p h w) g = absurd (ground (arith, settling_next env n s g h))
settling_run (proceed {n} {s} env {t} p h w l) g =
    let again : on_gathering t.next ≡ false = ground (arith, settling_next env n s g h) in
    let (same, end) = settling_run l again in (SameBasis-trans (settles env n s g h) same, end)
