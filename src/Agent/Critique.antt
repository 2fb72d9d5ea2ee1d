-- ===== src/Agent/Critique.antt =====
-- What nodes.py's `cove_critique` and `route_from_critique` decide together.
use decision_maker_flow.Prelude.{
  ℕ, ◌+◌, ◌≤◌, ◌≡◌, ap, Bool, false, ◌&&◌, Bool-cases, inl, inr, some, ok, arith, ltb,
  if◌then◌else◌,
}
use decision_maker_flow.Json.{Json, str, bool, Fields, truthy, or_default, get, get_or}
use decision_maker_flow.Agent.State.{AgentState}
use decision_maker_flow.Agent.Env.{Env}
use decision_maker_flow.Agent.Nodes.{critiqued, judge, audit, cove_critique, merge}
use decision_maker_flow.Agent.Routing.{route_from_critique}
use decision_maker_flow.Agent.Graph.{
  Node, drafter, critic, synthesizer, Step, build_graph, superstep, after_critique,
}

-- The model asks for a rewrite.
abbrev pub asked : Fields → Bool
asked parsed = truthy (get_or "needs_rewrite" parsed (bool false))

-- The model comments on the draft.
abbrev pub comments : Fields → Bool
comments parsed = truthy (get "critique_feedback" parsed)

abbrev pub feedback : Fields → Json
feedback parsed = or_default (get "critique_feedback" parsed) (str "")

-- The count that node 5 writes.
abbrev pub count_after : ℕ → Fields → ℕ
count_after c parsed = if ltb c 2 && asked parsed then c + 1 else c

pub truthy-or_default : (v : Json) → truthy (or_default v (str "")) ≡ truthy v
truthy-or_default v = elim (Bool-cases (truthy v)) [
  | inl h ↦ rw (h, h)
  | inr h ↦ unfold truthy in rw h
]

pub judge_lem :
    (c : ℕ) (parsed : Fields) → judge c parsed ≡ critiqued (feedback parsed) (count_after c parsed)
unfolding judge
judge_lem c parsed = ground arith

-- A count within the cap stays within it, and one audit adds at most one.
pub count_after_bounds :
    (c : ℕ) (parsed : Fields)
    → c ≤ 2
    → (c ≤ count_after c parsed) × (count_after c parsed ≤ 2) × (count_after c parsed ≤ c + 1)
count_after_bounds c parsed h = ground arith

-- Where node 5 leads, from the parsed reply and the count before it.
abbrev pub verdict : ℕ → Fields → Node
verdict c parsed = if comments parsed && ltb (count_after c parsed) 2 then drafter else synthesizer

abbrev pub after_audit : AgentState → Fields → Step
after_audit s parsed = record {
  delta = critiqued (feedback parsed) (count_after s.rewrite_count parsed);
  values = record s {
    critique_feedback = feedback parsed;
    rewrite_count = count_after s.rewrite_count parsed;
  };
  next = some (verdict s.rewrite_count parsed);
}

-- The router goes by the feedback's text and the count, not by the model's own flag.
pub after_critique_lem :
    (s : AgentState)
    → after_critique s
      ≡ ok (if truthy s.critique_feedback && ltb s.rewrite_count 2 then drafter else synthesizer)
unfolding after_critique route_from_critique
after_critique_lem s = rw truthy-or_default (ground arith)

cove_critique_lem :
    (env : Env) (s : AgentState) {parsed : Fields}
    → audit env s ≡ ok parsed
    → cove_critique env s ≡ ok (critiqued (feedback parsed) (count_after s.rewrite_count parsed))
unfolding cove_critique
cove_critique_lem env s {parsed} h = rw h (ap ok (judge_lem s.rewrite_count parsed))

-- If the audit of node 5 is parsed, its superstep writes the feedback and the count, one more only
-- if a rewrite is asked for and the count is below 2, and leads to node 4 if the feedback is truthy
-- and the new count below 2, else to node 6.
pub superstep-critic :
    (env : Env) (s : AgentState) {parsed : Fields}
    → audit env s ≡ ok parsed
    → superstep build_graph env critic s ≡ ok (after_audit s parsed)
unfolding superstep build_graph merge
superstep-critic env s {parsed} h =
    rw (cove_critique_lem env s h)
      (rw after_critique_lem (rw (truthy-or_default (get "critique_feedback" parsed))))
