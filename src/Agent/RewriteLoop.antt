-- ===== src/Agent/RewriteLoop.antt =====
-- The loop of nodes 4 and 5 of graph.py: how many drafts a run can make.
use decision_maker_flow.Prelude.{
  ℕ, zero, suc, ◌+◌, ◌≤◌, ◌≡◌, leb, if◌then◌else◌, true, false, Option, some, List, [], ◌∷◌, ok,
  arith,
}
use decision_maker_flow.Json.{Fields}
use decision_maker_flow.Agent.State.{AgentState}
use decision_maker_flow.Agent.Env.{Env}
use decision_maker_flow.Agent.Nodes.{audit}
use decision_maker_flow.Agent.Graph.{
  Node, analyzer, searcher, questioner, parser, drafter, critic, synthesizer, build_graph, Step,
  superstep,
}
use decision_maker_flow.Agent.Critique.{asked, comments}
use decision_maker_flow.Agent.Supersteps.{
  superstep-drafter, superstep-parser, superstep-synthesizer, superstep-searcher,
  superstep-questioner, superstep-analyzer, superstep-critic_inv,
}
use decision_maker_flow.Agent.Engine.{Chunk, Run, pauses, Leg, at_end, stop, fail, pause, proceed}

abbrev pub drafter_count : Node → ℕ
drafter_count drafter = 1
drafter_count _ = 0

-- The drafts among the chunks of a run.
unfoldable pub drafts : List Chunk → ℕ
drafts [] = 0
drafts (c ∷ cs) = drafter_count c.node + drafts cs

-- The auditor comments only where it asks for a rewrite.
abbrev pub IsConsistent : Env → Type 0
IsConsistent env =
    (s : AgentState) (parsed : Fields)
    → audit env s ≡ ok parsed
    → comments parsed ≡ true
    → asked parsed ≡ true

-- The drafts that are left from a node, with `c` rewrites counted.
unfoldable pub draft_budget : Option Node → ℕ → ℕ
draft_budget (some critic) zero = 1
draft_budget (some drafter) zero = 2
draft_budget (some drafter) (suc c) = 1
draft_budget (some parser) zero = 2
draft_budget (some parser) (suc c) = 1
draft_budget _ c = 0

spend :
    (env : Env) (n : Node) (s : AgentState) {t : Step}
    → IsConsistent env
    → superstep build_graph env n s ≡ ok t
    → pauses build_graph n t.next ≡ false
    → drafter_count n + draft_budget t.next t.values.rewrite_count
      ≤ draft_budget (some n) s.rewrite_count
unfolding draft_budget build_graph
spend env analyzer s con h p = ground (arith, superstep-analyzer env s h)
spend env searcher s con h p = ground (arith, superstep-searcher env s h)
spend env questioner s con h p = ground (arith, superstep-questioner env s h)
spend env parser s con h p = ground (arith, superstep-parser env s h)
spend env drafter s con h p = ground (arith, superstep-drafter env s h)
spend env critic s con h p =
    let (parsed, a, e) = superstep-critic_inv env s h in ground (arith, con s parsed a)
spend env synthesizer s con h p = ground (arith, superstep-synthesizer env s h)

drafts_paused :
    (n : Node) (next : Option Node) → pauses build_graph n next ≡ true → drafter_count n ≡ 0
unfolding build_graph
drafts_paused n next p = ground arith

drafts-le-budget :
    {n : Option Node} {s : AgentState} {r : Run}
    → Leg build_graph IsConsistent n s r
    → drafts r.chunks ≤ draft_budget n s.rewrite_count
unfolding drafts
drafts-le-budget at_end = omega arith
drafts-le-budget stop = omega arith
drafts-le-budget (fail env con h) = omega arith
drafts-le-budget (pause {n} {s} env con h p) = omega (arith, drafts_paused n _ p)
drafts-le-budget (proceed {n} {s} env con h p l) =
    omega (arith, spend env n s con h p, drafts-le-budget l)

draft_budget-le : (n : Option Node) (c : ℕ) → draft_budget n c ≤ (if leb 1 c then 1 else 2)
unfolding draft_budget
draft_budget-le n c = ground arith

-- With an auditor that comments only where it asks for a rewrite, a run makes at most two drafts,
-- and at most one if a rewrite has been counted: one rewrite, from whatever node it starts.
pub drafts_bounded :
    {n : Option Node} {s : AgentState} {r : Run}
    → Leg build_graph IsConsistent n s r
    → drafts r.chunks ≤ (if leb 1 s.rewrite_count then 1 else 2)
drafts_bounded {n} {s} l = omega (arith, drafts-le-budget l, draft_budget-le n s.rewrite_count)
