-- ===== src/Agent/Runaway.antt =====
-- The loop of nodes 4 and 5 of graph.py against an auditor that approves with a remark.
use decision_maker_flow.Prelude.{
  ℕ, zero, suc, ◌+◌, ◌<◌, ◌≡◌, refl, true, false, Option, some, List, [], ◌∷◌, ◌++◌, ap, ◌∙◌, ok,
  arith,
}
use decision_maker_flow.Json.{Fields}
use decision_maker_flow.Agent.State.{AgentState}
use decision_maker_flow.Agent.Env.{Env}
use decision_maker_flow.Agent.Nodes.{audit, draft_generator, Delta, merge}
use decision_maker_flow.Agent.Graph.{
  Node, drafter, critic, is_questioner, build_graph, Step, superstep,
}
use decision_maker_flow.Agent.Critique.{asked, comments, after_audit, superstep-critic}
use decision_maker_flow.Agent.Supersteps.{superstep-drafter}
use decision_maker_flow.Agent.Engine.{Chunk, Run, pauses, stopped}
use decision_maker_flow.Agent.Engine.Executor.{execute, execute_proceed, prepend}
use decision_maker_flow.Agent.RewriteLoop.{drafts}

-- The drafter answers, and the auditor approves every draft with a remark.
pub record ApprovesWithRemarks (env : Env) : Type 0 where
  pub drafting : (s : AgentState) → (d : Delta) × (draft_generator env s ≡ ok d)
  pub auditing :
      (s : AgentState)
      → (parsed : Fields) × (audit env s ≡ ok parsed)
        × (comments parsed ≡ true)
        × (asked parsed ≡ false)

abbrev pub double : ℕ → ℕ
double zero = zero
double (suc k) = suc (suc (double k))

-- The run that has these chunks in front.
abbrev follow : List Chunk → Run → Run
follow cs r = record r { chunks = cs ++ r.chunks }

drafts-append : (cs ds : List Chunk) → drafts (cs ++ ds) ≡ drafts cs + drafts ds
unfolding drafts
drafts-append [] ds = omega arith
drafts-append (c ∷ cs) ds = omega (arith, drafts-append cs ds)

never_pauses :
    (n : Node) (next : Option Node) → is_questioner n ≡ false → pauses build_graph n next ≡ false
unfolding build_graph
never_pauses n next h = rw h

module _ {env : Env} (remarks : ApprovesWithRemarks env) where
  drafts_on :
      (s : AgentState)
      → (t : Step) × (superstep build_graph env drafter s ≡ ok t)
        × (t.next ≡ some critic)
        × (t.values.rewrite_count ≡ s.rewrite_count)
  unfolding superstep build_graph
  drafts_on s =
      let (d, e) = remarks.drafting s in
      let t : Step = record { delta = d; values = merge d s; next = some critic } in
      let h : superstep build_graph env drafter s ≡ ok t = ground arith in
      let (a, b) = superstep-drafter env s h in (t, h, a, b)

  loops_back :
      (s : AgentState)
      → s.rewrite_count < 2
      → (t : Step) × (superstep build_graph env critic s ≡ ok t)
        × (t.next ≡ some drafter)
        × (t.values.rewrite_count ≡ s.rewrite_count)
  loops_back s low =
      let (parsed, a, c, q) = remarks.auditing s in
      (after_audit s parsed, superstep-critic env s a, ground arith, ground arith)

  round :
      (fuel : ℕ) (s : AgentState)
      → s.rewrite_count < 2
      → (u : AgentState) × (cs : List Chunk) × (u.rewrite_count < 2)
        × (drafts cs ≡ 1)
        × (execute build_graph (λ _. env) (suc (suc fuel)) (some drafter) s
            ≡ follow cs (execute build_graph (λ _. env) fuel (some drafter) u))
  unfolding drafts
  round fuel s low =
      let (t, h, nx, c) = drafts_on s in
      let (u, h', nx', c') = loops_back t.values (omega arith) in
      (
        u.values,
        record { node = drafter; delta = t.delta } ∷ record { node = critic; delta = u.delta } ∷ [],
        omega arith,
        refl,
        execute_proceed build_graph (λ _. env) (suc fuel) drafter s h
              (never_pauses drafter t.next refl)
            ∙ ap (prepend drafter t) (
                rw nx (
                  execute_proceed build_graph (λ _. env) fuel critic t.values h'
                    (never_pauses critic u.next refl)
                  ∙ rw nx' refl)),
      )

  -- Against such an auditor and drafter, a run of twice k supersteps from node 4 with a count below
  -- 2 makes k drafts and is stopped by the limit: the cap of two rewrites does not end it.
  pub runaway :
      (rounds : ℕ) (s : AgentState)
      → s.rewrite_count < 2
      → (drafts (execute build_graph (λ _. env) (double rounds) (some drafter) s).chunks ≡ rounds)
        × ((execute build_graph (λ _. env) (double rounds) (some drafter) s).failure ≡ some stopped)
  unfolding drafts execute
  runaway zero s low = (refl, refl)
  runaway (suc k) s low =
      let (u, cs, low', one, e) = round (double k) s low in
      let (ih, stops) = runaway k u low' in rw e (drafts-append cs _ ∙ omega arith, stops)
