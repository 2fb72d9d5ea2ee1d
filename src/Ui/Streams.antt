-- ===== src/Ui/Streams.antt =====
-- The events of a stream of the graph: what the controllers make of its chunks and its sentinel.
use decision_maker_flow.Prelude.{
  ◌≡◌, refl, String, Option, none, some, List, [], ◌∷◌, ◌++◌, map, arith,
}
use decision_maker_flow.Json.{Json, get, get_or, truthy}
use decision_maker_flow.Agent.Nodes.{
  Delta, analyzed, searched, questioned, weighed, drafted, critiqued, synthesized,
}
use decision_maker_flow.Agent.Engine.{Failure, Chunk}
use decision_maker_flow.Agent.Session.{Message, sentinel}
use decision_maker_flow.Ui.Events.{
  UiEvent, node_completed, state_snapshot, final_answer, node_id, delta_dict,
}
use decision_maker_flow.Ui.Controllers.{
  extract_cove_rewrite_event, chunk_events, start_events, resume_events,
}

-- No partial state of a node has a decision.
pub no_cove_rewrite :
    (d : Delta) (thread_id : String) → extract_cove_rewrite_event (delta_dict d) thread_id ≡ none
unfolding extract_cove_rewrite_event delta_dict get get_or truthy
no_cove_rewrite (analyzed d b q) t = refl
no_cove_rewrite (searched fs) t = refl
no_cove_rewrite (questioned q) t = refl
no_cove_rewrite (weighed w none) t = refl
no_cove_rewrite (weighed w (some a)) t = refl
no_cove_rewrite (drafted d) t = refl
no_cove_rewrite (critiqued c n) t = refl
no_cove_rewrite (synthesized a) t = refl

abbrev pub plain_events : String → List Chunk → List UiEvent
plain_events t [] = []
plain_events t (c ∷ cs) =
    node_completed (node_id c.node) (delta_dict c.delta) t
    ∷ state_snapshot (node_id c.node) (delta_dict c.delta) t
    ∷ plain_events t cs

plain_chunk :
    (t : String) (c : Chunk) (rest : List UiEvent)
    → chunk_events t c ++ rest
      ≡ node_completed (node_id c.node) (delta_dict c.delta) t
        ∷ state_snapshot (node_id c.node) (delta_dict c.delta) t
        ∷ rest
unfolding chunk_events
plain_chunk t c rest = ground (arith, no_cove_rewrite c.delta t)

abbrev pub sentinel_event : Option Failure → UiEvent → List UiEvent
sentinel_event none e = e ∷ []
sentinel_event (some f) e = []

pub start_events-stream :
    (t u : String) (cs : List Chunk) (failure : Option Failure) (q : Json)
    → start_events t (map Message.update cs ++ sentinel failure (Message.awaiting_user q u))
      ≡ plain_events t cs ++ sentinel_event failure (UiEvent.awaiting_user q t)
unfolding start_events
start_events-stream t u [] none q = refl
start_events-stream t u [] (some f) q = refl
start_events-stream t u (c ∷ cs) failure q =
    rw (plain_chunk t c _, start_events-stream t u cs failure q) refl

pub resume_events-stream :
    (t u : String) (cs : List Chunk) (failure : Option Failure) (a : String)
    → resume_events t (map Message.update cs ++ sentinel failure (Message.done a u))
      ≡ plain_events t cs ++ sentinel_event failure (final_answer a t)
unfolding resume_events
resume_events-stream t u [] none a = refl
resume_events-stream t u [] (some f) a = refl
resume_events-stream t u (c ∷ cs) failure a =
    rw (plain_chunk t c _, resume_events-stream t u cs failure a) refl
