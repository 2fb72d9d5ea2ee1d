-- ===== src/Server/InterleavingTests.antt =====
-- Interleaved requests on the server of Samples.
use decision_maker_flow.Prelude.{◌≡◌, refl, false, none, some, List, [], ◌∷◌, arith}
use decision_maker_flow.Prelude.Int.{pos, ◌-ℤ◌}
use decision_maker_flow.Agent.Samples.{asked_thread}
use decision_maker_flow.Server.Saver.{no_fault, get_last_touched}
use decision_maker_flow.Server.Saver.Plain.{plain}
use decision_maker_flow.Server.Idempotency.Log.{log}
use decision_maker_flow.Server.TurnApi.Handlers.{generate}
use decision_maker_flow.Server.Interleaving.{end_stream, run_tick, Action, request, World, perform}
use decision_maker_flow.Server.Isolation.{isolated}
use decision_maker_flow.Server.Revival.{revived}
use decision_maker_flow.Server.Samples.{
  served, server, two_threads, two_threads-IsKeyed, cfg, sound, at, start, answer, plain_text,
}

abbrev idle : World plain (log 600)
idle = record { server = server; streams = [] }

-- A new session and a turn of "old", which is deleted before its turn ends, and a tick.
abbrev busy : List Action
busy =
    request (at "u1" 905) start
    ∷ request (at "u2" 910) (answer "old" none)
    ∷ Action.done 920 no_fault "old"
    ∷ end_stream 1
    ∷ run_tick sound 1000
    ∷ end_stream 0
    ∷ []

isolated_example :
    let after = (perform plain_text (pos 600) busy idle).server.checkpointer in
    (get_last_touched "new" after ≡ some 900)
    × (plain.aget_tuple "new" after.inner ≡ plain.aget_tuple "new" two_threads.inner)
unfolding served server two_threads
isolated_example =
    isolated plain_text cfg 120 900 "new" busy idle refl refl two_threads-IsKeyed refl tt
      (refl, (refl, (refl, (tt, (omega arith, (tt, tt))))))

revived_example :
    let done_between =
      request (at "u2" 910) (answer "old" none) ∷ Action.done 920 no_fault "old" ∷ [] in
    let all =
      request (at "u2" 910) (answer "old" none)
      ∷ Action.done 920 no_fault "old"
      ∷ end_stream 0
      ∷ [] in
    let after = (perform plain_text (pos 600) all idle).server in
    (plain.aget_tuple "old"
        (perform plain_text (pos 600) done_between idle).server.checkpointer.inner
      ≡ none)
    × (plain.aget_tuple "old" after.checkpointer.inner
        ≡ some (generate (at "u2" 910) false "stability" "old" server).checkpoint)
    × (after.metrics.active_sessions ≡ pos 0 -ℤ pos 1)
unfolding served server two_threads
revived_example =
    revived plain_text (pos 600) (at "u2" 910) (answer "old" none) 920 "old" idle
      {checkpoint = asked_thread} refl refl refl refl
