-- ===== src/Server/Tests.antt =====
-- The theorems about the server at concrete inputs.
use mathlib.Core.Bool.{false≢true}
use mathlib.Core.Bool.{false≢true}
use decision_maker_flow.Prelude.{ap, str_eq}
use decision_maker_flow.Prelude.{ap, ◌≡◌, refl, true, false, none, some, ok, raised, arith, str_eq}
use decision_maker_flow.Prelude.Int.{pos, ◌+ℤ◌, ◌-ℤ◌}
use decision_maker_flow.Table.{listed}
use decision_maker_flow.Json.{str}
use decision_maker_flow.Agent.Graph.{parser}
use decision_maker_flow.Agent.Engine.{Checkpoint}
use decision_maker_flow.Agent.Session.{question_of}
use decision_maker_flow.Agent.Samples.{asked_thread}
use decision_maker_flow.Server.Lifespan.{
  no_fault as start_no_fault, closed, lifespan, allowed, released,
}
use decision_maker_flow.Protocol.{follows}
use decision_maker_flow.Server.Health.{passed, fail, responded, handle_readyz}
use decision_maker_flow.Server.Middleware.{matches_correlation_id, correlation_id}
use decision_maker_flow.Server.Saver.{no_fault, get_last_touched, list_stale}
use decision_maker_flow.Server.Saver.Plain.{plain}
use decision_maker_flow.Server.Metrics.{fresh}
use decision_maker_flow.Server.Sweeper.{tick}
use decision_maker_flow.Server.Sweeping.{tick_evicts, tick_counts, in_flight_safe}
use decision_maker_flow.Server.Idempotency.{chars, all_key_chars, before_newline}
use decision_maker_flow.Server.TurnApi.{running, done, TurnResponse, session_not_found}
use decision_maker_flow.Server.TurnApi.Handlers.{handle_turn, handle_done}
use decision_maker_flow.Server.Turns.{new_session, resumed_session}
use decision_maker_flow.Server.Lifecycle.{done_missing_listed, unknown_session, done_twice}
use decision_maker_flow.Server.Replay.{retried_start, repeated_message, foreign_replay}
use decision_maker_flow.Server.Answers.{start_answered, resume_answered}
use decision_maker_flow.Server.Samples.{
  served, two_threads, two_threads-IsKeyed, sound, cfg, server, at, start, answer, question_reply,
  plain_text, started_server, start_test, answered_server, final_reply, answer_test,
}

tick_evicts_example :
    let after = (tick sound (pos 600) 1000 two_threads fresh).checkpointer in
    (get_last_touched "old" after ≡ none) × (plain.aget_tuple "old" after.inner ≡ none)
unfolding served two_threads
tick_evicts_example = tick_evicts sound (pos 600) 1000 two_threads fresh "old" two_threads-IsKeyed

tick_counts_example :
    let after = (tick sound (pos 600) 1000 two_threads fresh).metrics in
    (after.sweeper_runs_total ≡ 1)
    × (after.sweeper_deleted_total ≡ 1)
    × (after.active_sessions +ℤ pos 1 ≡ pos 0)
unfolding served two_threads
tick_counts_example = tick_counts sound (pos 600) 1000 two_threads fresh

in_flight_safe_example :
    let after = (tick sound (pos 600) 1000 two_threads fresh).checkpointer in
    (get_last_touched "new" after ≡ some 900)
    × (plain.aget_tuple "new" after.inner ≡ plain.aget_tuple "new" two_threads.inner)
unfolding served two_threads
in_flight_safe_example =
    in_flight_safe sound cfg 120 1000 900 two_threads fresh "new" refl refl two_threads-IsKeyed refl
      (omega arith)

new_session_example :
    (checkpoint : Checkpoint) × (plain.aget_tuple "u1" started_server.checkpointer.inner
      ≡ some checkpoint)
    × (checkpoint.next ≡ some parser)
    × (checkpoint.values.user_input ≡ "rent or buy?")
    × (checkpoint.values.rewrite_count ≡ 0)
    × (question_of checkpoint ≡ str "what matters?")
    × ((question_reply "u1").session_id ≡ "u1")
    × (running ≡ running)
    × (started_server.metrics.active_sessions ≡ server.metrics.active_sessions +ℤ pos 1)
    × (plain.aget_tuple "old" started_server.checkpointer.inner
        ≡ plain.aget_tuple "old" server.checkpointer.inner)
unfolding served server two_threads
new_session_example =
    new_session plain_text (at "u1" 1000) start server "old" refl refl refl start_test

resumed_session_example :
    (checkpoint : Checkpoint) × (plain.aget_tuple "u1" answered_server.checkpointer.inner
      ≡ some checkpoint)
    × (checkpoint.next ≡ none)
    × (checkpoint.values.user_answer ≡ "stability")
    × (checkpoint.values.dilemma ≡ asked_thread.values.dilemma)
    × (checkpoint.values.tool_facts ≡ asked_thread.values.tool_facts)
    × (checkpoint.values.final_answer ≡ "answer")
    × (final_reply.session_id ≡ "u1")
    × (done ≡ done)
    × (answered_server.metrics.active_sessions ≡ started_server.metrics.active_sessions)
    × (plain.aget_tuple "old" answered_server.checkpointer.inner
        ≡ plain.aget_tuple "old" started_server.checkpointer.inner)
unfolding served server two_threads started_server
resumed_session_example =
    resumed_session plain_text (at "u2" 1010) (answer "u1" none) started_server "u1" "old"
      {before = asked_thread} refl refl refl refl refl answer_test

unknown_session_example :
    let (reply, after) = handle_turn plain_text (at "u2" 1010) (answer "u9" none) server in
    (reply ≡ raised session_not_found)
    × (after.checkpointer.inner ≡ server.checkpointer.inner)
    × (after.idempotency_cache ≡ server.idempotency_cache)
    × (after.metrics ≡ server.metrics)
    × (listed "u9" (list_stale 1700 (pos 600) after.checkpointer) ≡ true)
unfolding served server two_threads
unknown_session_example =
    unknown_session plain_text (at "u2" 1010) (answer "u9" none) "u9" server 1700 600 refl
      (λ e. absurd (false≢true (ap (λ k. str_eq k "") e))) refl two_threads-IsKeyed (omega arith)

done_twice_example :
    let once = handle_done 1000 no_fault "old" server in
    let twice = handle_done 1001 no_fault "old" once in
    (plain.aget_tuple "old" once.checkpointer.inner ≡ none)
    × (plain.aget_tuple "new" once.checkpointer.inner
        ≡ plain.aget_tuple "new" server.checkpointer.inner)
    × (once.metrics.active_sessions ≡ pos 0 -ℤ pos 1)
    × (twice.checkpointer.inner ≡ once.checkpointer.inner)
    × (twice.metrics.active_sessions ≡ once.metrics.active_sessions)
    × (twice.metrics.done_total ≡ 2)
unfolding served server two_threads
done_twice_example = done_twice 1000 1001 no_fault "old" "new" server refl refl

done_missing_listed_example :
    let after = handle_done 1000 no_fault "u9" server in
    (after.metrics.active_sessions ≡ pos 0)
    × (listed "u9" (list_stale 1700 (pos 600) after.checkpointer) ≡ true)
unfolding served server two_threads
done_missing_listed_example =
    done_missing_listed 1000 1700 600 no_fault "u9" server
      (λ e. absurd (false≢true (ap (λ k. str_eq k "") e))) refl two_threads-IsKeyed (omega arith)

retried_start_example :
    let (reply, later) = handle_turn plain_text (at "u2" 1010) start started_server in
    (reply ≡ ok (question_reply "u1"))
    × ((question_reply "u1").session_id ≡ "u1")
    × (later.checkpointer ≡ started_server.checkpointer)
    × (later.metrics.active_sessions ≡ started_server.metrics.active_sessions)
unfolding served server two_threads
retried_start_example =
    retried_start plain_text (at "u1" 1000) (at "u2" 1010) start start server "key-1234" refl refl
      refl refl refl (omega arith) (omega arith) start_test

repeated_message_example :
    let (reply, later) = handle_turn plain_text (at "u3" 1020) (answer "u1" none) answered_server in
    (reply ≡ ok final_reply)
    × (later.checkpointer.inner ≡ answered_server.checkpointer.inner)
    × (later.metrics.active_sessions ≡ answered_server.metrics.active_sessions)
unfolding served server two_threads started_server answered_server
repeated_message_example =
    repeated_message plain_text (at "u2" 1010) (at "u3" 1020) (answer "u1" none) "u1" started_server
      {before = asked_thread} refl refl refl refl answer_test refl (omega arith) (omega arith)

foreign_replay_example :
    let (reply, later) =
      handle_turn plain_text (at "u2" 1010) (answer "old" (some "key-1234")) started_server in
    (reply ≡ ok (question_reply "u1"))
    × ((question_reply "u1").session_id ≡ "u1")
    × (later.checkpointer.inner ≡ started_server.checkpointer.inner)
unfolding served server two_threads started_server
foreign_replay_example =
    foreign_replay plain_text (at "u1" 1000) (at "u2" 1010) start (answer "old" (some "key-1234"))
      "old" server "key-1234" refl refl refl refl refl refl (omega arith) (omega arith) start_test

start_answered_example :
    (response : TurnResponse) × ((handle_turn plain_text (at "u1" 1000) start server).0
      ≡ ok response)
    × (response.reply ≡ "what matters?")
unfolding served server two_threads
start_answered_example =
    start_answered plain_text (at "u1" 1000) start server "what matters?" refl refl refl refl refl

resume_answered_example :
    (response : TurnResponse) × ((handle_turn plain_text
        (at "u2" 1010)
        (answer "old" none)
        server).0
      ≡ ok response)
    × (response.reply ≡ "answer")
unfolding served server two_threads
resume_answered_example =
    resume_answered plain_text (at "u2" 1010) (answer "old" none) server "old"
      {before = asked_thread} refl refl refl refl refl

released_example : follows allowed (some closed) (lifespan start_no_fault 3) ≡ some closed
released_example = released start_no_fault 3

readyz_test : handle_readyz (λ n. "refused") none (responded 503) fresh ≡ (
  raised (record { ready = false; checkpointer = passed; llm_gateway = fail "refused" }),
  record fresh { readyz_llm_gateway_fail = 1 },
)
unfolding handle_readyz
readyz_test = refl

malformed_header : correlation_id "0123456789abcdef" (some "short") ≡ ("0123456789abcdef", true)
unfolding correlation_id matches_correlation_id chars all_key_chars before_newline
malformed_header = refl
