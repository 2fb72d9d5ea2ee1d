-- ===== src/Scripts/Tests.antt =====
-- The scripts at concrete inputs.
use decision_maker_flow.Prelude.{
  ◌⊎◌, ◌≤◌, All, length, ◌≡◌, ◌↔◌, refl, String, true, false, Option, none, some, List, ok, arith,
  str_eq, len, if◌then◌else◌,
}
use decision_maker_flow.Prelude.Int.{pos, ◌<ℤ◌}
use decision_maker_flow.Json.{str, field, end}
use decision_maker_flow.Http.{turn, Request}
use decision_maker_flow.Server.Samples.{server, two_threads}
use decision_maker_flow.Server.TurnApi.{expired, in_time}
use decision_maker_flow.Server.Health.{responded}
use decision_maker_flow.Server.Auth.{auth_error, malformed}
use decision_maker_flow.Server.Auth.Verify.{verify_session_token}
use decision_maker_flow.Server.App.{app}
use decision_maker_flow.Server.Gate.{unverified}
use decision_maker_flow.Scripts.MintToken.{Args, printed_verifies}
use decision_maker_flow.Scripts.MintToken
use decision_maker_flow.Scripts.Smoke.{Primitives, Machine, passes}
use decision_maker_flow.Scripts.Smoke.Probes.{bare_post, check_2_readyz}
use decision_maker_flow.Scripts.Smoke.Tokens.{mint_bearer_inline, forge_signature, forged_bearer}
use decision_maker_flow.Scripts.Smoke.Turns.{hello, check_6_turn_happy}
use decision_maker_flow.Scripts.Smoke.Main.{Options, Result, run_all_checks, main}
use decision_maker_flow.Scripts.Smoke.Forgery.{forged_outcome}
use decision_maker_flow.Scripts.Smoke.Exits.{IsPassed, exit_zero}
use decision_maker_flow.Scripts.Smoke.Deployed.{readyz_check}
use decision_maker_flow.Scripts.Smoke.Refusal.{turn_check}
use decision_maker_flow.Scripts.Samples.{
  session, crypto_with, crypto, lenient, deployment, arrives, fixed, start, dumps, prims, site, url,
  answering, smoking,
}

readyz_check_example :
    (passes (check_2_readyz (site in_time (responded 500)) url true start).0 ≡ true)
    ↔ (◌≡◌ {A = Option String} none none × ◌≡◌ {A = Option String} (some "status") none)
unfolding server two_threads
readyz_check_example =
    readyz_check deployment (arrives in_time (responded 500)) (fixed session) (fixed 0)
      (fixed (pos 1000)) url true start

abbrev timed_out : Machine
timed_out = site (expired false) (responded 200)

abbrev first_request : Request
first_request =
    hello (mint_bearer_inline prims "brainstorm" (str session) (pos 1300) "0123456789abcdef")
      "smoke-idem-123e4567e89b42d3"

turn_check_example :
    (app deployment (arrives (expired false) (responded 200) 3) first_request server).0.status_code
    ≡ 408
unfolding smoking
turn_check_example =
    turn_check deployment dumps (λ s. s) (λ s. some (pos 1))
      (arrives (expired false) (responded 200)) (fixed session) (fixed 0) (fixed (pos 1000)) url
      "0123456789abcdef" start session refl refl refl refl refl refl refl refl

-- Where the first turn is answered in time, the check fails.
turn_check_test :
    (check_6_turn_happy prims (site in_time (responded 200)) url "0123456789abcdef" start).0.passed
    ≡ false
unfolding smoking
turn_check_test = refl

abbrev environ : String → Option String
environ name =
    if str_eq name "BRAINSTORM_SMOKE"
    then some "1"
    else if str_eq name "BRAINSTORM_HMAC_SECRET"
    then some "0123456789abcdef"
    else none

abbrev no_options : Options
no_options = record { base_url = none; secret = none; allow_readyz_partial = false }

-- The whole script, where the model is too slow.
main_test : main prims timed_out environ no_options start ≡ ok 0
unfolding smoking main
main_test = refl

-- And where it answers.
main_fails_test : main prims (site in_time (responded 200)) environ no_options start ≡ ok 1
unfolding smoking main
main_fails_test = refl

-- The script is run, and its exit is decided by its checks.
exit_zero_example : (main prims timed_out environ no_options start ≡ ok 0) ↔ (
    (true ≡ false)
    ⊎ ((false ≡ false)
        × (results : List Result) × (run_all_checks prims timed_out url "0123456789abcdef" false
              start
            ≡ ok results)
        × (length results ≡ 7)
        × All IsPassed results))
exit_zero_example = exit_zero prims timed_out environ no_options start

abbrev turn_without_token : Request
turn_without_token = bare_post turn (field "message" (str "ping") end)

abbrev traced : Request
traced = record turn_without_token { x_correlation_id = some "trace-0001" }

-- The id of a header is kept, a malformed one is replaced.
trace_test :
    let answer = λ (header : String).
      (app deployment
        (arrives in_time (responded 200) 0)
        (record turn_without_token { x_correlation_id = some header })
        server).0.x_correlation_id in
    (answer "trace-0001" ≡ some "trace-0001") × (answer "trace 0001" ≡ some "c0ffee")
unfolding smoking
trace_test = (refl, refl)

-- A body that is no JSON is refused before the token is looked at.
undecoded_test :
    (app deployment
      (arrives in_time (responded 200) 0)
      (record turn_without_token { body = none })
      server).0.status_code
    ≡ 422
unfolding smoking
undecoded_test = refl

unverified_example :
    let (response, after) =
      app deployment (arrives in_time (responded 200) 0) turn_without_token server in
    (after ≡ server) × (response.status_code ≡ 401)
unverified_example =
    unverified deployment (arrives in_time (responded 200) 0) turn_without_token server
      {why = auth_error malformed} refl (unfold verify_session_token in refl)

abbrev forging : Primitives
forging = record prims { crypto = crypto_with lenient }

-- The decoder drops what the forgery has changed, and the token is accepted.
forged_outcome_example :
    (bearer : String) × (forged_bearer
        (mint_bearer_inline forging "brainstorm" (str session) (pos 1300) "0123456789abcdef")
      ≡ ok bearer)
    × (verify_session_token
          (crypto_with lenient)
          (some bearer)
          "brainstorm"
          (pos 1000)
          "0123456789abcdef"
        ≡ ok (record { service_id = "brainstorm"; session_id = session; exp = pos 1300 }))
unfolding answering forge_signature
forged_outcome_example =
    forged_outcome forging "0123456789abcdef" session "keyB" (pos 1300) (pos 1000) "keyA" refl refl
      refl refl refl refl refl (omega arith)

abbrev args : Args
args = record {
  service_id = "brainstorm";
  session_id = some session;
  ttl = pos 300;
  secret_env = "BRAINSTORM_HMAC_SECRET";
}

printed_verifies_example :
    (verify_session_token crypto
        (some "Bearer v1.123e4567-e89b-42d3-a456-426614174000.keyA")
        "brainstorm"
        (pos 1299)
        "0123456789abcdef"
      ≡ ok (record { service_id = "brainstorm"; session_id = session; exp = pos 1300 }))
    × (pos 0 <ℤ pos 300)
    × (16 ≤ len "0123456789abcdef")
unfolding answering MintToken.main
printed_verifies_example =
    printed_verifies crypto (λ s. s) len environ true "" (pos 1000) (pos 1299) args
      "0123456789abcdef" refl refl refl refl refl refl refl refl (omega arith) refl
