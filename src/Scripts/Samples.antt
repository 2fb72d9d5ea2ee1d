-- ===== src/Scripts/Samples.antt =====
-- A site that answers the scripts, and what a run of them calls.
use Prim.Native.String.{◌++◌ as ◌++ˢ◌}
use decision_maker_flow.Prelude.{
  ℕ, String, Option, none, some, [], ◌∷◌, List, str_eq, len, strip, rstrip, prefix_of,
  if◌then◌else◌,
}
use decision_maker_flow.Prelude.Int.{pos, ◌+ℤ◌}
use decision_maker_flow.Json.{null, Json, str, int, obj, Fields, field, end, get, get_or, truthy}
use decision_maker_flow.Server.Saver.{no_fault}
use decision_maker_flow.Server.Saver.Plain.{plain}
use decision_maker_flow.Server.Idempotency.Log.{log}
use decision_maker_flow.Server.Samples.{served, server, at, plain_text, two_threads}
use decision_maker_flow.Server.TurnApi.{Timing}
use decision_maker_flow.Server.Health.{Probe, handle_readyz}
use decision_maker_flow.Server.Middleware.{matches_correlation_id, correlation_id, dispatch}
use decision_maker_flow.Server.Auth.{
  Crypto, Loaded, loaded, after_prefix, split_dots, matches_places, is_uuid4,
}
use decision_maker_flow.Server.Auth.Service.{require_service, to_http_exception}
use decision_maker_flow.Server.Auth.Verify.{
  lookup, pop, claims_of, check_claims, authentic_payload, verify_session_token, mint_session_token,
}
use decision_maker_flow.Server.Minting.{no_dot}
use decision_maker_flow.Server.App.{
  Deployment, Arrival, app, turn_json, turn_body, done_body, readiness_json, handled, turn_response,
  auth_response, post_turn, post_done, authorised, endpoint,
}
use decision_maker_flow.Scripts.Smoke.{Primitives, Machine, includes, splitlines, last_word}
use decision_maker_flow.Scripts.Smoke.Probes.{
  one_request, healthz_verdict, readyz_verdict, metrics_verdict, auth_missing_verdict, missing_from,
  check_1_healthz, check_2_readyz, check_3_metrics, check_4_auth_missing, required_metric_families,
}
use decision_maker_flow.Scripts.Smoke.Tokens.{
  mint_bearer_inline, forge_signature, forged_bearer, count_in, scrape,
}
use decision_maker_flow.Scripts.Smoke.Turns.{
  hex_of, forged_reply, send_forged, check_5_bad_signature, second_reply, second_request,
  first_fields, first_body, first_reply, before_turn, check_6_turn_happy,
}
use decision_maker_flow.Scripts.Smoke.Done.{failures_of, done_attempts, check_7_done_idempotent}
use decision_maker_flow.Scripts.Smoke.Main.{run_checks, checks, run_all_checks, failed_count}
use decision_maker_flow.Scripts.Smoke.Deployed.{Site, deployed}
use decision_maker_flow.Scripts.Smoke.Refusal.{script}

-- The bytes of the examples are texts, and the signature is one that check 5 makes "keyB" of.
abbrev pub session : String
session = "123e4567-e89b-42d3-a456-426614174000"

abbrev pub flat : String
flat = "123e4567e89b42d3a456426614174000"

-- A payload is its session id.
abbrev pub read_back : String → Loaded
read_back s = loaded (
    obj (
      field "exp" (int (pos 1300))
        (field "service_id" (str "brainstorm") (field "session_id" (str s) end))))

abbrev pub text_of : Json → String
text_of (str s) = s
text_of _ = ""

abbrev pub crypto_with : (decode : String → Option String) → Crypto
crypto_with decode = record {
  Bytes = String;
  same = str_eq;
  b64url_decode = decode;
  b64url_encode = λ s. s;
  hmac = λ secret payload. "keyA";
  loads = read_back;
  dumps = λ exp service_id session_id. session_id;
  shown = λ v. "";
  parsed_int = λ s. none;
}

abbrev pub crypto : Crypto
crypto = crypto_with some

-- A decoder that drops the last bits of the last character.
abbrev pub lenient : String → Option String
lenient s = if str_eq s "keyB" then some "keyA" else some s

abbrev pub joined : List String → String
joined [] = ""
joined (s ∷ ss) = s ++ˢ ("\n" ++ˢ joined ss)

abbrev pub deployment : Deployment
deployment = record {
  saver = plain;
  cache = log 600;
  crypto = crypto;
  secret = "0123456789abcdef";
  digest = plain_text;
  session_fp = λ s. s;
  dumps = λ v. "";
  generate_latest = λ m. joined required_metric_families;
  invalid = λ v. v;
  undecoded = null;
  auth_message = λ header r. "";
  gateway_message = λ status. "status";
}

abbrev pub arrives : (timing : Timing) (probe : Probe) → ℕ → Arrival
arrives timing probe n = record {
  new_id = "c0ffee";
  now = pos 1000;
  outside = record (at flat 1000) { timing = timing };
  done_at = 1000;
  fault = no_fault;
  ping = none;
  probe = probe;
}

abbrev pub fixed {ℓ} : {A : Type ℓ} → A → ℕ → A
fixed a n = a

abbrev pub start : Site deployment
start = record { state = server; steps = 0 }

abbrev pub dumps : Fields → String
dumps fs = text_of (get "session_id" fs)

abbrev pub prims : Primitives
prims = script deployment dumps (λ s. s) (λ s. some (pos 1))

abbrev pub site : (timing : Timing) (probe : Probe) → Machine
site timing probe =
    deployed deployment (arrives timing probe) (fixed session) (fixed 0) (fixed (pos 1000))

abbrev pub url : String
url = "http://127.0.0.1:8000"

-- What the runs here call.
unfoldable pub answering : Unit {0}
unfolding served server two_threads app endpoint authorised post_done post_turn auth_response
    turn_response handled readiness_json done_body turn_body turn_json dispatch correlation_id
    matches_correlation_id handle_readyz require_service to_http_exception verify_session_token
    mint_session_token authentic_payload claims_of check_claims lookup pop after_prefix split_dots
    matches_places is_uuid4 no_dot get get_or truthy len strip rstrip prefix_of plain log ◌+ℤ◌
answering = tt

unfoldable pub smoking : Unit {0}
unfolding answering includes splitlines last_word one_request healthz_verdict readyz_verdict
    metrics_verdict auth_missing_verdict missing_from check_1_healthz check_2_readyz check_3_metrics
    check_4_auth_missing mint_bearer_inline forge_signature forged_bearer count_in scrape hex_of
    failures_of forged_reply send_forged check_5_bad_signature second_reply second_request
    first_fields first_body first_reply before_turn check_6_turn_happy done_attempts
    check_7_done_idempotent run_checks checks run_all_checks failed_count
smoking = tt
