-- ===== src/Scripts/Smoke/Probes.antt =====
-- scripts/smoke_brainstorm.py: checks 1 to 4.
use decision_maker_flow.Prelude.{
  ℕ, String, Bool, not, Option, none, some, List, [], ◌∷◌, ltb, ◌==◌, is_empty, if◌then◌else◌,
  Outcome, ok, raised,
}
use decision_maker_flow.Json.{Json, null, str, obj, Fields, end, field, get}
use decision_maker_flow.Http.{Endpoint, turn, healthz, readyz, metrics, Request, Response}
use decision_maker_flow.Scripts.Smoke.{
  transport_error, attribute_error, healthy, ready, unexpected_status, unexpected_value, partial,
  non_json, slow, wrong_content_type, missing_families, all_families, no_correlation_id,
  refused_with_id, connection_error, Verdict, Machine, pass, reject, is_text, includes, Checked,
  rtt_since,
}

abbrev pub get_request : Endpoint → Request
get_request endpoint = record {
  endpoint = endpoint;
  authorization = none;
  idempotency_key = none;
  x_correlation_id = none;
  body = some null;
}

abbrev pub bare_post : Endpoint → Fields → Request
bare_post endpoint fields = record (get_request endpoint) { body = some (obj fields) }

abbrev healthz_body : (rtt_ms : ℕ) → Option Json → Verdict
healthz_body rtt_ms (some (obj body)) =
    if not (is_text "ok" (get "status" body))
    then reject (unexpected_value "status" (get "status" body)) rtt_ms
    else if ltb 2000 rtt_ms
    then reject (slow rtt_ms) rtt_ms
    else pass healthy rtt_ms
healthz_body rtt_ms _ = reject non_json rtt_ms

unfoldable pub healthz_verdict : (rtt_ms : ℕ) → Outcome String Response → Verdict
healthz_verdict rtt_ms (raised exc) = reject (connection_error (transport_error exc)) rtt_ms
healthz_verdict rtt_ms (ok resp) =
    if not (resp.status_code == 200)
    then reject (unexpected_status resp.status_code) rtt_ms
    else healthz_body rtt_ms resp.json

-- The body as a dict; `.get` of any other value raises.
abbrev readyz_body : (allow_partial : Bool) (rtt_ms : ℕ) → Option Json → Verdict
readyz_body allow_partial rtt_ms none = reject non_json rtt_ms
readyz_body allow_partial rtt_ms (some (obj body)) =
    let llm_gateway = get "llm_gateway" body in
    if not (is_text "ok" (get "checkpointer" body))
    then reject (unexpected_value "checkpointer" (get "checkpointer" body)) rtt_ms
    else if is_text "ok" llm_gateway
    then pass ready rtt_ms
    else if allow_partial
    then pass (partial llm_gateway) rtt_ms
    else reject (unexpected_value "llm_gateway" llm_gateway) rtt_ms
readyz_body allow_partial rtt_ms (some _) = reject (connection_error attribute_error) rtt_ms

unfoldable pub readyz_verdict :
    (allow_partial : Bool) (rtt_ms : ℕ) → Outcome String Response → Verdict
readyz_verdict allow_partial rtt_ms (raised exc) =
    reject (connection_error (transport_error exc)) rtt_ms
readyz_verdict allow_partial rtt_ms (ok resp) = readyz_body allow_partial rtt_ms resp.json

-- _REQUIRED_METRIC_FAMILIES
abbrev pub required_metric_families : List String
required_metric_families =
    "brainstorm_turns_total" ∷ "brainstorm_turn_duration_seconds"
    ∷ "brainstorm_llm_roundtrip_seconds" ∷ "brainstorm_active_sessions" ∷ "brainstorm_done_total"
    ∷ "brainstorm_token_verify_failures_total" ∷ "brainstorm_idempotent_hits_total"
    ∷ "brainstorm_sweeper_runs_total" ∷ "brainstorm_sweeper_deleted_total"
    ∷ "brainstorm_readyz_checks_total" ∷ []

-- The names of a list that are not in the text.
unfoldable pub missing_from : (text : String) → List String → List String
unfolding includes
missing_from text [] = []
missing_from text (m ∷ ms) =
    let rest = missing_from text ms in if includes m text then rest else m ∷ rest

abbrev families_verdict : (rtt_ms : ℕ) → List String → Verdict
families_verdict rtt_ms [] = pass all_families rtt_ms
families_verdict rtt_ms (m ∷ ms) = reject (missing_families (m ∷ ms)) rtt_ms

abbrev pub or_empty : Option String → String
or_empty none = ""
or_empty (some s) = s

unfoldable pub metrics_verdict : (rtt_ms : ℕ) → Outcome String Response → Verdict
unfolding includes missing_from
metrics_verdict rtt_ms (raised exc) = reject (connection_error (transport_error exc)) rtt_ms
metrics_verdict rtt_ms (ok resp) =
    if not (resp.status_code == 200)
    then reject (unexpected_status resp.status_code) rtt_ms
    else if not (includes "text/plain" (or_empty resp.content_type))
    then reject (wrong_content_type (or_empty resp.content_type)) rtt_ms
    else families_verdict rtt_ms (missing_from resp.text required_metric_families)

unfoldable pub auth_missing_verdict : (rtt_ms : ℕ) → Outcome String Response → Verdict
auth_missing_verdict rtt_ms (raised exc) = reject (connection_error (transport_error exc)) rtt_ms
auth_missing_verdict rtt_ms (ok resp) =
    let correlation_id = or_empty resp.x_correlation_id in
    if not (resp.status_code == 401)
    then reject (unexpected_status resp.status_code) rtt_ms
    else if is_empty correlation_id
    then reject no_correlation_id rtt_ms
    else pass (refused_with_id correlation_id) rtt_ms

module _ (m : Machine) (base_url : String) where
  -- A check that sends one request and judges the answer.
  unfoldable pub one_request :
      Request → (ℕ → Outcome String Response → Verdict) → m.World → Checked m
  one_request r judge start =
      let (reply, w) = m.send base_url r start in (ok (judge (rtt_since m start w) reply), w)

  unfoldable pub check_1_healthz : m.World → Checked m
  unfolding one_request healthz_verdict
  check_1_healthz = one_request (get_request healthz) healthz_verdict

  unfoldable pub check_2_readyz : (allow_partial : Bool) → m.World → Checked m
  unfolding one_request readyz_verdict
  check_2_readyz allow_partial = one_request (get_request readyz) (readyz_verdict allow_partial)

  unfoldable pub check_3_metrics : m.World → Checked m
  unfolding one_request metrics_verdict
  check_3_metrics = one_request (get_request metrics) metrics_verdict

  unfoldable pub check_4_auth_missing : m.World → Checked m
  unfolding one_request auth_missing_verdict
  check_4_auth_missing =
      one_request (bare_post turn (field "message" (str "ping") end)) auth_missing_verdict
