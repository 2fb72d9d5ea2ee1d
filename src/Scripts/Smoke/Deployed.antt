-- ===== src/Scripts/Smoke/Deployed.antt =====
-- scripts/smoke_brainstorm.py against the application of server/app_factory.py.
use decision_maker_flow.Prelude.{
  ℕ, is_empty, ◌≢◌, ◌+◌, ◌≡◌, ◌↔◌, refl, String, Bool, true, false, none, some, arith, ok, raised,
  ap, Option-cases, inl, inr,
}
use decision_maker_flow.Prelude.Int.{ℤ}
use decision_maker_flow.Json.{get, str, field, end}
use decision_maker_flow.Http.{Response, turn}
use decision_maker_flow.Server.Health.{probe_error, handle_readyz}
use decision_maker_flow.Server.App.{Deployment, Arrival, State, app, endpoint, readiness_json}
use decision_maker_flow.Server.App.{internal_error}
use decision_maker_flow.Server.Auth.{auth_error, malformed}
use decision_maker_flow.Server.Auth.Verify.{verify_session_token}
use decision_maker_flow.Server.Gate.{unverified}
use decision_maker_flow.Server.Correlation.{correlated}
use decision_maker_flow.Server.Middleware.{dispatch}
use decision_maker_flow.Scripts.Smoke.{Machine, passes}
use decision_maker_flow.Scripts.Smoke.Probes.{
  one_request, readyz_verdict, check_2_readyz, auth_missing_verdict, check_4_auth_missing,
  bare_post,
}

-- The application, and how many requests and uuids there were.
pub record Site (d : Deployment) : Type 0 where
  pub state : State d
  pub steps : ℕ

-- What the script meets when the application answers it, over one connection without failures:
-- what each request meets, each uuid4(), and both clocks, by the number of steps so far.
abbrev pub deployed :
    (d : Deployment) (arrival : ℕ → Arrival) (uuid_at : ℕ → String) (ms : ℕ → ℕ) (unix : ℕ → ℤ)
    → Machine
deployed d arrival uuid_at ms unix = record {
  World = Site d;
  send = λ base_url r w.
      let (response, after) = app d (arrival w.steps) r w.state in
      (ok response, record { state = after; steps = w.steps + 1 });
  monotonic = λ w. ms w.steps;
  time = λ w. unix w.steps;
  uuid4 = λ w. (uuid_at w.steps, record { state = w.state; steps = w.steps + 1 });
}

module _ (d : Deployment) (arrival : ℕ → Arrival) (uuid_at : ℕ → String) (ms : ℕ → ℕ)
    (unix : ℕ → ℤ) where
  -- Against the application the second check passes exactly if both probes of GET /readyz pass,
  -- also where it is told to accept a gateway that fails.
  pub readyz_check :
      (base_url : String) (allow_partial : Bool) (w : Site d)
      → let a = arrival w.steps in
        (passes (check_2_readyz (deployed d arrival uuid_at ms unix) base_url allow_partial w).0
          ≡ true)
        ↔ ((a.ping ≡ none) × (probe_error d.gateway_message a.probe ≡ none))
  unfolding check_2_readyz one_request readyz_verdict app endpoint dispatch handle_readyz
      readiness_json get
  readyz_check base_url allow_partial w =
      let a = arrival w.steps in
      elim (Option-cases a.ping) [
        | inr (err, down) ↦ rw down (λ h. absurd (cc), λ h. absurd (cc))
        | inl up ↦ elim (Option-cases (probe_error d.gateway_message a.probe)) [
          | inl fine ↦ rw (up, fine) (λ h. (refl, refl), λ h. refl)
          | inr (err, failing) ↦ rw (up, failing) (λ h. absurd (cc), λ h. absurd (cc))
        ]
      ]

  no_header :
      (a : Arrival)
      → verify_session_token d.crypto none "brainstorm" a.now d.secret
        ≡ raised (auth_error malformed)
  unfolding verify_session_token
  no_header a = refl

  not_internal : (r : Response) → r.status_code ≡ 401 → r ≢ internal_error
  not_internal r refused e =
      let codes : r.status_code ≡ 500 = ap (λ (x : Response). x.status_code) e in omega arith

  with_id :
      (rtt_ms : ℕ) (resp : Response) (cid : String)
      → resp.status_code ≡ 401
      → resp.x_correlation_id ≡ some cid
      → is_empty cid ≡ false
      → (auth_missing_verdict rtt_ms (ok resp)).passed ≡ true
  unfolding auth_missing_verdict
  with_id rtt_ms resp cid refused carried named = rw (refused, carried, named) refl

  -- Against the application the fourth check always passes: a turn without a token is refused with
  -- 401, and the response carries the id that the middleware has made, which is not empty.
  pub auth_missing_check :
      (base_url : String) (w : Site d)
      → is_empty (arrival w.steps).new_id ≡ false
      → passes (check_4_auth_missing (deployed d arrival uuid_at ms unix) base_url w).0 ≡ true
  unfolding check_4_auth_missing one_request
  auth_missing_check base_url w named =
      let a = arrival w.steps in
      let r = bare_post turn (field "message" (str "ping") end) in
      let (kept, refused) = unverified d a r w.state refl (no_header a) in
      elim (correlated d a r w.state) [
        | inl (cid, carried, own) ↦
            with_id _ (app d a r w.state).0 cid refused carried (rw own named)
        | inr (broken, bare) ↦ absurd (not_internal (app d a r w.state).0 refused bare)
      ]
