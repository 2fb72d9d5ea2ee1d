-- ===== src/Server/Gate.antt =====
-- What the application lets through, server/app_factory.py and server/auth.py.
use decision_maker_flow.Prelude.{
  ℕ, ◌≡◌, ◌≢◌, inl, inr, refl, String, Bool, true, false, some, ok, raised, arith, Outcome,
  Outcome-cases, sym, ap, ◌∙◌, ◌>>=◌,
}
use decision_maker_flow.Prelude.{Option, none}
use decision_maker_flow.Json.{Json}
use decision_maker_flow.Http.{Endpoint, turn, done, healthz, readyz, metrics, Request, Response}
use decision_maker_flow.Server.Auth.{
  VerifyError, TokenClaims, auth_error, uncaught, malformed, bad_version, bad_signature, expired,
  wrong_service, missing_session,
}
use decision_maker_flow.Server.Auth.Service.{to_http_exception, require_service}
use decision_maker_flow.Server.Auth.Verify.{verify_session_token}
use decision_maker_flow.Server.TurnApi.{
  TurnRequest, TurnResponse, TurnError, session_not_found, llm_timeout, graph_failure, type_error,
  validation_error,
}
use decision_maker_flow.Server.TurnApi.Handlers.{handle_turn}
use decision_maker_flow.Server.Middleware.{correlation_id, dispatch}
use decision_maker_flow.Server.App.{
  Deployment, Arrival, State, authorised, auth_response, turn_response, post_turn, endpoint, app,
  answered, with_state, handled, turn_body, turn_json,
}

-- The routes behind `require_service`.
abbrev pub is_guarded : Endpoint → Bool
is_guarded turn = true
is_guarded done = true
is_guarded _ = false

-- The status of a response to a request that is not let through.
abbrev pub refused_status : (body : Option Json) → VerifyError → ℕ
refused_status none why = 422
refused_status (some body) (auth_error wrong_service) = 403
refused_status (some body) (auth_error _) = 401
refused_status (some body) uncaught = 500

module _ (d : Deployment) where
  guarded :
      (a : Arrival) (r : Request) (e : Endpoint) (body : Option Json) (cid : String) (s : State d)
      {why : VerifyError}
      → is_guarded e ≡ true
      → r.body ≡ body
      → verify_session_token d.crypto r.authorization "brainstorm" a.now d.secret ≡ raised why
      → let (response, after) = answered d (endpoint d a r e cid s >>= λ o. ok (o, cid)) in
        (after ≡ s) × (response.status_code ≡ refused_status body why)
  unfolding endpoint authorised auth_response require_service
  guarded a r turn none cid s g b h = rw b (refl, refl)
  guarded a r done none cid s g b h = rw b (refl, refl)
  guarded a r turn (some body) cid s {why = uncaught} g b h = rw (b, h) (refl, refl)
  guarded a r done (some body) cid s {why = uncaught} g b h = rw (b, h) (refl, refl)
  guarded a r turn (some body) cid s {why = auth_error malformed} g b h = rw (b, h) (refl, refl)
  guarded a r turn (some body) cid s {why = auth_error bad_version} g b h = rw (b, h) (refl, refl)
  guarded a r turn (some body) cid s {why = auth_error bad_signature} g b h = rw (b, h) (refl, refl)
  guarded a r turn (some body) cid s {why = auth_error expired} g b h = rw (b, h) (refl, refl)
  guarded a r turn (some body) cid s {why = auth_error wrong_service} g b h = rw (b, h) (refl, refl)
  guarded a r turn (some body) cid s {why = auth_error missing_session} g b h =
      rw (b, h) (refl, refl)
  guarded a r done (some body) cid s {why = auth_error malformed} g b h = rw (b, h) (refl, refl)
  guarded a r done (some body) cid s {why = auth_error bad_version} g b h = rw (b, h) (refl, refl)
  guarded a r done (some body) cid s {why = auth_error bad_signature} g b h = rw (b, h) (refl, refl)
  guarded a r done (some body) cid s {why = auth_error expired} g b h = rw (b, h) (refl, refl)
  guarded a r done (some body) cid s {why = auth_error wrong_service} g b h = rw (b, h) (refl, refl)
  guarded a r done (some body) cid s {why = auth_error missing_session} g b h =
      rw (b, h) (refl, refl)
  guarded a r healthz body cid s g b h = cc
  guarded a r readyz body cid s g b h = cc
  guarded a r metrics body cid s g b h = cc

  -- A request to POST /turn or POST /done whose token is not verified changes nothing in the
  -- application. It is answered 422 if its body is no JSON, and otherwise 403 if the token is for
  -- another service, 500 if the verification raises what it does not catch, and 401 in all other
  -- cases.
  pub unverified :
      (a : Arrival) (r : Request) (s : State d) {why : VerifyError}
      → is_guarded r.endpoint ≡ true
      → verify_session_token d.crypto r.authorization "brainstorm" a.now d.secret ≡ raised why
      → let (response, after) = app d a r s in
        (after ≡ s) × (response.status_code ≡ refused_status r.body why)
  unfolding app dispatch
  unverified a r s g h =
      guarded a r r.endpoint r.body (correlation_id a.new_id r.x_correlation_id).0 s g refl h

  turn_replied :
      (cid : String) (r : TurnRequest) (o : Outcome TurnError TurnResponse) (s : State d)
      → let (response, _) =
          answered d (with_state d s (turn_response d cid r o) >>= λ o. ok (o, cid)) in
        response.status_code ≡ 200
        → (reply : TurnResponse) × (o ≡ ok reply) × (response.json ≡ some (turn_json reply))
  unfolding turn_response handled to_http_exception
  turn_replied cid r (ok reply) s h = (reply, refl, refl)
  turn_replied cid r (raised session_not_found) s h = absurd (omega (arith, h))
  turn_replied cid r (raised llm_timeout) s h = absurd (omega (arith, h))
  turn_replied cid r (raised (graph_failure f)) s h = absurd (omega (arith, h))
  turn_replied cid r (raised type_error) s h = absurd (omega (arith, h))
  turn_replied cid r (raised validation_error) s h = absurd (omega (arith, h))

  refused-ne-ok : (body : Option Json) (why : VerifyError) → refused_status body why ≢ 200
  refused-ne-ok none why h = absurd (omega (arith, h))
  refused-ne-ok (some body) uncaught h = absurd (omega (arith, h))
  refused-ne-ok (some body) (auth_error malformed) h = absurd (omega (arith, h))
  refused-ne-ok (some body) (auth_error bad_version) h = absurd (omega (arith, h))
  refused-ne-ok (some body) (auth_error bad_signature) h = absurd (omega (arith, h))
  refused-ne-ok (some body) (auth_error expired) h = absurd (omega (arith, h))
  refused-ne-ok (some body) (auth_error wrong_service) h = absurd (omega (arith, h))
  refused-ne-ok (some body) (auth_error missing_session) h = absurd (omega (arith, h))

  -- A refused request is not answered 200.
  pub unverified-ne-ok :
      (a : Arrival) (r : Request) (s : State d) {why : VerifyError}
      → is_guarded r.endpoint ≡ true
      → verify_session_token d.crypto r.authorization "brainstorm" a.now d.secret ≡ raised why
      → (app d a r s).0.status_code ≢ 200
  unverified-ne-ok a r s {why} g h ok200 =
      refused-ne-ok r.body why (sym (unverified a r s g h).1 ∙ ok200)

  turn_replied_at :
      (a : Arrival) (body : Json) (t : TurnRequest) (cid : String) (s : State d)
      → let (response, _) = answered d (post_turn d a cid body (some t) s >>= λ o. ok (o, cid)) in
        response.status_code ≡ 200
        → (reply : TurnResponse) × ((handle_turn d.digest a.outside t s).0 ≡ ok reply)
          × (response.json ≡ some (turn_json reply))
  unfolding post_turn
  turn_replied_at a body t cid s h =
      let (outcome, after) = handle_turn d.digest a.outside t s in
      turn_replied cid t outcome after h

  turn_passed :
      (a : Arrival) (r : Request) (body : Json) (t : TurnRequest) (s : State d)
      {claims : TokenClaims}
      → r.endpoint ≡ turn
      → r.body ≡ some body
      → turn_body r.idempotency_key body ≡ some t
      → verify_session_token d.crypto r.authorization "brainstorm" a.now d.secret ≡ ok claims
      → let cid = (correlation_id a.new_id r.x_correlation_id).0 in
        app d a r s ≡ answered d (post_turn d a cid body (some t) s >>= λ o. ok (o, cid))
  unfolding app dispatch endpoint authorised require_service
  turn_passed a r body t s at_turn sent valid fine = rw (at_turn, sent, valid, fine) refl

  -- A turn that is answered 200 has the handler's reply in its body.
  pub turn_answered :
      (a : Arrival) (r : Request) (body : Json) (t : TurnRequest) (s : State d)
      → r.endpoint ≡ turn
      → r.body ≡ some body
      → turn_body r.idempotency_key body ≡ some t
      → (app d a r s).0.status_code ≡ 200
      → (reply : TurnResponse) × ((handle_turn d.digest a.outside t s).0 ≡ ok reply)
        × ((app d a r s).0.json ≡ some (turn_json reply))
  turn_answered a r body t s at_turn sent valid h =
      elim (Outcome-cases
        (verify_session_token d.crypto r.authorization "brainstorm" a.now d.secret)) [
          | inl (claims, fine) ↦
              let passed = turn_passed a r body t s at_turn sent valid fine in
              let cid = (correlation_id a.new_id r.x_correlation_id).0 in
              let (reply, outcome, body) =
                turn_replied_at a body t cid s
                  (ap (λ (p : Response × State d). p.0.status_code) (sym passed) ∙ h) in
              (reply, outcome, ap (λ (p : Response × State d). p.0.json) passed ∙ body)
          | inr (why, bad) ↦ absurd (unverified-ne-ok a r s (rw at_turn refl) bad h)
        ]
