-- ===== src/Server/Correlation.antt =====
-- The correlation id of a response, server/middleware.py and server/app_factory.py.
use decision_maker_flow.Prelude.{
  ◌≡◌, ◌≢◌, ◌⊎◌, inl, inr, refl, String, Bool, true, false, Option, none, some, Outcome, ok, raised,
  ◌>>=◌, ap, ◌∙◌,
}
use decision_maker_flow.Json.{Json}
use decision_maker_flow.Http.{Endpoint, turn, done, healthz, readyz, metrics, Request, Response}
use decision_maker_flow.Server.Auth.{VerifyError, TokenClaims, auth_error, uncaught}
use decision_maker_flow.Server.Auth.Service.{require_service, translate, to_http_exception}
use decision_maker_flow.Server.Auth.Verify.{verify_session_token}
use decision_maker_flow.Agent.Engine.{Failure}
use decision_maker_flow.Server.TurnApi.{
  TurnRequest, TurnResponse, TurnError, session_not_found, llm_timeout, graph_failure, type_error,
  validation_error,
}
use decision_maker_flow.Server.TurnApi.Handlers.{handle_turn}
use decision_maker_flow.Server.Middleware.{correlation_id, dispatch}
use decision_maker_flow.Server.App.{
  Deployment, Arrival, State, internal_error, with_state, turn_response, handled, post_turn,
  post_done, authorised, auth_response, endpoint, app, answered, turn_body, done_body,
}
use decision_maker_flow.Server.CorrelationIds.{IdOf, correlation_id-IdOf}

-- What a turn raises and no handler of the application knows.
abbrev pub Breaks : Outcome TurnError TurnResponse → Type 0
Breaks o =
    ((f : Failure) × (o ≡ raised (graph_failure f)))
    ⊎ (o ≡ raised type_error)
    ⊎ (o ≡ raised validation_error)

module _ (d : Deployment) where
  -- An exception leaves the route: that of the verification of a token, or of a turn.
  abbrev pub Unhandled : Arrival → Request → State d → Type 0
  Unhandled a r s =
      (body : Json) × (r.body ≡ some body)
      × ((((r.endpoint ≡ turn) ⊎ (r.endpoint ≡ done))
            × (verify_session_token d.crypto r.authorization "brainstorm" a.now d.secret
                ≡ raised uncaught))
          ⊎ ((r.endpoint ≡ turn)
              × (claims : TokenClaims) × (verify_session_token d.crypto r.authorization "brainstorm"
                    a.now d.secret
                  ≡ ok claims)
              × (t : TurnRequest) × (turn_body r.idempotency_key body ≡ some t)
              × Breaks (handle_turn d.digest a.outside t s).0))

  response_raised :
      (cid : String) (t : TurnRequest) (o : Outcome TurnError TurnResponse) (s : State d)
      {u : State d}
      → with_state d s (turn_response d cid t o) ≡ raised u
      → Breaks o
  unfolding turn_response handled to_http_exception
  response_raised cid t (ok reply) s h = cc
  response_raised cid t (raised session_not_found) s h = cc
  response_raised cid t (raised llm_timeout) s h = cc
  response_raised cid t (raised (graph_failure f)) s h = inl (f, refl)
  response_raised cid t (raised type_error) s h = inr (inl refl)
  response_raised cid t (raised validation_error) s h = inr (inr refl)

  post_raised :
      (a : Arrival) (cid : String) (body : Json) (read : Option TurnRequest) (s : State d)
      {u : State d}
      → post_turn d a cid body read s ≡ raised u
      → (t : TurnRequest) × (read ≡ some t) × Breaks (handle_turn d.digest a.outside t s).0
  unfolding post_turn
  post_raised a cid body none s h = cc
  post_raised a cid body (some t) s h =
      let (outcome, after) = handle_turn d.digest a.outside t s in
      (t, refl, response_raised cid t outcome after h)

  refused_raised :
      (authorization : Option String) (why : VerifyError) (s : State d)
      (answer : Outcome (State d) (Response × State d)) {u : State d}
      → authorised d authorization (translate (raised why)) s answer ≡ raised u
      → why ≡ uncaught
  unfolding authorised auth_response
  refused_raised authorization (auth_error reason) s answer h = cc
  refused_raised authorization uncaught s answer h = refl

  done_answered :
      (a : Arrival) (body : Json) (read : Option String) (s : State d) {u : State d}
      → post_done d a body read s ≢ raised u
  unfolding post_done
  done_answered a body none s h = cc
  done_answered a body (some id) s h = cc

  turn_raised :
      (a : Arrival) (r : Request) (cid : String) (body : Json) (s : State d)
      (o : Outcome VerifyError TokenClaims) {u : State d}
      → verify_session_token d.crypto r.authorization "brainstorm" a.now d.secret ≡ o
      → r.endpoint ≡ turn
      → r.body ≡ some body
      → authorised d r.authorization
          (translate o)
          s
          (post_turn d a cid body (turn_body r.idempotency_key body) s)
        ≡ raised u
      → Unhandled a r s
  unfolding authorised
  turn_raised a r cid body s (ok claims) fine at_turn sent h =
      let (t, valid, breaks) = post_raised a cid body (turn_body r.idempotency_key body) s h in
      (body, sent, inr (at_turn, claims, fine, t, valid, breaks))
  turn_raised a r cid body s (raised why) bad at_turn sent h =
      let odd = refused_raised r.authorization why s _ h in
      (body, sent, inl (inl at_turn, bad ∙ ap (λ w. raised w) odd))

  done_raised :
      (a : Arrival) (r : Request) (body : Json) (s : State d) (o : Outcome VerifyError TokenClaims)
      {u : State d}
      → verify_session_token d.crypto r.authorization "brainstorm" a.now d.secret ≡ o
      → r.endpoint ≡ done
      → r.body ≡ some body
      → authorised d r.authorization (translate o) s (post_done d a body (done_body body) s)
        ≡ raised u
      → Unhandled a r s
  unfolding authorised
  done_raised a r body s (ok claims) fine at_done sent h =
      absurd (done_answered a body (done_body body) s h)
  done_raised a r body s (raised why) bad at_done sent h =
      let odd = refused_raised r.authorization why s _ h in
      (body, sent, inl (inr at_done, bad ∙ ap (λ w. raised w) odd))

  abbrev is_ok : Outcome (State d) (Response × State d) → Bool
  is_ok (ok answer) = true
  is_ok (raised s) = false

  endpoint_raised :
      (a : Arrival) (r : Request) (e : Endpoint) (body : Option Json) (cid : String) (s : State d)
      {u : State d}
      → r.endpoint ≡ e
      → r.body ≡ body
      → endpoint d a r e cid s ≡ raised u
      → Unhandled a r s
  unfolding endpoint require_service
  endpoint_raised a r turn (some body) cid s at sent h =
      let shape : authorised d r.authorization
            (require_service d.crypto "brainstorm" r.authorization a.now d.secret) s
            (post_turn d a cid body (turn_body r.idempotency_key body) s)
          ≡ endpoint d a r turn cid s =
        rw sent refl in
      turn_raised a r cid body s _ refl at sent (shape ∙ h)
  endpoint_raised a r done (some body) cid s at sent h =
      let shape : authorised d r.authorization
            (require_service d.crypto "brainstorm" r.authorization a.now d.secret) s
            (post_done d a body (done_body body) s)
          ≡ endpoint d a r done cid s =
        rw sent refl in
      done_raised a r body s _ refl at sent (shape ∙ h)
  endpoint_raised a r turn none cid s at sent h =
      let fine : is_ok (endpoint d a r turn cid s) ≡ true = rw sent refl in
      let broken : is_ok (endpoint d a r turn cid s) ≡ false = ap is_ok h in cc
  endpoint_raised a r done none cid s at sent h =
      let fine : is_ok (endpoint d a r done cid s) ≡ true = rw sent refl in
      let broken : is_ok (endpoint d a r done cid s) ≡ false = ap is_ok h in cc
  endpoint_raised a r healthz body cid s at sent h = cc
  endpoint_raised a r readyz body cid s at sent h = cc
  endpoint_raised a r metrics body cid s at sent h = cc

  answered_id :
      (a : Arrival) (r : Request) (s : State d) (cid : String)
      (o : Outcome (State d) (Response × State d))
      → endpoint d a r r.endpoint cid s ≡ o
      → IdOf a.new_id r.x_correlation_id cid
      → let (response, _) = answered d (o >>= λ p. ok (p, cid)) in
        ((id : String) × (response.x_correlation_id ≡ some id)
          × IdOf a.new_id r.x_correlation_id id)
        ⊎ (Unhandled a r s × (response ≡ internal_error))
  answered_id a r s cid (ok (response, after)) e is_id = inl (cid, refl, is_id)
  answered_id a r s cid (raised after) e is_id =
      inr (endpoint_raised a r r.endpoint r.body cid s refl refl e, refl)

  pub correlated :
      (a : Arrival) (r : Request) (s : State d)
      → let (response, _) = app d a r s in
        ((id : String) × (response.x_correlation_id ≡ some id)
          × IdOf a.new_id r.x_correlation_id id)
        ⊎ (Unhandled a r s × (response ≡ internal_error))
  unfolding app dispatch
  correlated a r s =
      let cid = (correlation_id a.new_id r.x_correlation_id).0 in
      answered_id a r s cid (endpoint d a r r.endpoint cid s) refl
        (correlation_id-IdOf a.new_id r.x_correlation_id)
