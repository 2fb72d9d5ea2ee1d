-- ===== src/Scripts/Smoke/Refusal.antt =====
-- Check 6 of scripts/smoke_brainstorm.py against the application of server/app_factory.py.
use Prim.Native.String.{[] as empty, ◌∷◌ as ◌∷ˢ◌}
use decision_maker_flow.Prelude.{
  ℕ, ◌+◌, ◌≡◌, ◌≢◌, refl, String, true, false, Option, none, some, arith, ok, sym, ◌∙◌,
}
use decision_maker_flow.Prelude.Int.{ℤ, pos, ◌+ℤ◌}
use decision_maker_flow.Json.{Json, str, int, obj, Fields, field, end, get_or, get}
use decision_maker_flow.Http.{Response}
use decision_maker_flow.Server.Auth.{loaded}
use decision_maker_flow.Server.Auth.Verify.{lookup}
use decision_maker_flow.Server.Minting.{no_dot}
use decision_maker_flow.Server.HexIds.{no_dash, no_dash_refused}
use decision_maker_flow.Server.App.{Deployment, Arrival, State, app, turn_json, turn_body}
use decision_maker_flow.Server.Gate.{unverified-ne-ok, turn_answered}
use decision_maker_flow.Server.Idempotency.{make_key_from_header}
use decision_maker_flow.Server.TurnApi.{TurnRequest, TurnResponse, cache_key}
use decision_maker_flow.Server.TurnApi.Handlers.{Answer, handle_turn}
use decision_maker_flow.Server.Serving.{serve_ok}
use decision_maker_flow.Server.Turns.{turn_new}
use decision_maker_flow.Scripts.Smoke.{Machine, Primitives}
use decision_maker_flow.Scripts.Smoke.Tokens.{mint_bearer_inline}
use decision_maker_flow.Scripts.Smoke.Turns.{
  message, hex_of, hello, fresh_bearer, second_reply, second_request, first_body, first_fields,
  first_reply, before_turn, check_6_turn_happy,
}
use decision_maker_flow.Scripts.Smoke.Deployed.{Site, deployed}

no_dash-hex_of : (u : String) → no_dash (hex_of u) ≡ true
unfolding no_dash hex_of
no_dash-hex_of empty = refl
no_dash-hex_of (c ∷ˢ s) = ground (arith, no_dash-hex_of s)

-- The claims that the script signs.
abbrev pub claims : (session_id : String) (exp : ℤ) → Fields
claims session_id exp =
    field "exp" (int exp)
      (field "service_id" (str "brainstorm") (field "session_id" (str session_id) end))

-- What the application reads of the body and the key of check 6.
abbrev pub hello_turn : (key : String) → TurnRequest
hello_turn key = record { session_id = none; message = "hello"; idempotency_key = some key }

-- The primitives of a script, whose crypto is the application's.
abbrev pub script :
    (d : Deployment) (dumps : Fields → d.crypto.Bytes) (encode : String → d.crypto.Bytes)
    (int_float : String → Option ℤ)
    → Primitives
script d dumps encode int_float = record {
  crypto = d.crypto;
  dumps = dumps;
  encode = encode;
  int_float = int_float;
}

module _ (d : Deployment) (dumps : Fields → d.crypto.Bytes) (encode : String → d.crypto.Bytes)
    (int_float : String → Option ℤ) (arrival : ℕ → Arrival) (uuid_at : ℕ → String) (ms : ℕ → ℕ)
    (unix : ℕ → ℤ) (base_url : String) (secret : d.crypto.Bytes) where
  abbrev prims : Primitives
  prims = script d dumps encode int_float

  abbrev site : Machine
  site = deployed d arrival uuid_at ms unix

  second_reply_refused :
      (start : Site d) (count_before : ℤ) (returned : Json) (resp : Response) (w : Site d)
      → resp.status_code ≢ 200
      → (second_reply prims site base_url secret start count_before returned (ok resp) w).0.passed
        ≡ false
  unfolding second_reply
  second_reply_refused start count_before returned resp w h = ground arith

  second_request_refused :
      (start : Site d) (count_before : ℤ) (key id : String) (w : Site d)
      → let payload = dumps (claims id (unix w.steps +ℤ pos 300)) in
        let sig = d.crypto.hmac secret payload in
        d.crypto.b64url_decode (d.crypto.b64url_encode payload) ≡ some payload
        → d.crypto.b64url_decode (d.crypto.b64url_encode sig) ≡ some sig
        → no_dot (d.crypto.b64url_encode payload) ≡ true
        → no_dot (d.crypto.b64url_encode sig) ≡ true
        → d.crypto.loads payload ≡ loaded (obj (claims id (unix w.steps +ℤ pos 300)))
        → no_dash id ≡ true
        → (second_request prims site base_url secret start count_before key (str id) w).0.passed
          ≡ false
  unfolding second_request mint_bearer_inline
  second_request_refused start count_before key id w d1 d2 n1 n2 back flat =
      let exp = unix w.steps +ℤ pos 300 in
      let (why, refused) =
        no_dash_refused d.crypto d.secret secret (dumps (claims id exp)) id exp
          (arrival w.steps).now d1 d2 n1 n2 back flat in
      let request = hello (fresh_bearer prims site base_url secret (str id) w) key in
      let (resp, after) = app d (arrival w.steps) request w.state in
      second_reply_refused start count_before (str id) resp
        (record { state = after; steps = w.steps + 1 })
        (unverified-ne-ok d (arrival w.steps) request w.state refl refused)

  first_body_reply :
      (start : Site d) (count_before : ℤ) (key session_id : String) (reply : TurnResponse)
      (w : Site d)
      → first_body prims site base_url secret start count_before key session_id
          (some (turn_json reply))
          w
        ≡ second_request prims site base_url secret start count_before key (str reply.session_id) w
  unfolding first_body first_fields lookup turn_json get_or
  first_body_reply start count_before key session_id reply w = refl

  -- A first turn that passes the check without a second one.
  first_reply_passed :
      (start : Site d) (count_before : ℤ) (key session_id : String) (resp : Response) (w : Site d)
      → (resp.status_code ≡ 200
          → let (verdict, _, _) =
              first_body prims site base_url secret start count_before key session_id resp.json w in
            verdict.passed ≡ false)
      → let (verdict, _, _) =
          first_reply prims site base_url secret start count_before key session_id (ok resp) w in
        verdict.passed ≡ true → resp.status_code ≡ 408
  unfolding first_reply
  first_reply_passed start count_before key session_id resp w fails h = ground (arith, fails)

  pair_eq :
      (p : Answer d.saver d.cache) {reply : TurnResponse} → p.0 ≡ ok reply → p ≡ (ok reply, p.1)
  pair_eq (outcome, after) h = rw h refl

  fresh_reply :
      (a : Arrival) (key : String) (s : State d) {reply : TurnResponse}
      → d.cache.get a.outside.cache_read_at
          (cache_key d.digest (make_key_from_header (some key)) a.outside.uuid "hello" 0).0
          s.idempotency_cache
        ≡ none
      → (handle_turn d.digest a.outside (hello_turn key) s).0 ≡ ok reply
      → reply.session_id ≡ a.outside.uuid
  fresh_reply a key s miss h =
      let o = a.outside in
      let r = hello_turn key in
      (serve_ok d.digest o r true o.uuid 0 s miss
        (sym (turn_new d.digest o r s refl) ∙ pair_eq (handle_turn d.digest o r s) h)).session

  hello_valid :
      (key : String) → turn_body (some key) (obj (message "hello")) ≡ some (hello_turn key)
  unfolding turn_body get
  hello_valid key = refl

  -- Against the application the sixth check passes only where its first turn is answered 408,
  -- whatever the secret of the script, if the new session id is the hex of a UUID, the first turn
  -- misses the cache, and of the token for the second turn base64 decodes what it encoded and has
  -- no dots, and the decoder reads the three claims back.
  pub turn_check :
      (w : Site d) (u : String)
      → let (_, bearer, key, _, sent) = before_turn prims site base_url secret w in
        let a = arrival sent.steps in
        let exp = unix (sent.steps + 1) +ℤ pos 300 in
        let payload = dumps (claims a.outside.uuid exp) in
        let sig = d.crypto.hmac secret payload in
        a.outside.uuid ≡ hex_of u
        → d.cache.get a.outside.cache_read_at
            (cache_key d.digest (make_key_from_header (some key)) a.outside.uuid "hello" 0).0
            sent.state.idempotency_cache
          ≡ none
        → d.crypto.b64url_decode (d.crypto.b64url_encode payload) ≡ some payload
        → d.crypto.b64url_decode (d.crypto.b64url_encode sig) ≡ some sig
        → no_dot (d.crypto.b64url_encode payload) ≡ true
        → no_dot (d.crypto.b64url_encode sig) ≡ true
        → d.crypto.loads payload ≡ loaded (obj (claims a.outside.uuid exp))
        → (check_6_turn_happy prims site base_url secret w).0.passed ≡ true
        → (app d a (hello bearer key) sent.state).0.status_code ≡ 408
  unfolding check_6_turn_happy
  turn_check w u hex miss d1 d2 n1 n2 back h =
      let (session_id, bearer, key, count_before, sent) =
        before_turn prims site base_url secret w in
      let a = arrival sent.steps in
      let (resp, after) = app d a (hello bearer key) sent.state in
      let later : Site d = record { state = after; steps = sent.steps + 1 } in
      first_reply_passed w count_before key session_id resp later
        (λ fine.
          let (reply, outcome, body) =
            turn_answered d a (hello bearer key) (obj (message "hello")) (hello_turn key) sent.state
              refl refl (hello_valid key) fine in
          let given = fresh_reply a key sent.state miss outcome in
          rw (body, first_body_reply w count_before key session_id reply later, given)
            (second_request_refused w count_before key a.outside.uuid later d1 d2 n1 n2 back
              (rw hex (no_dash-hex_of u))))
        h
