-- ===== src/Scripts/Smoke/Turns.antt =====
-- scripts/smoke_brainstorm.py: checks 5 and 6.
use Prim.Native.Char.{code}
use Prim.Native.String.{[] as empty, ◌∷◌ as ◌∷ˢ◌, ◌++◌ as ◌++ˢ◌}
use decision_maker_flow.Prelude.{
  String, Bool, true, false, not, ◌&&◌, Option, none, some, List, [], ◌∷◌, ◌==◌, prefix_of,
  if◌then◌else◌, Outcome, ok, raised,
}
use decision_maker_flow.Prelude.Int.{ℤ, pos, negsuc, ◌+ℤ◌}
use decision_maker_flow.Json.{Json, str, arr, obj, Fields, end, field, get_or}
use decision_maker_flow.Http.{turn, Request, Response}
use decision_maker_flow.Server.Auth.Verify.{lookup}
use decision_maker_flow.Scripts.Smoke.{
  Raised, transport_error, attribute_error, type_error, Detail, forged_refused, timed_out,
  answered_twice, unexpected_status, unexpected_second_status, non_json, no_reply, metric_delta,
  connection_error, Verdict, Machine, Primitives, pass, reject, Crash, Checked, rtt_since,
}
use decision_maker_flow.Scripts.Smoke.Probes.{bare_post}
use decision_maker_flow.Scripts.Smoke.Tokens.{mint_bearer_inline, forged_bearer, scrape}

abbrev pub with_headers : (bearer : String) (idempotency_key : Option String) → Request → Request
with_headers bearer key r = record r { authorization = some bearer; idempotency_key = key }

abbrev pub message : String → Fields
message s = field "message" (str s) end

abbrev pub hello : (bearer key : String) → Request
hello bearer key = with_headers bearer (some key) (bare_post turn (message "hello"))

abbrev is_count : ℤ → Bool
is_count (pos n) = true
is_count (negsuc n) = false

-- What is said of the counter, read before and after; it decides nothing.
abbrev counted : (unread : Detail) (before after : ℤ) → Detail
counted unread before after =
    if is_count before && is_count after then metric_delta before after else unread

-- `uuid.hex`
unfoldable pub hex_of : String → String
hex_of empty = empty
hex_of (c ∷ˢ s) = let rest = hex_of s in if code c == 45 then rest else c ∷ˢ rest

-- The exception of `"reply" not in body` and what follows it, on a body that is no dict.
abbrev body_error : Json → Raised
body_error (str s) = attribute_error
body_error (arr vs) = attribute_error
body_error _ = type_error

module _ (prims : Primitives) (m : Machine) (base_url : String) (secret : prims.crypto.Bytes) where
  -- A token for 300 seconds.
  abbrev pub fresh_bearer : (session_id : Json) → m.World → String
  fresh_bearer session_id w =
      mint_bearer_inline prims "brainstorm" session_id (m.time w +ℤ pos 300) secret

  abbrev pub scrape_bad_sig_count : m.World → ℤ × m.World
  scrape_bad_sig_count =
      scrape prims m base_url "brainstorm_token_verify_failures_total" "reason=\"bad_signature\""

  abbrev scrape_idempotent_header_count : m.World → ℤ × m.World
  scrape_idempotent_header_count =
      scrape prims m base_url "brainstorm_idempotent_hits_total" "source=\"header\""

  -- From the response to the forged token on.
  unfoldable pub forged_reply :
      (start : m.World) (count_before : ℤ) → Outcome String Response → m.World → Checked m
  unfolding scrape
  forged_reply start count_before (raised exc) w =
      (ok (reject (connection_error (transport_error exc)) (rtt_since m start w)), w)
  forged_reply start count_before (ok resp) w =
      let (count_after, later) = scrape_bad_sig_count w in
      if not (resp.status_code == 401)
      then (ok (reject (unexpected_status resp.status_code) (rtt_since m start w)), w)
      else (
        ok (pass (counted forged_refused count_before count_after) (rtt_since m start later)),
        later,
      )

  unfoldable pub send_forged :
      (start : m.World) (count_before : ℤ) → Outcome Crash String → m.World → Checked m
  unfolding forged_reply
  send_forged start count_before (raised crash) w = (raised crash, w)
  send_forged start count_before (ok bearer) w =
      let (reply, after) =
        m.send base_url (with_headers bearer none (bare_post turn (message "ping"))) w in
      forged_reply start count_before reply after

  unfoldable pub check_5_bad_signature : m.World → Checked m
  unfolding scrape mint_bearer_inline forged_bearer send_forged
  check_5_bad_signature start =
      let (count_before, scraped) = scrape_bad_sig_count start in
      let (session_id, w) = m.uuid4 scraped in
      send_forged start count_before (forged_bearer (fresh_bearer (str session_id) w)) w

  -- The verdict of check 6, `session_id_out`, and the world behind it.
  abbrev pub Turned : Type 0
  Turned = Verdict × List Json × m.World

  -- From the response to the second turn on.
  unfoldable pub second_reply :
      (start : m.World) (count_before : ℤ) (returned : Json)
      → Outcome String Response
      → m.World
      → Turned
  unfolding scrape
  second_reply start count_before returned (raised exc) w =
      (reject (connection_error (transport_error exc)) (rtt_since m start w), returned ∷ [], w)
  second_reply start count_before returned (ok resp) w =
      let (count_after, later) = scrape_idempotent_header_count w in
      if not (resp.status_code == 200)
      then (
        reject (unexpected_second_status resp.status_code) (rtt_since m start w),
        returned ∷ [],
        w,
      )
      else (
        pass (counted answered_twice count_before count_after) (rtt_since m start later),
        returned ∷ [],
        later,
      )

  unfoldable pub second_request :
      (start : m.World) (count_before : ℤ) (key : String) (returned : Json) → m.World → Turned
  unfolding mint_bearer_inline second_reply
  second_request start count_before key returned w =
      let (reply, after) = m.send base_url (hello (fresh_bearer returned w) key) w in
      second_reply start count_before returned reply after

  -- A 200 with a dict: the `reply` must be in it.
  unfoldable pub first_fields :
      (start : m.World) (count_before : ℤ) (key session_id : String)
      → Option Json
      → Fields
      → m.World
      → Turned
  unfolding second_request
  first_fields start count_before key session_id none body w =
      (reject no_reply (rtt_since m start w), [], w)
  first_fields start count_before key session_id (some reply) body w =
      second_request start count_before key (get_or "session_id" body (str session_id)) w

  unfoldable pub first_body :
      (start : m.World) (count_before : ℤ) (key session_id : String)
      → Option Json
      → m.World
      → Turned
  unfolding first_fields lookup
  first_body start count_before key session_id none w =
      (reject non_json (rtt_since m start w), [], w)
  first_body start count_before key session_id (some (obj body)) w =
      first_fields start count_before key session_id (lookup "reply" body) body w
  first_body start count_before key session_id (some v) w =
      (reject (connection_error (body_error v)) (rtt_since m start w), str session_id ∷ [], w)

  unfoldable pub first_reply :
      (start : m.World) (count_before : ℤ) (key session_id : String)
      → Outcome String Response
      → m.World
      → Turned
  unfolding first_body
  first_reply start count_before key session_id (raised exc) w = (
    reject (connection_error (transport_error exc)) (rtt_since m start w),
    str session_id ∷ [],
    w,
  )
  first_reply start count_before key session_id (ok resp) w =
      if resp.status_code == 408
      then (pass timed_out (rtt_since m start w), str session_id ∷ [], w)
      else if not (resp.status_code == 200)
      then (reject (unexpected_status resp.status_code) (rtt_since m start w), [], w)
      else first_body start count_before key session_id resp.json w

  -- The first turn of check 6: its session id and key, and the world in which it is sent.
  unfoldable pub before_turn : m.World → String × String × String × ℤ × m.World
  unfolding mint_bearer_inline hex_of scrape
  before_turn start =
      let (session_id, w1) = m.uuid4 start in
      let (key_id, w2) = m.uuid4 w1 in
      let (count_before, w3) = scrape_idempotent_header_count w2 in
      (
        session_id,
        fresh_bearer (str session_id) w1,
        "smoke-idem-" ++ˢ prefix_of 16 (hex_of key_id),
        count_before,
        w3,
      )

  unfoldable pub check_6_turn_happy : m.World → Turned
  unfolding before_turn first_reply
  check_6_turn_happy start =
      let (session_id, bearer, key, count_before, w) = before_turn start in
      let (reply, after) = m.send base_url (hello bearer key) w in
      first_reply start count_before key session_id reply after
