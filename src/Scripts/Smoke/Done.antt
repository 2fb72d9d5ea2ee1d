-- ===== src/Scripts/Smoke/Done.antt =====
-- scripts/smoke_brainstorm.py: check 7.
use decision_maker_flow.Prelude.{
  ℕ, String, Bool, false, none, List, [], ◌∷◌, ◌==◌, if◌then◌else◌, Outcome, ok, raised,
}
use decision_maker_flow.Prelude.Int.{ℤ, pos, negsuc}
use decision_maker_flow.Json.{Json, str, arr, end, field, truthy}
use decision_maker_flow.Http.{done, Response}
use decision_maker_flow.Scripts.Smoke.{
  both_done, skipped, done_failures, Verdict, Machine, Primitives, pass, reject, Crash, slice_error,
  Checked, rtt_since,
}
use decision_maker_flow.Scripts.Smoke.Probes.{bare_post}
use decision_maker_flow.Scripts.Smoke.Tokens.{mint_bearer_inline}
use decision_maker_flow.Scripts.Smoke.Turns.{with_headers, fresh_bearer}

abbrev pub status_of : Outcome String Response → ℤ
status_of (raised exc) = negsuc 0
status_of (ok resp) = pos resp.status_code

abbrev is_success : ℤ → Bool
is_success (pos n) = n == 200
is_success (negsuc n) = false

-- [r for r in results_done if r[1] != 200]
unfoldable pub failures_of : List (ℕ × ℤ) → List (ℕ × ℤ)
failures_of [] = []
failures_of ((n, status) ∷ rs) =
    let rest = failures_of rs in if is_success status then rest else (n, status) ∷ rest

-- `session_id[:8]` raises on what is no text and no list.
abbrev sliced : Json → Verdict → Outcome Crash Verdict
sliced (str s) v = ok v
sliced (arr vs) v = ok v
sliced _ v = raised slice_error

abbrev done_verdict : (session_id : Json) (rtt_ms : ℕ) → List (ℕ × ℤ) → Outcome Crash Verdict
done_verdict session_id rtt_ms [] = sliced session_id (pass both_done rtt_ms)
done_verdict session_id rtt_ms (f ∷ fs) = ok (reject (done_failures (f ∷ fs)) rtt_ms)

module _ (prims : Primitives) (m : Machine) (base_url : String) (secret : prims.crypto.Bytes) where
  -- The loop over the attempts.
  unfoldable pub done_attempts : (session_id : Json) → List ℕ → m.World → List (ℕ × ℤ) × m.World
  unfolding mint_bearer_inline
  done_attempts session_id [] w = ([], w)
  done_attempts session_id (n ∷ ns) w =
      let (reply, after) =
        m.send base_url
          (with_headers (fresh_bearer prims m base_url secret session_id w) none
            (bare_post done (field "session_id" session_id end)))
          w in
      let (results, last) = done_attempts session_id ns after in
      ((n, status_of reply) ∷ results, last)

  unfoldable pub check_7_done_idempotent : (session_id : Json) → m.World → Checked m
  unfolding done_attempts failures_of
  check_7_done_idempotent session_id start =
      let (results, w) = done_attempts session_id (1 ∷ 2 ∷ []) start in
      if truthy session_id
      then (done_verdict session_id (rtt_since m start w) (failures_of results), w)
      else (ok (pass skipped 0), start)
