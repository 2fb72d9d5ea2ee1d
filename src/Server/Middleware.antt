-- ===== src/Server/Middleware.antt =====
-- server/middleware.py: the correlation id of a request.
use decision_maker_flow.Prelude.{
  String, Bool, true, false, ◌&&◌, Option, none, some, Outcome, ok, ◌>>=◌, leb, length,
  if◌then◌else◌,
}
use decision_maker_flow.Server.Idempotency.{chars, all_key_chars, before_newline}

-- `_CORRELATION_ID_RE.match`: the characters are those of an idempotency key.
unfoldable pub matches_correlation_id : String → Bool
matches_correlation_id s =
    let body = before_newline (chars s) in
    all_key_chars body && leb 8 (length body) && leb (length body) 64

-- The id, and whether a malformed header is logged. `new_id` is uuid4().hex.
unfoldable pub correlation_id : (new_id : String) → (header : Option String) → String × Bool
unfolding matches_correlation_id
correlation_id new_id none = (new_id, false)
correlation_id new_id (some raw_cid) =
    if matches_correlation_id raw_cid then (raw_cid, false) else (new_id, true)

-- The response with the value of its X-Correlation-ID. An exception of the handler passes through.
unfoldable pub dispatch {ℓ κ} :
    {E : Type ℓ} {Response : Type κ}
    → (new_id : String) (header : Option String) (call_next : String → Outcome E Response)
    → Outcome E (Response × String)
unfolding correlation_id
dispatch new_id header call_next = do
  response ← call_next (correlation_id new_id header).0
  ok (response, (correlation_id new_id header).0)
