-- ===== src/Scripts/Smoke/Tokens.antt =====
-- scripts/smoke_brainstorm.py: the tokens that the script makes, and the counters that it reads.
use Prim.Native.Char.{Char, code}
use Prim.Native.String.{[] as empty, ◌∷◌ as ◌∷ˢ◌, ◌++◌ as ◌++ˢ◌}
use decision_maker_flow.Prelude.{
  String, Bool, true, false, not, ◌&&◌, Option, none, some, List, [], ◌∷◌, ◌==◌, if◌then◌else◌,
  Outcome, ok, raised, ◌>>=◌,
}
use decision_maker_flow.Prelude.Int.{ℤ, pos, negsuc}
use decision_maker_flow.Json.{Json, str, int, end, field}
use decision_maker_flow.Http.{metrics, Response}
use decision_maker_flow.Server.Auth.{split_dots, after_prefix}
use decision_maker_flow.Scripts.Smoke.{
  Primitives, Machine, includes, splitlines, last_word, Crash, index_error,
}
use decision_maker_flow.Scripts.Smoke.Probes.{get_request}

-- `_mint_bearer_inline`; the session id is whatever the server's JSON has given.
unfoldable pub mint_bearer_inline :
    (prims : Primitives) (service_id : String) (session_id : Json) (exp : ℤ)
    (secret : prims.crypto.Bytes)
    → String
mint_bearer_inline prims service_id session_id exp secret =
    let payload_bytes = prims.dumps (
      field "exp" (int exp)
        (field "service_id" (str service_id) (field "session_id" session_id end))) in
    "Bearer v1."
    ++ˢ (prims.crypto.b64url_encode payload_bytes
        ++ˢ ("." ++ˢ prims.crypto.b64url_encode (prims.crypto.hmac secret payload_bytes)))

abbrev pub replacement : Char → String
replacement last_char = if code last_char == 66 then "A" else "B"

-- The signature with its last character replaced.
unfoldable pub forge_signature : String → Outcome Crash String
forge_signature empty = raised index_error
forge_signature (c ∷ˢ empty) = ok (replacement c)
forge_signature (c ∷ˢ d ∷ˢ s) = forge_signature (d ∷ˢ s) >>= λ forged. ok (c ∷ˢ forged)

abbrev forged_parts : (valid_bearer : String) → List String → Outcome Crash String
forged_parts valid_bearer (a ∷ b ∷ sig ∷ []) =
    forge_signature sig >>= λ forged. ok (a ++ˢ ("." ++ˢ (b ++ˢ ("." ++ˢ forged))))
forged_parts valid_bearer _ = ok (valid_bearer ++ˢ "FORGED")

-- The forged token of check 5.
unfoldable pub forged_bearer : (valid_bearer : String) → Outcome Crash String
unfolding forge_signature split_dots
forged_bearer valid_bearer = forged_parts valid_bearer (split_dots valid_bearer)

abbrev starts_with : (prefix s : String) → Bool
starts_with prefix s = elim (after_prefix prefix s) [ none ↦ false | some rest ↦ true ]

abbrev or_minus_one : Option ℤ → ℤ
or_minus_one none = negsuc 0
or_minus_one (some n) = n

abbrev number_of : (int_float : String → Option ℤ) → Option String → ℤ
number_of int_float none = negsuc 0
number_of int_float (some word) = or_minus_one (int_float word)

-- The value in the first line of a family with a label, 0 where there is none.
unfoldable pub count_in : (int_float : String → Option ℤ) (family label : String) → List String → ℤ
unfolding includes last_word after_prefix
count_in int_float family label [] = pos 0
count_in int_float family label (line ∷ lines) =
    let rest = count_in int_float family label lines in
    if includes family line && includes label line && not (starts_with "#" line)
    then number_of int_float (last_word line)
    else rest

abbrev count_response :
    (int_float : String → Option ℤ) (family label : String) → Outcome String Response → ℤ
count_response int_float family label (raised exc) = negsuc 0
count_response int_float family label (ok r) =
    if r.status_code == 200 then count_in int_float family label (splitlines r.text) else negsuc 0

module _ (prims : Primitives) (m : Machine) (base_url : String) where
  -- `_scrape_bad_sig_count` and `_scrape_idempotent_header_count`.
  unfoldable pub scrape : (family label : String) → m.World → ℤ × m.World
  unfolding count_in splitlines
  scrape family label w =
      let (reply, after) = m.send base_url (get_request metrics) w in
      (count_response prims.int_float family label reply, after)
