-- ===== src/Server/TokenTests.antt =====
-- The theorems about session tokens at concrete inputs.
use Prim.Native.String.{◌++◌ as ◌++ˢ◌}
use decision_maker_flow.Prelude.{
  len, ◌≡◌, refl, String, Bool, true, false, Option, none, some, ok, arith, str_eq, if◌then◌else◌,
}
use decision_maker_flow.Prelude.Int.{pos}
use decision_maker_flow.Json.{int, str, obj, Fields, end, field}
use decision_maker_flow.Server.Auth.{
  Loaded, loaded, decode_error, Crypto, TokenClaims, after_prefix, split_dots, matches_places,
  is_uuid4,
}
use decision_maker_flow.Server.Auth.Verify.{
  lookup, pop, claims_of, check_claims, authentic_payload, verify_session_token, mint_session_token,
}
use decision_maker_flow.Server.Minting.{no_dot}
use decision_maker_flow.Server.Auth.Base64.{
  equals_signs, all_url_safe, Encoded, Base64, with_base64,
}
use decision_maker_flow.Server.Padding.{minted_unpadded}
use decision_maker_flow.Server.Tokens.{Verified, verified}

-- The byte strings of the examples.
data Sample : Type 0 where
  payload mac other : Sample

abbrev same : Sample → Sample → Bool
same payload payload = true
same mac mac = true
same other other = true
same a b = false

abbrev encode : Sample → String
encode payload = "p"
encode mac = "m"
encode other = "x"

abbrev decode : String → Option Sample
decode s =
    if str_eq s "p"
    then some payload
    else if str_eq s "m"
    then some mac
    else if str_eq s "x"
    then some other
    else none

abbrev sign : Sample → Sample → Sample
sign secret payload = mac
sign secret _ = other

abbrev session : String
session = "123e4567-e89b-42d3-a456-426614174000"

abbrev held : Fields
held =
    field "exp" (int (pos 2000))
      (field "service_id" (str "brainstorm") (field "session_id" (str session) end))

abbrev load : Sample → Loaded
load payload = loaded (obj held)
load _ = decode_error

abbrev crypto : Crypto
crypto = record {
  Bytes = Sample;
  same = same;
  b64url_decode = decode;
  b64url_encode = encode;
  hmac = sign;
  loads = load;
  dumps = λ exp service_id session_id. payload;
  shown = λ v. "";
  parsed_int = λ s. none;
}

abbrev claims : TokenClaims
claims = record { service_id = "brainstorm"; session_id = session; exp = pos 2000 }

checked : Unit {0}
unfolding verify_session_token mint_session_token authentic_payload claims_of check_claims lookup
    pop after_prefix split_dots matches_places is_uuid4 no_dot
checked = tt

verified_example : Verified crypto (some "Bearer v1.p.m") "brainstorm" (pos 1000) other claims
unfolding checked
verified_example = verified crypto (some "Bearer v1.p.m") "brainstorm" (pos 1000) other refl

-- RFC 4648's code of one byte, for three bytes.
abbrev encoded : Sample → String
encoded payload = "cA=="
encoded mac = "bQ=="
encoded other = "eA=="

abbrev decoded : String → Option Sample
decoded s =
    if str_eq s "cA=="
    then some payload
    else if str_eq s "bQ=="
    then some mac
    else if str_eq s "eA=="
    then some other
    else none

decoded-encoded : (b : Sample) → decoded (encoded b) ≡ some b
decoded-encoded payload = refl
decoded-encoded mac = refl
decoded-encoded other = refl

encoded_form : (b : Sample) → Encoded (encoded b)
unfolding equals_signs all_url_safe len
encoded_form payload = record {
  body = "cA";
  pad = 2;
  parts = refl;
  safe = refl;
  short = omega arith;
  whole = refl;
}
encoded_form mac = record {
  body = "bQ";
  pad = 2;
  parts = refl;
  safe = refl;
  short = omega arith;
  whole = refl;
}
encoded_form other = record {
  body = "eA";
  pad = 2;
  parts = refl;
  safe = refl;
  short = omega arith;
  whole = refl;
}

abbrev base64 : Base64 Sample
base64 = record {
  urlsafe_b64encode = encoded;
  urlsafe_b64decode = decoded;
  decode-encode = decoded-encoded;
  encoded = encoded_form;
}

-- The token is "Bearer v1.cA.bQ".
minted_unpadded_example :
    let padded = with_base64 crypto base64 in
    verify_session_token padded
      (some ("Bearer " ++ˢ mint_session_token padded other "brainstorm" session (pos 2000)))
      "brainstorm"
      (pos 1000)
      other
    ≡ ok claims
unfolding checked
minted_unpadded_example =
    minted_unpadded crypto base64 other "brainstorm" session (pos 2000) (pos 1000) refl refl refl
      (omega arith)
