-- ===== src/Server/Auth/Verify.antt =====
-- verify_session_token and mint_session_token of server/auth.py.
use Prim.Native.String.{◌++◌ as ◌++ˢ◌}
use decision_maker_flow.Prelude.{
  String, Bool, true, false, Option, none, some, List, [], ◌∷◌, str_eq, if◌then◌else◌, Outcome, ok,
  raised, ◌>>=◌,
}
use decision_maker_flow.Prelude.Int.{ℤ, pos, ltb_ℤ}
use decision_maker_flow.Json.{
  Json, null, bool, int, float, str, arr, obj, Fields, end, field, nonempty, Whole, whole, nan, inf,
}
use decision_maker_flow.Server.Auth.{
  Loaded, loaded, decode_error, other_error, Crypto, malformed, bad_version, bad_signature, expired,
  wrong_service, missing_session, VerifyError, auth_error, uncaught, TokenClaims, after_prefix,
  split_dots, is_uuid4,
}

abbrev pub or_raise {ℓ} : {A : Type ℓ} → Option A → VerifyError → Outcome VerifyError A
or_raise none e = raised e
or_raise (some a) e = ok a

abbrev pub ensure : Bool → VerifyError → Outcome VerifyError (Unit {0})
ensure true e = ok tt
ensure false e = raised e

-- raw[key]
unfoldable pub lookup : String → Fields → Option Json
lookup key end = none
lookup key (field k v fs) = if str_eq k key then some v else lookup key fs

-- raw.pop(key, None)
unfoldable pub pop : String → Fields → Fields
pop key end = end
pop key (field k v fs) = let rest = pop key fs in if str_eq k key then rest else field k v rest

-- The three parts of a token.
abbrev pub three_parts : List String → Outcome VerifyError (String × String × String)
three_parts (a ∷ b ∷ c ∷ []) = ok (a, b, c)
three_parts _ = raised (auth_error malformed)

-- The header, if it is present and not empty.
abbrev pub present : Option String → Outcome VerifyError String
present none = raised (auth_error malformed)
present (some h) = if nonempty h then ok h else raised (auth_error malformed)

-- The payload as a dict: a list, a text or a number has no `pop` that takes these arguments.
abbrev pub as_dict : Loaded → Outcome VerifyError Fields
as_dict (loaded (obj fs)) = ok (pop "iat" (pop "user_id" fs))
as_dict (loaded v) = raised uncaught
as_dict decode_error = raised (auth_error malformed)
as_dict other_error = raised uncaught

module _ (crypto : Crypto) where
  -- str(v)
  abbrev pub text : Json → String
  text (str s) = s
  text v = crypto.shown v

  abbrev whole_int : Whole → Outcome VerifyError ℤ
  whole_int (whole z) = ok z
  whole_int nan = raised (auth_error malformed)
  whole_int inf = raised uncaught

  -- int(v): the OverflowError of an infinity is not caught, TypeError and ValueError are.
  abbrev pub integer : Json → Outcome VerifyError ℤ
  integer (int z) = ok z
  integer (bool true) = ok (pos 1)
  integer (bool false) = ok (pos 0)
  integer (float f) = whole_int f.truncated
  integer (str s) = or_raise (crypto.parsed_int s) (auth_error malformed)
  integer null = raised (auth_error malformed)
  integer (arr vs) = raised (auth_error malformed)
  integer (obj fs) = raised (auth_error malformed)

  unfoldable pub claims_of : Fields → Outcome VerifyError TokenClaims
  claims_of raw = do
    service ← or_raise (lookup "service_id" raw) (auth_error malformed)
    session ← or_raise (lookup "session_id" raw) (auth_error malformed)
    expiry ← or_raise (lookup "exp" raw) (auth_error malformed)
    exp ← integer expiry
    ok (record { service_id = text service; session_id = text session; exp = exp })

  -- The three checks of the claims.
  unfoldable pub check_claims :
      (required_service_id : String) (now : ℤ) → TokenClaims → Outcome VerifyError TokenClaims
  check_claims required_service_id now claims = do
    right ← ensure (str_eq claims.service_id required_service_id) (auth_error wrong_service)
    named ← ensure (is_uuid4 claims.session_id) (auth_error missing_session)
    alive ← ensure (ltb_ℤ now claims.exp) (auth_error expired)
    ok claims

  -- From the three parts to the payload, whose signature was compared.
  unfoldable pub authentic_payload :
      (secret : crypto.Bytes) → String × String × String → Outcome VerifyError crypto.Bytes
  authentic_payload secret (version, payload_part, sig_part) = do
    v1 ← ensure (str_eq version "v1") (auth_error bad_version)
    payload ← or_raise (crypto.b64url_decode payload_part) (auth_error malformed)
    sig ← or_raise (crypto.b64url_decode sig_part) (auth_error malformed)
    genuine ← ensure (crypto.same (crypto.hmac secret payload) sig) (auth_error bad_signature)
    ok payload

  unfoldable pub verify_session_token :
      (raw_authorization_header : Option String) (required_service_id : String) (now : ℤ)
      (secret : crypto.Bytes)
      → Outcome VerifyError TokenClaims
  unfolding authentic_payload claims_of check_claims
  verify_session_token raw_authorization_header required_service_id now secret = do
    header ← present raw_authorization_header
    raw_token ← or_raise (after_prefix "Bearer " header) (auth_error malformed)
    parts ← three_parts (split_dots raw_token)
    payload ← authentic_payload secret parts
    raw ← as_dict (crypto.loads payload)
    claims ← claims_of raw
    check_claims required_service_id now claims

  unfoldable pub mint_session_token :
      (secret : crypto.Bytes) (service_id session_id : String) (exp : ℤ) → String
  mint_session_token secret service_id session_id exp =
      let payload = crypto.dumps exp service_id session_id in
      "v1."
      ++ˢ (crypto.b64url_encode payload
          ++ˢ ("." ++ˢ crypto.b64url_encode (crypto.hmac secret payload)))
