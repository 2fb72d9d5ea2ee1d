-- ===== src/Server/Tokens.antt =====
-- What a verified session token shows, and that a minted one verifies.
use Prim.Native.String.{String, [] as empty, ◌∷◌ as ◌∷ˢ◌}
use decision_maker_flow.Prelude.{
  ◌≡◌, ◌≢◌, List, bind_raised, inl, inr, refl, true, false, Option, none, some, [], ◌∷◌, str_eq,
  eq_iff, arith, ok, raised, ap, ◌∙◌, bind_inv, if◌then◌else◌,
}
use decision_maker_flow.Prelude.Int.{ℤ, ltb_ℤ, ◌<ℤ◌}
use decision_maker_flow.Json.{obj, Fields, end, field}
use decision_maker_flow.Server.Auth.{
  loaded, Crypto, VerifyError, malformed, wrong_service, bad_signature, auth_error, TokenClaims,
  after_prefix, split_dots, is_uuid4,
}
use decision_maker_flow.Server.Auth.Verify.{
  lookup, pop, as_dict, claims_of, check_claims, authentic_payload, verify_session_token, present,
  three_parts, or_raise,
}

present_ok : (h : Option String) {s : String} → present h ≡ ok s → h ≡ some s
present_ok none e = cc
present_ok (some h) e = ground arith

or_raise_ok :
    {A : Type 0} (o : Option A) (e : VerifyError) {a : A} → or_raise o e ≡ ok a → o ≡ some a
or_raise_ok none e h = cc
or_raise_ok (some a) e h = ground arith

three_parts_ok :
    (ps : List String) {a b c : String} → three_parts ps ≡ ok (a, b, c) → ps ≡ a ∷ b ∷ c ∷ []
three_parts_ok [] e = cc
three_parts_ok (a ∷ []) e = cc
three_parts_ok (a ∷ b ∷ []) e = cc
three_parts_ok (a ∷ b ∷ c ∷ []) e = ground arith
three_parts_ok (a ∷ b ∷ c ∷ d ∷ ps) e = cc

module _ (crypto : Crypto) where
  -- The payload of a token that was sent with its signature.
  pub record Signed (header : Option String) (secret payload : crypto.Bytes) : Type 0 where
    pub shown : String
    pub sent : header ≡ some shown
    pub token : String
    pub bearer : after_prefix "Bearer " shown ≡ some token
    pub payload_part : String
    pub sig_part : String
    pub parts : split_dots token ≡ "v1" ∷ payload_part ∷ sig_part ∷ []
    pub payload_decoded : crypto.b64url_decode payload_part ≡ some payload
    pub sig : crypto.Bytes
    pub sig_decoded : crypto.b64url_decode sig_part ≡ some sig
    pub genuine : crypto.same (crypto.hmac secret payload) sig ≡ true

  -- What stands behind claims that were verified.
  pub record Verified (header : Option String) (required_service_id : String) (now : ℤ)
      (secret : crypto.Bytes) (claims : TokenClaims) : Type 0 where
    pub payload : crypto.Bytes
    pub signed : Signed header secret payload
    pub raw : Fields
    pub dict : as_dict (crypto.loads payload) ≡ ok raw
    pub claimed : claims_of crypto raw ≡ ok claims
    pub service : claims.service_id ≡ required_service_id
    pub session : is_uuid4 claims.session_id ≡ true
    pub alive : now <ℤ claims.exp

  check_claims_ok :
      (required : String) (now : ℤ) (c : TokenClaims) {claims : TokenClaims}
      → check_claims crypto required now c ≡ ok claims
      → (c ≡ claims)
        × (str_eq c.service_id required ≡ true)
        × (is_uuid4 c.session_id ≡ true)
        × (ltb_ℤ now c.exp ≡ true)
  unfolding check_claims
  check_claims_ok required now c h = ground arith

  authentic_payload_ok :
      (secret : crypto.Bytes) (version payload_part sig_part : String) {payload : crypto.Bytes}
      → authentic_payload crypto secret (version, payload_part, sig_part) ≡ ok payload
      → (sig : crypto.Bytes) × (str_eq version "v1" ≡ true)
        × (crypto.b64url_decode payload_part ≡ some payload)
        × (crypto.b64url_decode sig_part ≡ some sig)
        × (crypto.same (crypto.hmac secret payload) sig ≡ true)
  unfolding authentic_payload
  authentic_payload_ok secret version payload_part sig_part h = ground arith

  signed_lem :
      (header : Option String) (secret payload : crypto.Bytes)
      (shown token version payload_part sig_part : String)
      → present header ≡ ok shown
      → or_raise (after_prefix "Bearer " shown) (auth_error malformed) ≡ ok token
      → three_parts (split_dots token) ≡ ok (version, payload_part, sig_part)
      → authentic_payload crypto secret (version, payload_part, sig_part) ≡ ok payload
      → Signed header secret payload
  signed_lem header secret payload shown token version payload_part sig_part e1 e2 e3 e4 =
      let (sig, v1, d1, d2, genuine) =
        authentic_payload_ok secret version payload_part sig_part e4 in
      record {
        shown = shown;
        sent = present_ok header e1;
        token = token;
        bearer = or_raise_ok (after_prefix "Bearer " shown) _ e2;
        payload_part = payload_part;
        sig_part = sig_part;
        parts =
            three_parts_ok (split_dots token) e3
            ∙ ap (λ v. v ∷ payload_part ∷ sig_part ∷ []) ((eq_iff version "v1").0 v1);
        payload_decoded = d1;
        sig = sig;
        sig_decoded = d2;
        genuine = genuine;
      }

  -- Claims are verified only from a payload whose HMAC under the secret is the signature that was
  -- sent: it is a JSON object that holds the claims, for the required service, with a session id
  -- that is a UUID of version 4, and not expired.
  pub verified :
      (header : Option String) (required_service_id : String) (now : ℤ) (secret : crypto.Bytes)
      {claims : TokenClaims}
      → verify_session_token crypto header required_service_id now secret ≡ ok claims
      → Verified header required_service_id now secret claims
  unfolding verify_session_token
  verified header required_service_id now secret h =
      let (shown, e1, h1) = bind_inv (present header) h in
      let (token, e2, h2) = bind_inv (or_raise (after_prefix "Bearer " shown) _) h1 in
      let ((version, payload_part, sig_part), e3, h3) =
        bind_inv (three_parts (split_dots token)) h2 in
      let (payload, e4, h4) =
        bind_inv (authentic_payload crypto secret (version, payload_part, sig_part)) h3 in
      let (raw, e5, h5) = bind_inv (as_dict (crypto.loads payload)) h4 in
      let (claims, e6, h6) = bind_inv (claims_of crypto raw) h5 in
      let (same, service, session, alive) = check_claims_ok required_service_id now claims h6 in
      record {
        payload = payload;
        signed =
            signed_lem header secret payload shown token version payload_part sig_part e1 e2 e3 e4;
        raw = raw;
        dict = e5;
        claimed = ground (arith, e6, same);
        service = ground (arith, same, service, eq_iff claims.service_id required_service_id);
        session = ground (arith, same, session);
        alive = ground (arith, same, alive);
      }

present_other : (h : Option String) → present h ≢ raised (auth_error wrong_service)
present_other none e = cc
present_other (some h) e = ground arith

or_raise_other :
    {A : Type 0} (o : Option A) {e e' : VerifyError} → e ≢ e' → or_raise o e ≢ raised e'
or_raise_other none other h = ground arith
or_raise_other (some a) other h = cc

three_parts_other : (ps : List String) → three_parts ps ≢ raised (auth_error wrong_service)
three_parts_other [] e = cc
three_parts_other (a ∷ []) e = cc
three_parts_other (a ∷ b ∷ []) e = cc
three_parts_other (a ∷ b ∷ c ∷ []) e = cc
three_parts_other (a ∷ b ∷ c ∷ d ∷ ps) e = cc

payload_other :
    (crypto : Crypto) (secret : crypto.Bytes) (version payload_part sig_part : String)
    → authentic_payload crypto secret (version, payload_part, sig_part)
      ≢ raised (auth_error wrong_service)
unfolding authentic_payload
payload_other crypto secret version payload_part sig_part e = ground arith

-- A token is refused for its service only if its payload was sent with a signature that is its HMAC
-- under the secret.
pub wrong_service_genuine :
    (crypto : Crypto) (header : Option String) (required_service_id : String) (now : ℤ)
    (secret : crypto.Bytes)
    → verify_session_token crypto header required_service_id now secret
      ≡ raised (auth_error wrong_service)
    → (payload : crypto.Bytes) × Signed crypto header secret payload
unfolding verify_session_token
wrong_service_genuine crypto header required now secret h = elim (bind_raised (present header) h) [
  | inl e ↦ absurd (present_other header e)
  | inr (shown, e1, h1) ↦
      elim (bind_raised (or_raise (after_prefix "Bearer " shown) (auth_error malformed)) h1) [
        | inl e ↦ absurd (or_raise_other (after_prefix "Bearer " shown) (λ q. cc) e)
        | inr (token, e2, h2) ↦ elim (bind_raised (three_parts (split_dots token)) h2) [
          | inl e ↦ absurd (three_parts_other (split_dots token) e)
          | inr ((version, payload_part, sig_part), e3, h3) ↦
              elim (bind_raised (authentic_payload crypto secret (version, payload_part, sig_part))
                h3) [
                  | inl e ↦ absurd (payload_other crypto secret version payload_part sig_part e)
                  | inr (payload, e4, h4) ↦ (
                    payload,
                    signed_lem crypto header secret payload shown token version payload_part
                        sig_part e1 e2 e3 e4,
                  )
                ]
        ]
      ]
]

lookup-pop :
    (k j : String) (fs : Fields) → lookup j (pop k fs) ≡ (if str_eq k j then none else lookup j fs)
unfolding lookup pop
lookup-pop k j end = ground arith
lookup-pop k j (field i v fs) =
    ground (arith, lookup-pop k j fs, eq_iff i k, eq_iff i j, eq_iff k j)

-- The dict of a payload that is read has no `user_id` and no `iat`, and its other keys are those of
-- the payload.
pub no_identity :
    (fs : Fields) {raw : Fields} (key : String)
    → as_dict (loaded (obj fs)) ≡ ok raw
    → str_eq "user_id" key ≡ false
    → str_eq "iat" key ≡ false
    → (lookup "user_id" raw ≡ none) × (lookup "iat" raw ≡ none) × (lookup key raw ≡ lookup key fs)
no_identity fs key h user iat = ground (
  arith,
  lookup-pop "iat" "user_id" (pop "user_id" fs),
  lookup-pop "user_id" "user_id" fs,
  lookup-pop "iat" "iat" (pop "user_id" fs),
  lookup-pop "iat" key (pop "user_id" fs),
  lookup-pop "user_id" key fs,
)

bearer_shown :
    (h : String) {t : String} → after_prefix "Bearer " h ≡ some t → present (some h) ≡ ok h
unfolding after_prefix
bearer_shown empty e = ground arith
bearer_shown (c ∷ˢ s) e = refl

-- A token of three parts whose signature is not the HMAC of its payload under the secret is refused
-- for its signature, whatever the payload holds.
pub forged :
    (crypto : Crypto) (header token payload_part sig_part required_service_id : String) (now : ℤ)
    (secret payload sig : crypto.Bytes)
    → after_prefix "Bearer " header ≡ some token
    → split_dots token ≡ "v1" ∷ payload_part ∷ sig_part ∷ []
    → crypto.b64url_decode payload_part ≡ some payload
    → crypto.b64url_decode sig_part ≡ some sig
    → crypto.same (crypto.hmac secret payload) sig ≡ false
    → verify_session_token crypto (some header) required_service_id now secret
      ≡ raised (auth_error bad_signature)
unfolding verify_session_token authentic_payload
forged crypto header token payload_part sig_part required now secret payload sig e parts d1 d2 bad =
    rw (bearer_shown header e, e, parts, d1, d2, bad) refl
