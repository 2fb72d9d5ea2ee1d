-- ===== src/Server/Minting.antt =====
-- A token of mint_session_token goes through verify_session_token, server/auth.py.
use Prim.Native.Char.{Char, code}
use Prim.Native.String.{String, [] as empty, ◌∷◌ as ◌∷ˢ◌, ◌++◌ as ◌++ˢ◌}
use text.Mathlib.TextLemmas.{nil-append, cons-append, append_assoc}
use decision_maker_flow.Prelude.{
  ◌≡◌, refl, Bool, true, false, some, [], ◌∷◌, ◌==◌, eq_refl, arith, ok, ap, ◌∙◌, if◌then◌else◌,
}
use decision_maker_flow.Prelude.Int.{ℤ, ◌<ℤ◌}
use decision_maker_flow.Json.{int, str, obj, end, field, nonempty}
use decision_maker_flow.Server.Auth.{loaded, Crypto, after_prefix, split_dots, is_uuid4}
use decision_maker_flow.Server.Auth.Verify.{
  lookup, pop, claims_of, check_claims, authentic_payload, verify_session_token, mint_session_token,
  present,
}

pub after_prefix-append : (p t : String) → after_prefix p (p ++ˢ t) ≡ some t
unfolding after_prefix
after_prefix-append empty t = rw nil-append refl
after_prefix-append (c ∷ˢ p) t = rw cons-append (ground (arith, after_prefix-append p t))

-- No character is a dot.
unfoldable pub no_dot : String → Bool
no_dot empty = true
no_dot (c ∷ˢ s) = let rest = no_dot s in if code c == 46 then false else rest

single : (c : Char) (s : String) → (c ∷ˢ empty) ++ˢ s ≡ c ∷ˢ s
single c s = cons-append c empty s ∙ ap (λ t. c ∷ˢ t) (nil-append s)

pub split_dots-no_dot : (s : String) → no_dot s ≡ true → split_dots s ≡ s ∷ []
unfolding split_dots no_dot
split_dots-no_dot empty h = refl
split_dots-no_dot (c ∷ˢ s) h = ground (arith, split_dots-no_dot s, single c s)

pub split_dots-append :
    (a b : String) → no_dot a ≡ true → split_dots (a ++ˢ ("." ++ˢ b)) ≡ a ∷ split_dots b
unfolding split_dots no_dot
split_dots-append empty b h = rw (nil-append ("." ++ˢ b)) (ap split_dots (single _ b))
split_dots-append (c ∷ˢ a) b h =
    rw (cons-append c a ("." ++ˢ b)) (ground (arith, split_dots-append a b, single c a))

pub present_bearer : (t : String) → present (some ("Bearer " ++ˢ t)) ≡ ok ("Bearer " ++ˢ t)
present_bearer t =
    let shown : nonempty ("Bearer " ++ˢ t) ≡ true = ap nonempty (cons-append _ "earer " t) in
    rw shown refl

pub split_token :
    (payload_part sig_part : String)
    → no_dot payload_part ≡ true
    → no_dot sig_part ≡ true
    → split_dots ("v1." ++ˢ (payload_part ++ˢ ("." ++ˢ sig_part)))
      ≡ "v1" ∷ payload_part ∷ sig_part ∷ []
unfolding no_dot
split_token payload_part sig_part n1 n2 =
    ap split_dots (append_assoc "v1" "." (payload_part ++ˢ ("." ++ˢ sig_part)))
    ∙ split_dots-append "v1" (payload_part ++ˢ ("." ++ˢ sig_part)) refl
    ∙ ap (λ l. "v1" ∷ l) (split_dots-append payload_part sig_part n1)
    ∙ ap (λ l. "v1" ∷ payload_part ∷ l) (split_dots-no_dot sig_part n2)

module _ (crypto : Crypto) where
  -- A token that is minted verifies for its service as its claims while it is not expired and its
  -- session id is a UUID of version 4, where base64 decodes what it encoded and has no dots, the
  -- comparison of a signature with itself succeeds, and the decoder reads the three claims back.
  pub minted :
      (secret : crypto.Bytes) (service_id session_id : String) (exp now : ℤ)
      → let payload = crypto.dumps exp service_id session_id in
        let sig = crypto.hmac secret payload in
        crypto.b64url_decode (crypto.b64url_encode payload) ≡ some payload
        → crypto.b64url_decode (crypto.b64url_encode sig) ≡ some sig
        → no_dot (crypto.b64url_encode payload) ≡ true
        → no_dot (crypto.b64url_encode sig) ≡ true
        → crypto.same sig sig ≡ true
        → crypto.loads payload
          ≡ loaded (
              obj (
                field "exp"
                  (int exp)
                  (field "service_id" (str service_id) (field "session_id" (str session_id) end))))
        → is_uuid4 session_id ≡ true
        → now <ℤ exp
        → verify_session_token crypto
            (some ("Bearer " ++ˢ mint_session_token crypto secret service_id session_id exp))
            service_id
            now
            secret
          ≡ ok (record { service_id = service_id; session_id = session_id; exp = exp })
  unfolding verify_session_token mint_session_token lookup pop claims_of check_claims
      authentic_payload
  minted secret service_id session_id exp now d1 d2 n1 n2 own back uuid alive =
      let payload = crypto.dumps exp service_id session_id in
      let payload_part = crypto.b64url_encode payload in
      let sig_part = crypto.b64url_encode (crypto.hmac secret payload) in
      let token = mint_session_token crypto secret service_id session_id exp in
      rw
        (
          present_bearer token,
          after_prefix-append "Bearer " token,
          split_token payload_part sig_part n1 n2,
          d1,
          d2,
          own,
          back,
        )
        (ground (arith, eq_refl service_id, uuid, alive))
