-- ===== src/Server/HexIds.antt =====
-- Tokens for session ids without dashes, such as the ids that server/turn_api.py makes by
-- uuid4().hex, under the pattern of server/auth.py.
use Prim.Native.Char.{code}
use Prim.Native.String.{String, [] as empty, ◌∷◌ as ◌∷ˢ◌, ◌++◌ as ◌++ˢ◌}
use text.Mathlib.TextLemmas.{append_assoc}
use decision_maker_flow.Prelude.{
  ℕ, ◌≡◌, refl, Bool, true, false, not, ◌&&◌, some, List, ◌∷◌, ◌==◌, arith, raised, Bool-cases, inl,
  inr,
}
use decision_maker_flow.Prelude.Int.{ℤ}
use decision_maker_flow.Json.{int, str, obj, end, field}
use decision_maker_flow.Server.Auth.{
  loaded, Crypto, Reason, auth_error, bad_signature, missing_session, matches_places, uuid4_places,
  is_uuid4,
}
use decision_maker_flow.Server.Auth.Verify.{
  lookup, pop, claims_of, check_claims, authentic_payload, verify_session_token,
}
use decision_maker_flow.Server.Minting.{no_dot, after_prefix-append, present_bearer, split_token}

-- No character is a dash.
unfoldable pub no_dash : String → Bool
no_dash empty = true
no_dash (c ∷ˢ s) = not (code c == 45) && no_dash s

-- No text without dashes has these places.
abbrev Unmatched : List (ℕ → Bool) → Type 0
Unmatched ps = (s : String) → no_dash s ≡ true → matches_places ps s ≡ false

Unmatched-dash : (ps : List (ℕ → Bool)) → Unmatched ((λ c. c == 45) ∷ ps)
unfolding matches_places no_dash
Unmatched-dash ps empty h = refl
Unmatched-dash ps (c ∷ˢ s) h = ground arith

Unmatched-later : (p : ℕ → Bool) (ps : List (ℕ → Bool)) → Unmatched ps → Unmatched (p ∷ ps)
unfolding matches_places no_dash
Unmatched-later p ps later empty h = refl
Unmatched-later p ps later (c ∷ˢ s) h = ground (arith, later s)

uuid4-Unmatched : Unmatched uuid4_places
uuid4-Unmatched = Unmatched-later _ _ (
    Unmatched-later _ _ (
      Unmatched-later _ _ (
        Unmatched-later _ _ (
          Unmatched-later _ _
            (Unmatched-later _ _ (Unmatched-later _ _ (Unmatched-later _ _ (Unmatched-dash _))))))))

pub no_dash-not_uuid4 : (s : String) → no_dash s ≡ true → is_uuid4 s ≡ false
unfolding is_uuid4
no_dash-not_uuid4 = uuid4-Unmatched

module _ (crypto : Crypto) where
  -- The token of any secret for a session id without dashes is refused with a reason, where base64
  -- decodes what it encoded and has no dots, and the decoder reads the three claims back.
  pub no_dash_refused :
      (secret signing : crypto.Bytes) (payload : crypto.Bytes) (session_id : String) (exp now : ℤ)
      → let sig = crypto.hmac signing payload in
        crypto.b64url_decode (crypto.b64url_encode payload) ≡ some payload
        → crypto.b64url_decode (crypto.b64url_encode sig) ≡ some sig
        → no_dot (crypto.b64url_encode payload) ≡ true
        → no_dot (crypto.b64url_encode sig) ≡ true
        → crypto.loads payload
          ≡ loaded (
              obj (
                field "exp" (int exp) (
                  field "service_id" (str "brainstorm") (field "session_id" (str session_id) end))))
        → no_dash session_id ≡ true
        → (why : Reason) × (verify_session_token crypto
              (some (
                "Bearer v1."
                ++ˢ (crypto.b64url_encode payload ++ˢ ("." ++ˢ crypto.b64url_encode sig))))
              "brainstorm"
              now
              secret
            ≡ raised (auth_error why))
  unfolding verify_session_token lookup pop claims_of check_claims authentic_payload
  no_dash_refused secret signing payload session_id exp now d1 d2 n1 n2 back flat =
      let payload_part = crypto.b64url_encode payload in
      let sig_part = crypto.b64url_encode (crypto.hmac signing payload) in
      let token = "v1." ++ˢ (payload_part ++ˢ ("." ++ˢ sig_part)) in
      let e = append_assoc "Bearer " "v1." (payload_part ++ˢ ("." ++ˢ sig_part)) in
      elim (Bool-cases (crypto.same (crypto.hmac secret payload) (crypto.hmac signing payload))) [
        | inl genuine ↦ (
          missing_session,
          rw
              (
                e,
                present_bearer token,
                after_prefix-append "Bearer " token,
                split_token payload_part sig_part n1 n2,
                d1,
                d2,
                genuine,
                back,
              )
              (ground (arith, no_dash-not_uuid4 session_id flat)),
        )
        | inr wrong ↦ (
          bad_signature,
          rw
              (
                e,
                present_bearer token,
                after_prefix-append "Bearer " token,
                split_token payload_part sig_part n1 n2,
                d1,
                d2,
                wrong,
              )
              refl,
        )
      ]
