-- ===== src/Scripts/Smoke/Forgery.antt =====
-- The forged token of scripts/smoke_brainstorm.py, check 5.
use Prim.Native.Char.{code}
use Prim.Native.String.{String, [] as empty, ◌∷◌ as ◌∷ˢ◌, ◌++◌ as ◌++ˢ◌}
use text.Mathlib.TextLemmas.{append_assoc}
use decision_maker_flow.Prelude.{
  ◌≡◌, ◌↔◌, refl, true, none, some, ◌==◌, arith, Outcome, raised, ok, ap, sym, ◌∙◌, if◌then◌else◌,
  Bool-cases, bind_inv, inl, inr,
}
use decision_maker_flow.Prelude.Int.{ℤ, ◌<ℤ◌}
use decision_maker_flow.Json.{int, str, obj, end, field}
use decision_maker_flow.Http.{Request, Response, turn}
use decision_maker_flow.Server.Auth.{loaded, auth_error, bad_signature, is_uuid4}
use decision_maker_flow.Server.Auth.Verify.{
  lookup, pop, claims_of, check_claims, authentic_payload, verify_session_token,
}
use decision_maker_flow.Server.Minting.{
  no_dot, after_prefix-append, present_bearer, split_token, split_dots-append, split_dots-no_dot,
}
use decision_maker_flow.Scripts.Smoke.{Machine, Primitives, Crash, passes}
use decision_maker_flow.Scripts.Smoke.Probes.{bare_post}
use decision_maker_flow.Scripts.Smoke.Tokens.{
  mint_bearer_inline, replacement, forge_signature, forged_bearer,
}
use decision_maker_flow.Scripts.Smoke.Turns.{
  with_headers, message, fresh_bearer, scrape_bad_sig_count, forged_reply, send_forged,
  check_5_bad_signature,
}

module _ (prims : Primitives) (m : Machine) (base_url : String) (secret : prims.crypto.Bytes) where
  abbrev pub forged_post : (bearer : String) → Request
  forged_post bearer = with_headers bearer none (bare_post turn (message "ping"))

  forged_reply_passed :
      (start : m.World) (count_before : ℤ) (o : Outcome String Response) (w : m.World)
      → (passes (forged_reply prims m base_url secret start count_before o w).0 ≡ true)
        ↔ ((resp : Response) × (o ≡ ok resp) × (resp.status_code ≡ 401))
  unfolding forged_reply
  forged_reply_passed start count_before (raised exc) w =
      (λ h. absurd (cc), λ h. absurd (ground (arith, h.1)))
  forged_reply_passed start count_before (ok resp) w =
      (λ h. (resp, refl, ground (arith, h)), λ h. ground (arith, h.1, h.2))

  send_forged_passed :
      (start : m.World) (count_before : ℤ) (forged : Outcome Crash String) (w : m.World)
      → (passes (send_forged prims m base_url secret start count_before forged w).0 ≡ true) ↔ (
          (bearer : String) × (forged ≡ ok bearer)
          × (resp : Response) × ((m.send base_url (forged_post bearer) w).0 ≡ ok resp)
          × (resp.status_code ≡ 401))
  unfolding send_forged
  send_forged_passed start count_before (raised crash) w =
      (λ h. absurd (cc), λ h. absurd (ground (arith, h.1)))
  send_forged_passed start count_before (ok bearer) w =
      let (reply, after) = m.send base_url (forged_post bearer) w in
      (
        λ h.
            let (resp, answered, refused) =
              (forged_reply_passed start count_before reply after).0 h in
            (bearer, refl, resp, answered, refused),
        λ (other, e, resp, answered, refused).
            let same : bearer ≡ other = cc in
            (forged_reply_passed start count_before reply after).1 (
              resp,
              ap (λ (b : String). (m.send base_url (forged_post b) w).0) same ∙ answered,
              refused,
            ),
      )

  -- The check passes exactly if the token could be forged and the answer to it is a 401: what is
  -- read of the collector before and after decides nothing.
  pub forged_check :
      (start : m.World)
      → let (count_before, scraped) = scrape_bad_sig_count prims m base_url secret start in
        let (session_id, w) = m.uuid4 scraped in
        (passes (check_5_bad_signature prims m base_url secret start).0 ≡ true) ↔ (
          (bearer : String) × (forged_bearer
              (fresh_bearer prims m base_url secret (str session_id) w)
            ≡ ok bearer)
          × (resp : Response) × ((m.send base_url (forged_post bearer) w).0 ≡ ok resp)
          × (resp.status_code ≡ 401))
  unfolding check_5_bad_signature
  forged_check start =
      let (count_before, scraped) = scrape_bad_sig_count prims m base_url secret start in
      let (session_id, w) = m.uuid4 scraped in
      send_forged_passed start count_before
        (forged_bearer (fresh_bearer prims m base_url secret (str session_id) w)) w

no_dot-ok :
    (s : String) {forged : String}
    → ◌≡◌ {A = Outcome Crash String} (ok s) (ok forged)
    → no_dot s ≡ true
    → no_dot forged ≡ true
no_dot-ok s {forged} h n = let same : s ≡ forged = cc in rw (← same) n

no_dot-forge_signature :
    (s : String) {forged : String}
    → forge_signature s ≡ ok forged
    → no_dot s ≡ true
    → no_dot forged ≡ true
unfolding forge_signature no_dot
no_dot-forge_signature empty h n = absurd (cc)
no_dot-forge_signature (c ∷ˢ empty) h n =
    no_dot-ok (replacement c) h
      (elim (Bool-cases (code c == 66)) [ inl e ↦ rw e refl | inr e ↦ rw e refl ])
no_dot-forge_signature (c ∷ˢ d ∷ˢ s) h n =
    let (rest, inner, e) = bind_inv (forge_signature (d ∷ˢ s)) h in
    no_dot-ok (c ∷ˢ rest) e (ground (arith, n, no_dot-forge_signature (d ∷ˢ s) inner))

-- The forged token, from the parts of the valid one.
forged_bearer-parts :
    (payload_part sig_part : String) {forged : String}
    → no_dot payload_part ≡ true
    → no_dot sig_part ≡ true
    → forge_signature sig_part ≡ ok forged
    → forged_bearer ("Bearer v1." ++ˢ (payload_part ++ˢ ("." ++ˢ sig_part)))
      ≡ ok ("Bearer v1" ++ˢ ("." ++ˢ (payload_part ++ˢ ("." ++ˢ forged))))
unfolding forged_bearer no_dot
forged_bearer-parts payload_part sig_part n1 n2 f =
    rw
      (
        append_assoc "Bearer v1" "." (payload_part ++ˢ ("." ++ˢ sig_part)),
        split_dots-append "Bearer v1" (payload_part ++ˢ ("." ++ˢ sig_part)) refl,
        split_dots-append payload_part sig_part n1,
        split_dots-no_dot sig_part n2,
        f,
      )
      refl

module _ (prims : Primitives) where
  -- Check 5 forges a token, and what it verifies as is decided by the bytes that the forged
  -- signature decodes to: if they are the same as the signature it is accepted with its claims,
  -- otherwise it is refused for its signature. The valid token is in order: its session id is a
  -- UUID of version 4, it is not expired, base64 decodes its payload and makes no dots, and the
  -- decoder reads the three claims back.
  pub forged_outcome :
      (secret : prims.crypto.Bytes) (session_id forged : String) (exp now : ℤ)
      (decoded : prims.crypto.Bytes)
      → let payload = prims.dumps (
          field "exp"
            (int exp)
            (field "service_id" (str "brainstorm") (field "session_id" (str session_id) end))) in
        let sig = prims.crypto.hmac secret payload in
        prims.crypto.b64url_decode (prims.crypto.b64url_encode payload) ≡ some payload
        → no_dot (prims.crypto.b64url_encode payload) ≡ true
        → no_dot (prims.crypto.b64url_encode sig) ≡ true
        → forge_signature (prims.crypto.b64url_encode sig) ≡ ok forged
        → prims.crypto.b64url_decode forged ≡ some decoded
        → prims.crypto.loads payload
          ≡ loaded (
              obj (
                field "exp" (int exp) (
                  field "service_id" (str "brainstorm") (field "session_id" (str session_id) end))))
        → is_uuid4 session_id ≡ true
        → now <ℤ exp
        → (bearer : String) × (forged_bearer
              (mint_bearer_inline prims "brainstorm" (str session_id) exp secret)
            ≡ ok bearer)
          × (verify_session_token prims.crypto (some bearer) "brainstorm" now secret ≡ (
              if prims.crypto.same sig decoded
              then ok (record { service_id = "brainstorm"; session_id = session_id; exp = exp })
              else raised (auth_error bad_signature)))
  unfolding mint_bearer_inline verify_session_token lookup pop claims_of check_claims
      authentic_payload
  forged_outcome secret session_id forged exp now decoded d1 n1 n2 f d2 back uuid alive =
      let payload = prims.dumps (
        field "exp" (int exp)
          (field "service_id" (str "brainstorm") (field "session_id" (str session_id) end))) in
      let sig = prims.crypto.hmac secret payload in
      let payload_part = prims.crypto.b64url_encode payload in
      let sig_part = prims.crypto.b64url_encode sig in
      let rest = payload_part ++ˢ ("." ++ˢ forged) in
      let token = "v1." ++ˢ rest in
      let shape : "Bearer v1" ++ˢ ("." ++ˢ rest) ≡ "Bearer " ++ˢ token =
        sym (append_assoc "Bearer v1" "." rest) ∙ append_assoc "Bearer " "v1." rest in
      (
        "Bearer v1" ++ˢ ("." ++ˢ rest),
        forged_bearer-parts payload_part sig_part n1 n2 f,
        rw
            (
              shape,
              present_bearer token,
              after_prefix-append "Bearer " token,
              split_token payload_part forged n1 (no_dot-forge_signature sig_part f n2),
              d1,
              d2,
            )
            (elim (Bool-cases (prims.crypto.same sig decoded)) [
              | inl e ↦ rw (e, back) (ground (arith, uuid, alive))
              | inr e ↦ rw e refl
            ]),
      )
