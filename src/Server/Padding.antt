-- ===== src/Server/Padding.antt =====
-- The base64 of server/auth.py without padding.
use Prim.Native.String.{[] as empty, ◌∷◌ as ◌∷ˢ◌, ◌++◌ as ◌++ˢ◌}
use text.Mathlib.TextLemmas.{nil-append, cons-append}
use decision_maker_flow.Prelude.{
  ℕ, zero, suc, ◌+◌, ◌-◌, ◌%◌, ◌≤◌, ◌≡◌, refl, String, true, some, len, arith,
}
use decision_maker_flow.Prelude.{ok}
use decision_maker_flow.Prelude.Int.{ℤ, ◌<ℤ◌}
use decision_maker_flow.Json.{int, str, obj, end, field}
use decision_maker_flow.Server.Auth.{Crypto, loaded, is_uuid4}
use decision_maker_flow.Server.Auth.Verify.{verify_session_token, mint_session_token}
use decision_maker_flow.Server.Minting.{no_dot, minted}
use decision_maker_flow.Server.Auth.Base64.{
  equals_signs, rstrip_equals, is_ascii, all_url_safe, Base64, b64url_decode, b64url_encode,
  with_base64,
}

rstrip-equals_signs : (k : ℕ) → rstrip_equals (equals_signs k) ≡ empty
unfolding rstrip_equals equals_signs
rstrip-equals_signs zero = refl
rstrip-equals_signs (suc k) = rw (rstrip-equals_signs k) refl

rstrip-padded :
    (body : String) (k : ℕ)
    → all_url_safe body ≡ true
    → rstrip_equals (body ++ˢ equals_signs k) ≡ body
unfolding rstrip_equals all_url_safe
rstrip-padded empty k h = rw (nil-append (equals_signs k)) (rstrip-equals_signs k)
rstrip-padded (c ∷ˢ s) k h =
    rw (cons-append c s (equals_signs k)) (ground (arith, rstrip-padded s k))

safe-is_ascii : (s : String) → all_url_safe s ≡ true → is_ascii s ≡ true
unfolding all_url_safe is_ascii
safe-is_ascii empty h = refl
safe-is_ascii (c ∷ˢ s) h = ground (arith, safe-is_ascii s)

safe-no_dot : (s : String) → all_url_safe s ≡ true → no_dot s ≡ true
unfolding all_url_safe no_dot
safe-no_dot empty h = refl
safe-no_dot (c ∷ˢ s) h = ground (arith, safe-no_dot s)

padding_restored : (n k : ℕ) → k ≤ 2 → (n + k) % 4 ≡ 0 → (4 - (n % 4)) % 4 ≡ k
padding_restored n k short whole = omega arith

module _ {Bytes : Type 0} (base64 : Base64 Bytes) where
  -- What is encoded is the body, without the padding.
  encode-body : (b : Bytes) → b64url_encode base64 b ≡ (base64.encoded b).body
  unfolding b64url_encode
  encode-body b = let e = base64.encoded b in rw e.parts (rstrip-padded e.body e.pad e.safe)

  -- The padding that the decoder puts back is the one that was stripped.
  pub decode-encode : (b : Bytes) → b64url_decode base64 (b64url_encode base64 b) ≡ some b
  unfolding b64url_decode
  decode-encode b =
      let e = base64.encoded b in
      let pad_len : (4 - (len e.body % 4)) % 4 ≡ e.pad =
        padding_restored (len e.body) e.pad e.short e.whole in
      rw (encode-body b, safe-is_ascii e.body e.safe, pad_len, ← e.parts) (base64.decode-encode b)

  pub no_dot-encode : (b : Bytes) → no_dot (b64url_encode base64 b) ≡ true
  no_dot-encode b = rw (encode-body b) (safe-no_dot _ (base64.encoded b).safe)

-- A token that is minted verifies for its service as its claims while it is not expired and its
-- session id is a UUID of version 4, over any base64 that encodes in blocks of four and decodes
-- what it encoded, where the comparison of a signature with itself succeeds and the decoder reads
-- the three claims back.
pub minted_unpadded :
    (crypto : Crypto) (base64 : Base64 crypto.Bytes) (secret : crypto.Bytes)
    (service_id session_id : String) (exp now : ℤ)
    → let payload = crypto.dumps exp service_id session_id in
      let sig = crypto.hmac secret payload in
      let padded = with_base64 crypto base64 in
      crypto.same sig sig ≡ true
      → crypto.loads payload
        ≡ loaded (
            obj (
              field "exp"
                (int exp)
                (field "service_id" (str service_id) (field "session_id" (str session_id) end))))
      → is_uuid4 session_id ≡ true
      → now <ℤ exp
      → verify_session_token padded
          (some ("Bearer " ++ˢ mint_session_token padded secret service_id session_id exp))
          service_id
          now
          secret
        ≡ ok (record { service_id = service_id; session_id = session_id; exp = exp })
minted_unpadded crypto base64 secret service_id session_id exp now own back uuid alive =
    let payload = crypto.dumps exp service_id session_id in
    let sig = crypto.hmac secret payload in
    minted (with_base64 crypto base64) secret service_id session_id exp now
      (decode-encode base64 payload) (decode-encode base64 sig) (no_dot-encode base64 payload)
      (no_dot-encode base64 sig) own back uuid alive
