-- ===== src/Server/Auth.antt =====
-- server/auth.py: session tokens. Bytes, SHA-256's HMAC, base64, the JSON decoder and `str` and `int`
-- of what is no text or no number are given by a `Crypto`.
pub mod Verify
pub mod Base64
pub mod Service
use Prim.Native.Char.{code}
use Prim.Native.String.{[] as empty, ◌∷◌ as ◌∷ˢ◌, ◌++◌ as ◌++ˢ◌}
use decision_maker_flow.Prelude.{
  ℕ, zero, suc, String, Bool, true, false, ◌&&◌, ◌||◌, Option, none, some, List, [], ◌∷◌, leb, ◌==◌,
  if◌then◌else◌,
}
use decision_maker_flow.Prelude.Int.{ℤ}
use decision_maker_flow.Json.{Json}

-- What `json.loads` makes of the payload: a value, JSONDecodeError, or another exception, as of
-- bytes that are no UTF-8.
pub data Loaded : Type 0 where
  loaded : Json → Loaded
  decode_error : Loaded
  other_error : Loaded

pub record Crypto : Type 1 where
  pub Bytes : Type 0
  pub same : Bytes → Bytes → Bool
  pub b64url_decode : String → Option Bytes
  pub b64url_encode : Bytes → String
  pub hmac : (secret payload : Bytes) → Bytes
  pub loads : Bytes → Loaded
  pub dumps : (exp : ℤ) (service_id session_id : String) → Bytes
  pub shown : Json → String
  pub parsed_int : String → Option ℤ

pub data Reason : Type 0 where
  malformed bad_version bad_signature expired wrong_service missing_session : Reason

-- AuthError with its reason, or an exception that `require_service` does not catch.
pub data VerifyError : Type 0 where
  auth_error : Reason → VerifyError
  uncaught : VerifyError

pub record TokenClaims : Type 0 where
  pub service_id : String
  pub session_id : String
  pub exp : ℤ

-- s.startswith("Bearer "), with what follows.
unfoldable pub after_prefix : (prefix s : String) → Option String
after_prefix empty s = some s
after_prefix (c ∷ˢ p) empty = none
after_prefix (c ∷ˢ p) (d ∷ˢ s) =
    let rest = after_prefix p s in if code c == code d then rest else none

abbrev extend : String → List String → List String
extend c [] = c ∷ []
extend c (p ∷ ps) = (c ++ˢ p) ∷ ps

-- s.split(".")
unfoldable pub split_dots : String → List String
split_dots empty = empty ∷ []
split_dots (c ∷ˢ s) =
    let rest = split_dots s in if code c == 46 then empty ∷ rest else extend (c ∷ˢ empty) rest

-- [0-9a-f], in either case
abbrev is_hex : ℕ → Bool
is_hex c = (leb 48 c && leb c 57) || (leb 97 c && leb c 102) || (leb 65 c && leb c 70)

-- The characters of a UUID of version 4, one test for each place.
abbrev hex_run : ℕ → List (ℕ → Bool) → List (ℕ → Bool)
hex_run zero ps = ps
hex_run (suc n) ps = is_hex ∷ hex_run n ps

abbrev is_dash : ℕ → Bool
is_dash c = c == 45

abbrev is_variant : ℕ → Bool
is_variant c = (c == 56) || (c == 57) || (c == 97) || (c == 98) || (c == 65) || (c == 66)

abbrev pub uuid4_places : List (ℕ → Bool)
uuid4_places = hex_run 8 (
    is_dash
    ∷ hex_run 4 (
        is_dash
        ∷ (λ c. c == 52)
        ∷ hex_run 3 (is_dash ∷ is_variant ∷ hex_run 3 (is_dash ∷ hex_run 12 []))))

-- The places in order, then the end, or one newline in front of it as `$` allows.
unfoldable pub matches_places : List (ℕ → Bool) → String → Bool
matches_places [] empty = true
matches_places [] (c ∷ˢ empty) = code c == 10
matches_places [] (c ∷ˢ d ∷ˢ s) = false
matches_places (p ∷ ps) empty = false
matches_places (p ∷ ps) (c ∷ˢ s) = let rest = matches_places ps s in p (code c) && rest

-- _UUID4_RE.match
unfoldable pub is_uuid4 : String → Bool
unfolding matches_places
is_uuid4 = matches_places uuid4_places
