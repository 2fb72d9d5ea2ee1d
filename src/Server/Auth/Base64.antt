-- ===== src/Server/Auth/Base64.antt =====
-- _b64url_decode and _b64url_encode of server/auth.py, over Python's base64.
use Prim.Native.Char.{code}
use Prim.Native.String.{[] as empty, ◌∷◌ as ◌∷ˢ◌, ◌++◌ as ◌++ˢ◌}
use decision_maker_flow.Prelude.{
  ℕ, zero, suc, ◌+◌, ◌-◌, ◌%◌, ◌≤◌, ◌≡◌, String, Bool, true, ◌&&◌, ◌||◌, Option, none, some, ltb,
  leb, ◌==◌, len, is_empty, if◌then◌else◌,
}
use decision_maker_flow.Server.Auth.{Crypto}

-- "=" * n
unfoldable pub equals_signs : ℕ → String
equals_signs zero = empty
equals_signs (suc n) = "=" ∷ˢ equals_signs n

-- s.rstrip("=")
unfoldable pub rstrip_equals : String → String
rstrip_equals empty = empty
rstrip_equals (c ∷ˢ s) =
    let rest = rstrip_equals s in if (code c == 61) && is_empty rest then empty else c ∷ˢ rest

unfoldable pub is_ascii : String → Bool
is_ascii empty = true
is_ascii (c ∷ˢ s) = ltb (code c) 128 && is_ascii s

-- A character of the alphabet that is safe in URLs.
abbrev pub is_url_safe : ℕ → Bool
is_url_safe c =
    (leb 65 c && leb c 90)
    || (leb 97 c && leb c 122)
    || (leb 48 c && leb c 57)
    || (c == 45)
    || (c == 95)

unfoldable pub all_url_safe : String → Bool
all_url_safe empty = true
all_url_safe (c ∷ˢ s) = is_url_safe (code c) && all_url_safe s

-- A text of the alphabet and at most two equals signs, whose length is a multiple of 4.
pub record Encoded (s : String) : Type 0 where
  pub body : String
  pub pad : ℕ
  pub parts : s ≡ body ++ˢ equals_signs pad
  pub safe : all_url_safe body ≡ true
  pub short : pad ≤ 2
  pub whole : (len body + pad) % 4 ≡ 0

-- urlsafe_b64encode and urlsafe_b64decode, as RFC 4648 has them.
pub record Base64 (Bytes : Type 0) : Type 0 where
  pub urlsafe_b64encode : Bytes → String
  pub urlsafe_b64decode : String → Option Bytes
  pub decode-encode : (b : Bytes) → urlsafe_b64decode (urlsafe_b64encode b) ≡ some b
  pub encoded : (b : Bytes) → Encoded (urlsafe_b64encode b)

module _ {Bytes : Type 0} (base64 : Base64 Bytes) where
  -- A text that is not ASCII raises, as one that is not decoded does.
  unfoldable pub b64url_decode : String → Option Bytes
  unfolding len equals_signs is_ascii
  b64url_decode s =
      let pad_len = (4 - (len s % 4)) % 4 in
      if is_ascii s then base64.urlsafe_b64decode (s ++ˢ equals_signs pad_len) else none

  unfoldable pub b64url_encode : Bytes → String
  unfolding rstrip_equals
  b64url_encode b = rstrip_equals (base64.urlsafe_b64encode b)

-- The primitives with these two.
abbrev pub with_base64 : (crypto : Crypto) → Base64 crypto.Bytes → Crypto
with_base64 crypto base64 = record crypto {
  b64url_decode = b64url_decode base64;
  b64url_encode = b64url_encode base64;
}
