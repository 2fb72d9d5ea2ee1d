-- ===== src/Scripts/MintToken.antt =====
-- scripts/mint_token.py: main. What is printed to stderr is left out.
use Prim.Native.String.{◌++◌ as ◌++ˢ◌}
use decision_maker_flow.Prelude.{
  ℕ, ◌≡◌, ◌≤◌, String, Bool, true, false, Option, none, some, leb, is_empty, arith, Outcome, ok,
  raised, ◌>>=◌, if◌then◌else◌,
}
use decision_maker_flow.Prelude.Int.{ℤ, pos, ◌+ℤ◌, ◌<ℤ◌, ltb_ℤ}
use decision_maker_flow.Json.{int, str, obj, end, field}
use decision_maker_flow.Server.Auth.{Crypto, loaded, is_uuid4}
use decision_maker_flow.Server.Auth.Verify.{mint_session_token, verify_session_token}
use decision_maker_flow.Server.Minting.{no_dot, minted}

-- What argparse gives.
pub record Args : Type 0 where
  pub service_id : String
  pub session_id : Option String
  pub ttl : ℤ
  pub secret_env : String

-- The reasons for sys.exit(1).
pub data Refusal : Type 0 where
  ttl_not_positive missing_secret short_secret no_auth_module : Refusal

abbrev pub ensure : Bool → Refusal → Outcome Refusal (Unit {0})
ensure true e = ok tt
ensure false e = raised e

-- `os.environ.get(args.secret_env)`, where it is not empty.
abbrev pub secret_in : Option String → Outcome Refusal String
secret_in none = raised missing_secret
secret_in (some s) = if is_empty s then raised missing_secret else ok s

-- The given session id, or a new one where none or an empty one is given.
abbrev pub resolved : (uuid4 : String) → Option String → String
resolved uuid4 none = uuid4
resolved uuid4 (some s) = if is_empty s then uuid4 else s

module _ (crypto : Crypto) (encode : String → crypto.Bytes) (byte_length : crypto.Bytes → ℕ) where
  -- The line on stdout, or the exit with 1. `importable` says whether auth.py can be imported, and
  -- `now` is int(time.time()).
  unfoldable pub main :
      (environ : String → Option String) (importable : Bool) (uuid4 : String) (now : ℤ)
      → Args
      → Outcome Refusal String
  unfolding mint_session_token
  main environ importable uuid4 now args = do
    positive ← ensure (ltb_ℤ (pos 0) args.ttl) ttl_not_positive
    raw_secret ← secret_in (environ args.secret_env)
    long ← ensure (leb 16 (byte_length (encode raw_secret))) short_secret
    found ← ensure importable no_auth_module
    ok (
        "Bearer "
        ++ˢ mint_session_token crypto (encode raw_secret) args.service_id
            (resolved uuid4 args.session_id) (now +ℤ args.ttl))

  minted_line :
      (environ : String → Option String) (importable : Bool) (uuid4 : String) (now : ℤ)
      (args : Args) (raw_secret : String) {line : String}
      → environ args.secret_env ≡ some raw_secret
      → main environ importable uuid4 now args ≡ ok line
      → (pos 0 <ℤ args.ttl)
        × (16 ≤ byte_length (encode raw_secret))
        × (line
            ≡ "Bearer "
              ++ˢ mint_session_token crypto
                  (encode raw_secret)
                  args.service_id
                  (resolved uuid4 args.session_id)
                  (now +ℤ args.ttl))
  unfolding main
  minted_line environ importable uuid4 now args raw_secret given h = ground arith

  -- What the script prints verifies, for the service and the session id that it was given, until
  -- its time to live is over, which is positive: where the secret is that of the environment, the
  -- session id is a UUID of version 4, base64 decodes what it encoded and has no dots, a signature
  -- is the same as itself, and the decoder reads the three claims back. The secret has 16 bytes or
  -- more.
  pub printed_verifies :
      (environ : String → Option String) (importable : Bool) (uuid4 : String) (now later : ℤ)
      (args : Args) (raw_secret : String) {line : String}
      → let secret = encode raw_secret in
        let session_id = resolved uuid4 args.session_id in
        let exp = now +ℤ args.ttl in
        let payload = crypto.dumps exp args.service_id session_id in
        let sig = crypto.hmac secret payload in
        environ args.secret_env ≡ some raw_secret
        → crypto.b64url_decode (crypto.b64url_encode payload) ≡ some payload
        → crypto.b64url_decode (crypto.b64url_encode sig) ≡ some sig
        → no_dot (crypto.b64url_encode payload) ≡ true
        → no_dot (crypto.b64url_encode sig) ≡ true
        → crypto.same sig sig ≡ true
        → crypto.loads payload
          ≡ loaded (
              obj (
                field "exp" (int exp) (
                  field "service_id"
                    (str args.service_id)
                    (field "session_id" (str session_id) end))))
        → is_uuid4 session_id ≡ true
        → later <ℤ exp
        → main environ importable uuid4 now args ≡ ok line
        → (verify_session_token crypto (some line) args.service_id later secret
            ≡ ok (record { service_id = args.service_id; session_id = session_id; exp = exp }))
          × (pos 0 <ℤ args.ttl)
          × (16 ≤ byte_length secret)
  printed_verifies environ importable uuid4 now later args raw_secret given d1 d2 n1 n2 own back
        uuid alive h =
      let (positive, long, line_is) =
        minted_line environ importable uuid4 now args raw_secret given h in
      (
        rw line_is (
            minted crypto (encode raw_secret) args.service_id (resolved uuid4 args.session_id)
              (now +ℤ args.ttl) later d1 d2 n1 n2 own back uuid alive),
        positive,
        long,
      )
