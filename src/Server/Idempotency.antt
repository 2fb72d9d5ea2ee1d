-- ===== src/Server/Idempotency.antt =====
-- server/idempotency.py: the keys of IdempotencyCache, over a cache of cachetools. The lock makes
-- each `get` and each `set` a single step.
pub mod Log
use Prim.Native.Char.{Char, code}
use Prim.Native.String.{[] as empty, ◌∷◌ as ◌∷ˢ◌, ◌++◌ as ◌++ˢ◌, slice}
use decision_maker_flow.Prelude.{
  ℕ, zero, suc, ◌+◌, ◌/◌, ◌%◌, ◌<◌, ◌≤◌, ◌≡◌, ◌⊎◌, String, Bool, true, false, ◌&&◌, ◌||◌, Option,
  none, some, List, [], ◌∷◌, ltb, leb, ◌==◌, str_eq, if◌then◌else◌, length,
}

-- cachetools.TTLCache by what it documents: until its time to live is over, an entry that was just
-- set is found; the entries of other keys are found as before or have been evicted.
pub record TtlCache (V : Type 0) : Type 1 where
  pub State : Type 0
  pub get : (now : ℕ) → String → State → Option V
  pub set : (now : ℕ) → String → V → State → State
  pub ttl : ℕ
  pub get-set :
      (t now : ℕ) (k : String) (v : V) (s : State)
      → t ≤ now
      → now < t + ttl
      → get now k (set t k v s) ≡ some v
  pub get-set_other :
      (t now : ℕ) (k j : String) (v : V) (s : State)
      → str_eq k j ≡ false
      → (get now j (set t k v s) ≡ none) ⊎ (get now j (set t k v s) ≡ get now j s)

-- [a-zA-Z0-9_\-]
abbrev pub is_key_char : ℕ → Bool
is_key_char c =
    (leb 97 c && leb c 122)
    || (leb 65 c && leb c 90)
    || (leb 48 c && leb c 57)
    || (c == 95)
    || (c == 45)

unfoldable pub chars : String → List ℕ
chars empty = []
chars (c ∷ˢ s) = code c ∷ chars s

unfoldable pub all_key_chars : List ℕ → Bool
all_key_chars [] = true
all_key_chars (c ∷ cs) = is_key_char c && all_key_chars cs

-- `$` also matches in front of a newline that ends the text.
unfoldable pub before_newline : List ℕ → List ℕ
before_newline [] = []
before_newline (c ∷ []) = if c == 10 then [] else c ∷ []
before_newline (c ∷ d ∷ cs) = c ∷ before_newline (d ∷ cs)

-- _IDEMPOTENCY_KEY_RE.match
unfoldable pub matches_key : String → Bool
unfolding chars all_key_chars before_newline
matches_key s =
    let body = before_newline (chars s) in
    all_key_chars body && leb 8 (length body) && leb (length body) 128

unfoldable pub make_key_from_header : Option String → Option String
unfolding matches_key
make_key_from_header none = none
make_key_from_header (some h) = if matches_key h then some h else none

abbrev digit : ℕ → String
digit n = slice "0123456789" n (n + 1)

decimal_digits : (fuel : ℕ) → ℕ → String
decimal_digits zero n = digit n
decimal_digits (suc fuel) n =
    let rest = decimal_digits fuel (n / 10) in if ltb n 10 then digit n else rest ++ˢ digit (n % 10)

-- str(n): n digits are enough.
unfoldable pub decimal : ℕ → String
unfolding decimal_digits
decimal n = decimal_digits n n

unfoldable pub raw_input : (session_id message : String) (turn_n : ℕ) → String
unfolding decimal
raw_input session_id message turn_n =
    session_id ++ˢ ("\0" ++ˢ (message ++ˢ ("\0" ++ˢ decimal turn_n)))

-- `digest` is sha256(raw.encode("utf-8")).hexdigest()[:32].
unfoldable pub make_key_from_tuple :
    (digest : String → String) (session_id message : String) (turn_n : ℕ) → String
unfolding raw_input
make_key_from_tuple digest session_id message turn_n = digest (raw_input session_id message turn_n)
