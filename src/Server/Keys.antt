-- ===== src/Server/Keys.antt =====
-- The keys of server/idempotency.py.
use Prim.Native.String.{◌++◌ as ◌++ˢ◌, count}
use text.Mathlib.TextLemmas.{append_inj, append_cancel_left, append_cancel_right}
use decision_maker_flow.Prelude.{ℕ, ◌+◌, ◌≤◌, ◌≡◌, String, true, some, List, [], ◌∷◌, arith, length}
use decision_maker_flow.Server.Idempotency.{
  chars, all_key_chars, before_newline, matches_key, make_key_from_header, raw_input, decimal,
}

-- Of two session ids with the same number of characters, as all of `uuid4().hex` have, and at the
-- same turn number, the texts under the digest are equal only if the ids and the messages are: a
-- digest that tells these two texts apart gives different keys.
pub raw_input_inj :
    (id id' message message' : String) (turn_n : ℕ)
    → count id ≡ count id'
    → raw_input id message turn_n ≡ raw_input id' message' turn_n
    → (id ≡ id') × (message ≡ message')
unfolding raw_input
raw_input_inj id id' message message' turn_n same h =
    let (ids, rest) = append_inj h same in
    (
      ids,
      append_cancel_right message message' ("\0" ++ˢ decimal turn_n) (
          append_cancel_left "\0" (message ++ˢ ("\0" ++ˢ decimal turn_n))
            (message' ++ˢ ("\0" ++ˢ decimal turn_n)) rest),
    )

length-before_newline : (cs : List ℕ) → length cs ≤ length (before_newline cs) + 1
unfolding before_newline
length-before_newline [] = omega arith
length-before_newline (c ∷ []) = ground arith
length-before_newline (c ∷ d ∷ cs) = ground (arith, length-before_newline (d ∷ cs))

before_newline-length : (cs : List ℕ) → length (before_newline cs) ≤ length cs
unfolding before_newline
before_newline-length [] = omega arith
before_newline-length (c ∷ []) = ground arith
before_newline-length (c ∷ d ∷ cs) = ground (arith, before_newline-length (d ∷ cs))

-- A key that is accepted from a header is the header's value. It has from 8 to 129 characters, and
-- all of them are those of the pattern, but for a newline that may end it.
pub header_key :
    (value key : String)
    → make_key_from_header (some value) ≡ some key
    → (key ≡ value)
      × (8 ≤ length (chars key))
      × (length (chars key) ≤ 129)
      × (all_key_chars (before_newline (chars key)) ≡ true)
unfolding make_key_from_header matches_key
header_key value key h =
    ground (arith, length-before_newline (chars value), before_newline-length (chars value))
