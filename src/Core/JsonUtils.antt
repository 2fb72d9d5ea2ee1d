-- ===== src/Core/JsonUtils.antt =====
-- src/core/json_utils.py, over Python's `json`: its decoder is a parameter.
use Prim.Native.Char.{Char, code}
use Prim.Native.String.{[] as empty, ◌∷◌ as ◌∷ˢ◌}
use decision_maker_flow.Prelude.{
  ℕ, String, Bool, Option, none, some, Outcome, ok, raised, ◌==◌, prefix_of, strip, if◌then◌else◌,
}
use decision_maker_flow.Json.{Json, obj, Fields}
use decision_maker_flow.Core.Patterns.{same_letter, literal, spaces, lazily, ◌>>=◌}
use decision_maker_flow.Core.LlmUtils.{strip_reasoning_blocks}

-- What a call of the decoder does: a value, `JSONDecodeError`, or `RecursionError` on a value that
-- is nested too deeply.
pub data Decoded : Type 0 where
  value : Json → Decoded
  decode_error recursion_error : Decoded

-- `json.loads`, and `JSONDecoder().raw_decode` on what the text has from the index on.
pub record Decoder : Type 0 where
  pub loads : String → Decoded
  pub raw_decode : String → Decoded

pub data ParseError : Type 0 where
  json_parse_error : (raw_snippet : String) → ParseError
  recursion_error : ParseError

-- One `try` of a strategy: a dict is returned, any other value or a `JSONDecodeError` leads on.
unfoldable pub attempt : Decoded → Outcome ParseError Fields → Outcome ParseError Fields
attempt (value (obj fs)) later = ok fs
attempt (value v) later = later
attempt decode_error later = later
attempt recursion_error later = raised recursion_error

-- A strategy that found no match is skipped.
abbrev pub attempt_on :
    (String → Decoded) → Option String → Outcome ParseError Fields → Outcome ParseError Fields
attempt_on decode none later = later
attempt_on decode (some inner) later = attempt (decode inner) later

-- "```json", as IGNORECASE compares it
abbrev pub same_json : ℕ → ℕ → Bool
same_json l c = if l == 96 then l == c else same_letter l c

abbrev group_of : Option (String × String) → Option String
group_of none = none
group_of (some (group, rest)) = some (strip group)

abbrev or_else : Option String → Option String → Option String
or_else none later = later
or_else (some found) later = some found

-- `\s*([\s\S]*?)```` behind an opening fence, stripped.
unfoldable pub fence_body : String → Option String
fence_body s = group_of (lazily (literal ◌==◌ "```") (spaces s))

abbrev fenced_at : Option String → Option String
fenced_at none = none
fenced_at (some s) = fence_body s

-- `re.search` of a fence that opens with `opening`.
unfoldable pub search_fenced : (ℕ → ℕ → Bool) → (opening : String) → String → Option String
unfolding fence_body
search_fenced same opening empty = none
search_fenced same opening (c ∷ˢ s) =
    let later = search_fenced same opening s in
    or_else (fenced_at (literal same opening (c ∷ˢ s))) later

abbrev cons_to : Char → Option String → Option String
cons_to c none = none
cons_to c (some s) = some (c ∷ˢ s)

-- `[\s\S]*\}`: up to the last closing brace.
unfoldable pub through_last_brace : String → Option String
through_last_brace empty = none
through_last_brace (c ∷ˢ s) =
    let later = through_last_brace s in
    or_else (cons_to c later) (if 125 == code c then some (c ∷ˢ empty) else none)

-- What the text has from `normalized.find("{")` on.
unfoldable pub from_brace : String → Option String
from_brace empty = none
from_brace (c ∷ˢ s) = let later = from_brace s in if 123 == code c then some (c ∷ˢ s) else later

-- `re.search(r"\{[\s\S]*\}", s)`
unfoldable pub brace_match : String → Option String
unfolding from_brace through_last_brace
brace_match s = do t ← from_brace s; through_last_brace t

-- `safe_json_parse`
unfoldable pub safe_json_parse : (is_word : ℕ → Bool) → Decoder → String → Outcome ParseError Fields
unfolding search_fenced brace_match
safe_json_parse is_word decoder raw =
    let raw_snippet = prefix_of 200 raw in
    let normalized = strip_reasoning_blocks is_word raw in
    attempt (decoder.loads (strip normalized)) (
      attempt_on decoder.loads (search_fenced same_json "```json" normalized) (
        attempt_on decoder.loads (search_fenced ◌==◌ "```" normalized) (
          attempt_on decoder.loads (brace_match normalized) (
            attempt_on decoder.raw_decode (from_brace normalized)
              (raised (json_parse_error raw_snippet))))))
