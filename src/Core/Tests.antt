-- ===== src/Core/Tests.antt =====
-- Replies at concrete texts.
use decision_maker_flow.Prelude.{
  ℕ, ◌≡◌, refl, String, Bool, ◌&&◌, ok, raised, leb, str_eq, len, prefix_of, lstrip, rstrip, strip,
  if◌then◌else◌,
}
use decision_maker_flow.Json.{str, obj, end, field, Fields}
use decision_maker_flow.Core.Patterns.{literal, through_gt, spaces, lazily}
use decision_maker_flow.Core.LlmUtils.{
  close_tag, open_name, block_of, reasoning_block, without_blocks, strip_reasoning_blocks,
  output_block, find_outputs, extract_output_payload, sanitize_llm_response,
}
use decision_maker_flow.Core.JsonUtils.{
  Decoded, value, decode_error, Decoder, json_parse_error, attempt, search_fenced, from_brace,
  through_last_brace, brace_match, fence_body, safe_json_parse,
}
use decision_maker_flow.Core.Texts.{lacks-Lacks}
use decision_maker_flow.Core.Parsing.{embedded, parse_embedded}

-- `\w` among the small letters.
abbrev is_word : ℕ → Bool
is_word c = leb 97 c && leb c 122

abbrev one : Fields
one = field "a" (str "1") end

-- A decoder that knows one text.
abbrev decode : String → Decoded
decode s = if str_eq s "{\"a\": \"1\"}" then value (obj one) else decode_error

abbrev decoder : Decoder
decoder = record { loads = decode; raw_decode = decode }

unfoldable scanned : Unit {0}
unfolding sanitize_llm_response strip_reasoning_blocks extract_output_payload without_blocks
    find_outputs reasoning_block output_block block_of open_name close_tag literal through_gt spaces
    lazily strip lstrip rstrip len prefix_of attempt search_fenced brace_match fence_body from_brace
    through_last_brace safe_json_parse
scanned = tt

parse_embedded_example :
    safe_json_parse is_word decoder (embedded "Here: " "\"a\": \"1\"" " as asked.") ≡ ok one
unfolding scanned
parse_embedded_example =
    parse_embedded is_word decoder "Here: " "\"a\": \"1\"" " as asked."
      (lacks-Lacks 60 "Here: {\"a\": \"1\"} as asked." refl)
      (lacks-Lacks 96 "Here: {\"a\": \"1\"} as asked." refl) (lacks-Lacks 123 "Here: " refl)
      (lacks-Lacks 125 " as asked." refl) refl refl

last_output :
    sanitize_llm_response is_word
      "<Thinking a=1>\nno</thinking > x <output>1</output> or <OUTPUT>\n2 </output>"
    ≡ "2"
unfolding scanned
last_output = refl

open_block : sanitize_llm_response is_word " <think>no end" ≡ "<think>no end"
unfolding scanned
open_block = refl

other_tag : sanitize_llm_response is_word "<thinks>a</thinks>" ≡ "<thinks>a</thinks>"
unfolding scanned
other_tag = refl

-- A block that a removal puts together stays.
not_idempotent :
    strip_reasoning_blocks is_word "<<think>x</think>think>y</think>" ≡ "<think>y</think>"
unfolding scanned
not_idempotent = refl

fenced : safe_json_parse is_word decoder "so\n```json\n{\"a\": \"1\"}\n```\nor {}" ≡ ok one
unfolding scanned
fenced = refl

refused : safe_json_parse is_word decoder " [1]" ≡ raised (json_parse_error " [1]")
unfolding scanned
refused = refl
