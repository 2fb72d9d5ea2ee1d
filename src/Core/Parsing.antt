-- ===== src/Core/Parsing.antt =====
-- src/core/json_utils.py: the replies that `safe_json_parse` reads.
use Prim.Native.String.{◌++◌ as ◌++ˢ◌}
use decision_maker_flow.Prelude.{ℕ, ◌≡◌, refl, ap, ◌∙◌, String, Bool, some, ok, ◌==◌, strip}
use decision_maker_flow.Json.{obj, Fields}
use decision_maker_flow.Core.LlmUtils.{strip_reasoning_blocks}
use decision_maker_flow.Core.JsonUtils.{
  value, decode_error, Decoder, attempt, same_json, brace_match, safe_json_parse,
}
use decision_maker_flow.Core.Texts.{append-join, Lacks, strip-strip, strip-Lacks}
use decision_maker_flow.Core.Blocks.{without_blocks-Lacks}
use decision_maker_flow.Core.Braces.{brace_match-strip, search_fenced-Lacks, brace_match-join}

strip_reasoning_blocks-Lacks :
    (is_word : ℕ → Bool) (s : String) → Lacks 60 s → strip_reasoning_blocks is_word s ≡ strip s
unfolding strip_reasoning_blocks
strip_reasoning_blocks-Lacks is_word s l = ap strip (without_blocks-Lacks is_word s l)

-- A text without "<" that the decoder reads as a dict once it is stripped.
pub parse_plain :
    (is_word : ℕ → Bool) (decoder : Decoder) (raw : String) {fs : Fields}
    → Lacks 60 raw
    → decoder.loads (strip raw) ≡ value (obj fs)
    → safe_json_parse is_word decoder raw ≡ ok fs
unfolding safe_json_parse attempt
parse_plain is_word decoder raw l h =
    rw (strip_reasoning_blocks-Lacks is_word raw l, strip-strip raw, h) refl

abbrev pub embedded : (before inner after : String) → String
embedded before inner after = before ++ˢ "{" ++ˢ inner ++ˢ "}" ++ˢ after

braces_found :
    (before inner after : String)
    → Lacks 123 before
    → Lacks 125 after
    → brace_match (strip (embedded before inner after)) ≡ some ("{" ++ˢ inner ++ˢ "}")
braces_found before inner after b a =
    brace_match-strip (embedded before inner after)
    ∙ simp append-join (brace_match-join before inner after b a)

-- An object in the middle of prose is read, from the first opening brace to the last closing one:
-- the text has no "<" and no backtick, is no JSON as a whole, and the decoder reads the part between
-- the braces as a dict.
pub parse_embedded :
    (is_word : ℕ → Bool) (decoder : Decoder) (before inner after : String) {fs : Fields}
    → Lacks 60 (embedded before inner after)
    → Lacks 96 (embedded before inner after)
    → Lacks 123 before
    → Lacks 125 after
    → decoder.loads (strip (embedded before inner after)) ≡ decode_error
    → decoder.loads ("{" ++ˢ inner ++ˢ "}") ≡ value (obj fs)
    → safe_json_parse is_word decoder (embedded before inner after) ≡ ok fs
unfolding safe_json_parse attempt
parse_embedded is_word decoder before inner after {fs} l f b a w h =
    let raw = embedded before inner after in
    let found : brace_match (strip raw) ≡ some ("{" ++ˢ inner ++ˢ "}") =
      braces_found before inner after b a in
    rw
      (
        strip_reasoning_blocks-Lacks is_word raw l,
        strip-strip raw,
        w,
        search_fenced-Lacks same_json "`" "``json" (strip raw) (λ c e. e) (strip-Lacks 96 raw f),
        search_fenced-Lacks ◌==◌ "`" "``" (strip raw) (λ c e. e) (strip-Lacks 96 raw f),
        found,
        h,
      )
      refl
