-- ===== src/Core/LlmUtils.antt =====
-- src/core/llm_utils.py. `is_word` is Python's `\w`: its table of the letters and digits of Unicode,
-- and the underscore.
use Prim.Native.String.{[] as empty, ◌∷◌ as ◌∷ˢ◌}
use decision_maker_flow.Prelude.{
  ℕ, zero, suc, ◌-◌, String, Bool, Option, none, some, List, [], ◌∷◌, ◌==◌, len, prefix_of, strip,
  if◌then◌else◌,
}
use decision_maker_flow.Core.Patterns.{
  lower, same_letter, char_if, literal, spaces, through_gt, word_ends, lazily, ◌>>=◌,
}

abbrev pub lower_equal : ℕ → ℕ → Bool
lower_equal c d = lower c == lower d

-- `</name\s*>`, the name compared by `same`.
unfoldable pub close_tag : (ℕ → ℕ → Bool) → (name : String) → String → Option String
close_tag same name s = do
  t ← literal ◌==◌ "</" s
  u ← literal same name t
  char_if (λ c. c == 62) (spaces u)

module _ (is_word : ℕ → Bool) where
  -- `name\b[^>]*>`: the name as the text has it, and what is left.
  unfoldable pub open_name : (name : String) → String → Option (String × String)
  open_name name s = do
    t ← literal same_letter name s
    u ← if word_ends is_word t then through_gt t else none
    some (prefix_of (len name) s, u)

  -- What is left behind a block whose name is `name` and whose "<" has been read.
  unfoldable pub block_of : (name : String) → String → Option String
  unfolding open_name close_tag
  block_of name s = do
    (tag, t) ← open_name name s
    (group, u) ← lazily (close_tag lower_equal tag) t
    some u

  abbrev or_block : Option String → Option String → Option String
  or_block none later = later
  or_block (some rest) later = some rest

  abbrev first_block : List String → String → Option String
  first_block [] s = none
  first_block (name ∷ names) s = let later = first_block names s in or_block (block_of name s) later

  -- `_REASONING_TAG_RE` at the head of the text.
  unfoldable pub reasoning_block : String → Option String
  unfolding block_of
  reasoning_block s = do
    t ← literal ◌==◌ "<" s
    first_block ("thinking" ∷ "think" ∷ "reasoning" ∷ "reflection" ∷ []) t

  -- `_REASONING_TAG_RE.sub("", s)`, with `skip` characters of a match still to drop.
  unfoldable pub without_blocks : (skip : ℕ) → String → String
  without_blocks skip empty = empty
  without_blocks (suc skip) (c ∷ˢ s) = without_blocks skip s
  without_blocks zero (c ∷ˢ s) = elim (reasoning_block (c ∷ˢ s)) [
    | none ↦ c ∷ˢ without_blocks zero s
    | some rest ↦ without_blocks (len s - len rest) s
  ]

  unfoldable pub strip_reasoning_blocks : String → String
  unfolding without_blocks
  strip_reasoning_blocks raw = strip (without_blocks zero raw)

  -- `_OUTPUT_TAG_RE` at the head of the text: its group, and what is left.
  unfoldable pub output_block : String → Option (String × String)
  unfolding open_name close_tag
  output_block s = do
    t ← literal ◌==◌ "<" s
    (tag, u) ← open_name "output" t
    lazily (close_tag same_letter "output") u

  -- `_OUTPUT_TAG_RE.findall(s)`
  unfoldable pub find_outputs : (skip : ℕ) → String → List String
  find_outputs skip empty = []
  find_outputs (suc skip) (c ∷ˢ s) = find_outputs skip s
  find_outputs zero (c ∷ˢ s) = elim (output_block (c ∷ˢ s)) [
    | none ↦ find_outputs zero s
    | some (group, rest) ↦ group ∷ find_outputs (len s - len rest) s
  ]

  abbrev last_payload : String → List String → String
  last_payload raw [] = raw
  last_payload raw (m ∷ []) = strip m
  last_payload raw (m ∷ n ∷ ms) = last_payload raw (n ∷ ms)

  unfoldable pub extract_output_payload : String → String
  unfolding find_outputs
  extract_output_payload raw = last_payload raw (find_outputs zero raw)

  unfoldable pub sanitize_llm_response : String → String
  unfolding strip_reasoning_blocks extract_output_payload
  sanitize_llm_response raw = strip (extract_output_payload (strip_reasoning_blocks raw))
