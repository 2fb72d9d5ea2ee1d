-- ===== src/Core/Sanitizing.antt =====
-- src/core/llm_utils.py: a reply in the form that the prompts ask for, a reasoning block and then
-- the payload in its wrapper.
use Prim.Native.String.{[] as empty, ◌++◌ as ◌++ˢ◌}
use decision_maker_flow.Prelude.{
  ℕ, ◌+◌, ◌-◌, ◌≡◌, refl, ap, sym, ◌∙◌, String, Bool, false, some, [], ◌∷◌, arith, len, strip,
  lstrip, rstrip,
}
use decision_maker_flow.Core.Patterns.{same_letter, literal, through_gt, spaces}
use decision_maker_flow.Core.LlmUtils.{
  close_tag, open_name, block_of, reasoning_block, without_blocks, strip_reasoning_blocks,
  output_block, find_outputs, extract_output_payload, sanitize_llm_response,
}
use decision_maker_flow.Core.Texts.{
  join, append-join, join_assoc, len-join, Lacks, strip-strip, rstrip-join, not_empty,
}
use decision_maker_flow.Core.Blocks.{
  Tag, tag_name, close_tag-Closes, lazily-join, without_blocks_skip, find_outputs_end,
  without_blocks-join, reasoning_block-join,
}

abbrev pub wrapped : Tag → (thought payload : String) → String
wrapped tag thought payload =
    "<"
    ++ˢ tag_name tag
    ++ˢ ">"
    ++ˢ thought
    ++ˢ "</"
    ++ˢ tag_name tag
    ++ˢ ">"
    ++ˢ "<output>"
    ++ˢ payload
    ++ˢ "</output>"

abbrev output : (payload : String) → String
output payload = join "<output>" (join payload "</output>")

-- What follows the "<" of the block, up to its end.
abbrev block : Tag → (thought : String) → String
block tag thought =
    join (tag_name tag) (join ">" (join thought (join "</" (join (tag_name tag) ">"))))

abbrev after_open : Tag → (thought rest : String) → String
after_open tag thought rest =
    join (tag_name tag) (join ">" (join thought (join "</" (join (tag_name tag) (join ">" rest)))))

block-join :
    (tag : Tag) (thought rest : String)
    → join (block tag thought) rest ≡ after_open tag thought rest
block-join tag thought rest =
    rw
      (
        join_assoc (tag_name tag) (join ">" (join thought (join "</" (join (tag_name tag) ">"))))
            rest,
        join_assoc ">" (join thought (join "</" (join (tag_name tag) ">"))) rest,
        join_assoc thought (join "</" (join (tag_name tag) ">")) rest,
        join_assoc "</" (join (tag_name tag) ">") rest,
        join_assoc (tag_name tag) ">" rest,
      )
      refl

wrapped-join :
    (tag : Tag) (thought payload : String)
    → wrapped tag thought payload ≡ join "<" (after_open tag thought (output payload))
wrapped-join tag thought payload = simp append-join

module _ (is_word : ℕ → Bool) where
  skipped :
      (a rest : String) {s : String}
      → join a rest ≡ s
      → without_blocks is_word (len s - len rest) s ≡ without_blocks is_word 0 rest
  skipped a rest h =
      let enough : len a + len rest - len rest ≡ len a = omega arith in
      ap (λ s. without_blocks is_word (len s - len rest) s) (sym h)
      ∙ rw (len-join a rest, enough) (without_blocks_skip is_word a rest)

  without_blocks-output :
      (payload : String)
      → Lacks 60 payload
      → without_blocks is_word 0 (output payload) ≡ output payload
  unfolding without_blocks join reasoning_block block_of open_name literal
  without_blocks-output payload l = rw (without_blocks-join is_word payload "</output>" l) refl

  without_blocks-wrapped :
      (tag : Tag) (thought payload : String)
      → is_word 62 ≡ false
      → Lacks 60 thought
      → Lacks 60 payload
      → without_blocks is_word 0 (join "<" (after_open tag thought (output payload)))
        ≡ output payload
  unfolding without_blocks join
  without_blocks-wrapped tag thought payload w t p =
      let rest = output payload in
      rw (without_blocks, reasoning_block-join is_word tag thought rest w t)
        (skipped (block tag thought) rest (block-join tag thought rest)
          ∙ without_blocks-output payload p)

  strip-output : (payload : String) → strip (output payload) ≡ output payload
  unfolding strip lstrip rstrip join
  strip-output payload =
      rstrip-join "<output>" (join payload "</output>") (rstrip-join payload "</output>" refl refl)
        (not_empty payload "</output>" refl)

  output_block-output :
      (payload : String)
      → is_word 62 ≡ false
      → Lacks 60 payload
      → output_block is_word (output payload) ≡ some (payload, empty)
  unfolding output_block open_name literal through_gt close_tag join spaces
  output_block-output payload w l =
      rw
        (
          w,
          lazily-join (close_tag same_letter "output") payload "</output>"
              (close_tag-Closes same_letter "output") l refl,
        )
        refl

  find_outputs-output :
      (payload : String)
      → is_word 62 ≡ false
      → Lacks 60 payload
      → find_outputs is_word 0 (output payload) ≡ payload ∷ []
  unfolding find_outputs join
  find_outputs-output payload w l =
      let behind = join "output>" (join payload "</output>") in
      rw (find_outputs, output_block-output payload w l)
        (ap (λ ms. payload ∷ ms) (find_outputs_end is_word behind))

  -- A reply of a reasoning block and a wrapped payload is its payload, stripped, where neither the
  -- thought nor the payload has a "<".
  pub sanitize_wrapped :
      (tag : Tag) (thought payload : String)
      → is_word 62 ≡ false
      → Lacks 60 thought
      → Lacks 60 payload
      → sanitize_llm_response is_word (wrapped tag thought payload) ≡ strip payload
  unfolding sanitize_llm_response strip_reasoning_blocks extract_output_payload
  sanitize_wrapped tag thought payload w t p =
      rw
        (
          wrapped-join tag thought payload,
          without_blocks-wrapped tag thought payload w t p,
          strip-output payload,
          find_outputs-output payload w p,
        )
        (strip-strip payload)
