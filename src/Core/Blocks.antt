-- ===== src/Core/Blocks.antt =====
-- src/core/llm_utils.py: what the patterns find in a text, and what they leave.
use Prim.Native.Char.{Char, code}
use Prim.Native.String.{[] as empty, ◌∷◌ as ◌∷ˢ◌}
use decision_maker_flow.Prelude.{
  ℕ, ◌-◌, ◌≡◌, refl, ap, String, Bool, false, Option, none, some, [], arith, ◌==◌, len, prefix_of,
}
use decision_maker_flow.Core.Patterns.{literal, through_gt, lazily, spaces}
use decision_maker_flow.Core.LlmUtils.{
  close_tag, lower_equal, open_name, block_of, reasoning_block, without_blocks, find_outputs,
}
use decision_maker_flow.Core.Texts.{join, Lacks}

-- The names of `_REASONING_TAG_RE`.
pub data Tag : Type 0 where
  thinking think reasoning reflection : Tag

abbrev pub tag_name : Tag → String
tag_name thinking = "thinking"
tag_name think = "think"
tag_name reasoning = "reasoning"
tag_name reflection = "reflection"

-- `close` matches nothing that does not begin with "<".
abbrev pub Closes : (String → Option String) → Type 0
Closes close = (c : Char) (s : String) → (60 == code c) ≡ false → close (c ∷ˢ s) ≡ none

no_open : (c : Char) (s : String) → (60 == code c) ≡ false → literal ◌==◌ "<" (c ∷ˢ s) ≡ none
unfolding literal
no_open c s h = rw h refl

no_close : (c : Char) (s : String) → (60 == code c) ≡ false → literal ◌==◌ "</" (c ∷ˢ s) ≡ none
unfolding literal
no_close c s h = rw h refl

pub close_tag-Closes : (same : ℕ → ℕ → Bool) (name : String) → Closes (close_tag same name)
unfolding close_tag
close_tag-Closes same name c s h = rw (no_close c s h) refl

lazily_here :
    (close : String → Option String) (t : String) {rest : String}
    → close t ≡ some rest
    → lazily close t ≡ some (empty, rest)
unfolding lazily
lazily_here close empty h = rw h refl
lazily_here close (c ∷ˢ s) h = rw h refl

-- The group ends at the first place where `close` matches.
pub lazily-join :
    (close : String → Option String) (group t : String) {rest : String}
    → Closes close
    → Lacks 60 group
    → close t ≡ some rest
    → lazily close (join group t) ≡ some (group, rest)
unfolding lazily join
lazily-join close empty t k l h = lazily_here close t h
lazily-join close (c ∷ˢ s) t k l h = rw (k c (join s t) l.0, lazily-join close s t k l.1 h) refl

module _ (is_word : ℕ → Bool) where
  pub without_blocks_skip :
      (a b : String) → without_blocks is_word (len a) (join a b) ≡ without_blocks is_word 0 b
  unfolding without_blocks join len
  without_blocks_skip empty b = refl
  without_blocks_skip (c ∷ˢ a) b = without_blocks_skip a b

  find_outputs_skip : (a : String) → find_outputs is_word (len a) a ≡ []
  unfolding find_outputs len
  find_outputs_skip empty = refl
  find_outputs_skip (c ∷ˢ a) = find_outputs_skip a

  pub find_outputs_end : (a : String) → find_outputs is_word (len a - len empty) a ≡ []
  unfolding len
  find_outputs_end a = let whole : len a - 0 ≡ len a = omega arith in rw whole (find_outputs_skip a)

  -- A text without "<" is left as it is.
  pub without_blocks-join :
      (a b : String)
      → Lacks 60 a
      → without_blocks is_word 0 (join a b) ≡ join a (without_blocks is_word 0 b)
  unfolding without_blocks join reasoning_block
  without_blocks-join empty b l = refl
  without_blocks-join (c ∷ˢ a) b l =
      rw (without_blocks, no_open c (join a b) l.0) (ap (λ u. c ∷ˢ u) (without_blocks-join a b l.1))

  pub without_blocks-Lacks : (s : String) → Lacks 60 s → without_blocks is_word 0 s ≡ s
  unfolding without_blocks reasoning_block
  without_blocks-Lacks empty l = refl
  without_blocks-Lacks (c ∷ˢ s) l =
      rw (without_blocks, no_open c s l.0) (ap (λ u. c ∷ˢ u) (without_blocks-Lacks s l.1))

  pub reasoning_block-join :
      (tag : Tag) (thought t : String)
      → is_word 62 ≡ false
      → Lacks 60 thought
      → reasoning_block is_word (
          join "<" (
            join
              (tag_name tag)
              (join ">" (join thought (join "</" (join (tag_name tag) (join ">" t)))))))
        ≡ some t
  unfolding reasoning_block block_of open_name literal through_gt close_tag join len prefix_of
      spaces
  reasoning_block-join thinking thought t w l =
      rw
        (
          w,
          lazily-join (close_tag lower_equal "thinking") thought (join "</thinking>" t)
              (close_tag-Closes lower_equal "thinking") l refl,
        )
        refl
  reasoning_block-join think thought t w l =
      rw
        (
          w,
          lazily-join (close_tag lower_equal "think") thought (join "</think>" t)
              (close_tag-Closes lower_equal "think") l refl,
        )
        refl
  reasoning_block-join reasoning thought t w l =
      rw
        (
          w,
          lazily-join (close_tag lower_equal "reasoning") thought (join "</reasoning>" t)
              (close_tag-Closes lower_equal "reasoning") l refl,
        )
        refl
  reasoning_block-join reflection thought t w l =
      rw
        (
          w,
          lazily-join (close_tag lower_equal "reflection") thought (join "</reflection>" t)
              (close_tag-Closes lower_equal "reflection") l refl,
        )
        refl
