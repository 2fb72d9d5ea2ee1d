-- ===== src/Core/Braces.antt =====
-- src/core/json_utils.py: what the searches find in a text, whatever `strip` has cut off.
use Prim.Native.Char.{Char, code}
use Prim.Native.String.{[] as empty, ◌∷◌ as ◌∷ˢ◌}
use mathlib.Core.Bool.{false≢true}
use decision_maker_flow.Prelude.{
  ℕ, ◌≡◌, refl, ap, sym, ◌∙◌, inl, inr, String, Bool, true, false, Option, none, some, arith,
  Bool-cases, ◌==◌, is_space, is_empty, lstrip, rstrip, strip,
}
use decision_maker_flow.Core.Patterns.{literal, ◌>>=◌}
use decision_maker_flow.Core.JsonUtils.{search_fenced, from_brace, through_last_brace, brace_match}
use decision_maker_flow.Core.Texts.{join, Lacks}

no_space : (b c : ℕ) → is_space b ≡ false → is_space c ≡ true → (b == c) ≡ false
no_space b c f t = elim (Bool-cases (b == c)) [
  | inl e ↦ let same : b ≡ c = ground arith in absurd (false≢true (sym f ∙ ap is_space same ∙ t))
  | inr e ↦ e
]

emptied : (s : String) → is_empty s ≡ true → s ≡ empty
emptied empty h = refl
emptied (c ∷ˢ s) h = absurd (false≢true h)

from_brace-lstrip : (s : String) → from_brace (lstrip s) ≡ from_brace s
unfolding from_brace lstrip
from_brace-lstrip empty = refl
from_brace-lstrip (c ∷ˢ s) =
    let rest = from_brace-lstrip s in
    elim (Bool-cases (is_space (code c))) [
      | inl e ↦ rw (e, no_space 123 (code c) refl e) rest
      | inr e ↦ rw e refl
    ]

abbrev rstripped : Option String → Option String
rstripped none = none
rstripped (some s) = some (rstrip s)

from_brace-rstrip : (s : String) → from_brace (rstrip s) ≡ rstripped (from_brace s)
unfolding from_brace rstrip
from_brace-rstrip empty = refl
from_brace-rstrip (c ∷ˢ s) =
    let rest = from_brace-rstrip s in
    elim (Bool-cases (is_space (code c))) [
      | inl e ↦ elim (Bool-cases (is_empty (rstrip s))) [
        | inl n ↦
            rw (e, n, no_space 123 (code c) refl e)
              (ap from_brace (sym (emptied (rstrip s) n)) ∙ rest)
        | inr n ↦ rw (e, n, no_space 123 (code c) refl e) rest
      ]
      | inr e ↦ elim (Bool-cases (123 == code c)) [
        | inl b ↦ rw (e, b, e) refl
        | inr b ↦ rw (e, b) rest
      ]
    ]

through_last_brace-rstrip : (s : String) → through_last_brace (rstrip s) ≡ through_last_brace s
unfolding through_last_brace rstrip
through_last_brace-rstrip empty = refl
through_last_brace-rstrip (c ∷ˢ s) =
    let rest = through_last_brace-rstrip s in
    elim (Bool-cases (is_space (code c))) [
      | inl e ↦ elim (Bool-cases (is_empty (rstrip s))) [
        | inl n ↦
            let nothing : through_last_brace s ≡ none =
              sym rest ∙ ap through_last_brace (emptied (rstrip s) n) in
            rw (e, n, no_space 125 (code c) refl e, nothing) refl
        | inr n ↦ rw (e, n, rest) refl
      ]
      | inr e ↦ rw (e, rest) refl
    ]

past_rstrip :
    (o : Option String)
    → (rstripped o >>= λ t. through_last_brace t) ≡ (o >>= λ t. through_last_brace t)
past_rstrip none = refl
past_rstrip (some t) = through_last_brace-rstrip t

-- The braces are found whatever spaces stand around the text.
pub brace_match-strip : (s : String) → brace_match (strip s) ≡ brace_match s
unfolding brace_match strip
brace_match-strip s =
    rw (from_brace-rstrip (lstrip s), from_brace-lstrip s) (past_rstrip (from_brace s))

no_head :
    (same : ℕ → ℕ → Bool) (l : Char) (ls : String) (c : Char) (s : String)
    → same (code l) (code c) ≡ false
    → literal same (l ∷ˢ ls) (c ∷ˢ s) ≡ none
unfolding literal
no_head same l ls c s h = rw h refl

-- There is no fence in a text without backticks.
pub search_fenced-Lacks :
    (same : ℕ → ℕ → Bool) (l : Char) (ls s : String)
    → ((c : ℕ) → (96 == c) ≡ false → same (code l) c ≡ false)
    → Lacks 96 s
    → search_fenced same (l ∷ˢ ls) s ≡ none
unfolding search_fenced
search_fenced-Lacks same l ls empty d h = refl
search_fenced-Lacks same l ls (c ∷ˢ s) d h =
    rw (no_head same l ls c s (d (code c) h.0), search_fenced-Lacks same l ls s d h.1) refl

from_brace-join : (s t : String) → Lacks 123 s → from_brace (join s t) ≡ from_brace t
unfolding from_brace join
from_brace-join empty t l = refl
from_brace-join (c ∷ˢ s) t l = rw l.0 (from_brace-join s t l.1)

through_last_brace-Lacks : (s : String) → Lacks 125 s → through_last_brace s ≡ none
unfolding through_last_brace
through_last_brace-Lacks empty l = refl
through_last_brace-Lacks (c ∷ˢ s) l = rw (through_last_brace-Lacks s l.1, l.0) refl

through_last_brace-join :
    (s t : String) {u : String}
    → through_last_brace t ≡ some u
    → through_last_brace (join s t) ≡ some (join s u)
unfolding through_last_brace join
through_last_brace-join empty t h = h
through_last_brace-join (c ∷ˢ s) t h = rw (through_last_brace-join s t h) refl

-- The match runs from the first opening brace to the last closing one.
pub brace_match-join :
    (before inner after : String)
    → Lacks 123 before
    → Lacks 125 after
    → brace_match (join before (join "{" (join inner (join "}" after))))
      ≡ some (join "{" (join inner "}"))
unfolding brace_match from_brace through_last_brace join
brace_match-join before inner after b a =
    let closed : through_last_brace (join "}" after) ≡ some "}" =
      rw (through_last_brace-Lacks after a) refl in
    rw
      (
        from_brace-join before (join "{" (join inner (join "}" after))) b,
        through_last_brace-join inner (join "}" after) closed,
      )
      refl
