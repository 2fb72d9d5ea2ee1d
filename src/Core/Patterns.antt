-- ===== src/Core/Patterns.antt =====
-- The pieces of Python's `re` that the patterns of src/core/ are made of. A piece gives what is left
-- of the text behind its match.
use Prim.Native.Char.{Char, code}
use Prim.Native.String.{[] as empty, ◌∷◌ as ◌∷ˢ◌}
use decision_maker_flow.Prelude.{
  ℕ, ◌+◌, String, Bool, true, not, ◌&&◌, ◌||◌, Option, none, some, leb, ◌==◌, is_space,
  if◌then◌else◌,
}

-- The lower case of a code point that is a letter of a tag in IGNORECASE: the capitals, the Kelvin
-- sign and the dotted capital I. Every other code point stands for itself.
abbrev pub lower : ℕ → ℕ
lower c =
    if leb 65 c && leb c 90 then c + 32 else if c == 8490 then 107 else if c == 304 then 105 else c

-- A small letter of a pattern matches `c` under IGNORECASE: the dotless i goes with i, the long s
-- with s.
abbrev pub same_letter : ℕ → ℕ → Bool
same_letter l c = (lower c == l) || (l == 105 && (lower c == 305)) || (l == 115 && (lower c == 383))

infixl 1 ◌>>=◌
abbrev pub ◌>>=◌ {ℓ κ} : {A : Type ℓ} {B : Type κ} → Option A → (A → Option B) → Option B
none >>= f = none
some a >>= f = f a

-- A character of the text that `p` accepts.
abbrev pub char_if : (ℕ → Bool) → String → Option String
char_if p empty = none
char_if p (c ∷ˢ s) = if p (code c) then some s else none

-- The pattern's text, character by character under a comparison.
unfoldable pub literal : (ℕ → ℕ → Bool) → String → String → Option String
literal same empty s = some s
literal same (l ∷ˢ ls) empty = none
literal same (l ∷ˢ ls) (c ∷ˢ s) =
    let rest = literal same ls s in if same (code l) (code c) then rest else none

-- `\s*`
unfoldable pub spaces : String → String
spaces empty = empty
spaces (c ∷ˢ s) = let rest = spaces s in if is_space (code c) then rest else c ∷ˢ s

-- `[^>]*>`
unfoldable pub through_gt : String → Option String
through_gt empty = none
through_gt (c ∷ˢ s) = let rest = through_gt s in if code c == 62 then some s else rest

-- `\b` behind a letter: the text ends, or goes on with no character of a word.
abbrev pub word_ends : (is_word : ℕ → Bool) → String → Bool
word_ends is_word empty = true
word_ends is_word (c ∷ˢ s) = not (is_word (code c))

abbrev pub before : Char → Option (String × String) → Option (String × String)
before c none = none
before c (some (group, rest)) = some (c ∷ˢ group, rest)

abbrev pub or_later : Option String → Option (String × String) → Option (String × String)
or_later none later = later
or_later (some rest) later = some (empty, rest)

-- `(.*?)` with the pattern `close` behind it: the group, and what is left behind `close`.
unfoldable pub lazily : (close : String → Option String) → String → Option (String × String)
lazily close empty = or_later (close empty) none
lazily close (c ∷ˢ s) = let later = lazily close s in or_later (close (c ∷ˢ s)) (before c later)
