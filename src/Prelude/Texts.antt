-- ===== src/Prelude/Texts.antt =====
-- Python's `str` by its code points: `len`, `s[:n]`, concatenation, and `str.strip`.
use Prim.Native.Nat.{ℕ, zero, suc, ◌+◌, ◌≤◌}
use Prim.Native.Char.{code}
use Prim.Native.String.{String, [] as empty, ◌∷◌ as ◌∷ˢ◌, ◌++◌ as ◌++ˢ◌}
use mathlib.Core.Path.{◌≡◌, refl, ap}
use mathlib.Core.Bool.{Bool, true, false, ◌||◌, ◌&&◌}
use native.Mathlib.Omega.{arith}
use text.Mathlib.TextLemmas.{nil-append, cons-append}
use decision_maker_flow.Prelude.Tests.{leb, ◌==◌, if◌then◌else◌}

-- `len(s)`
unfoldable pub len : String → ℕ
len empty = 0
len (c ∷ˢ s) = suc (len s)

-- `s[:n]`
unfoldable pub prefix_of : ℕ → String → String
prefix_of zero s = empty
prefix_of (suc n) empty = empty
prefix_of (suc n) (c ∷ˢ s) = c ∷ˢ prefix_of n s

-- The code points that `str.strip` and `\s` take for white space.
abbrev pub is_space : ℕ → Bool
is_space c =
    (leb 9 c && leb c 13)
    || (leb 28 c && leb c 32)
    || (c == 133)
    || (c == 160)
    || (c == 5760)
    || (leb 8192 c && leb c 8202)
    || (c == 8232)
    || (c == 8233)
    || (c == 8239)
    || (c == 8287)
    || (c == 12288)

unfoldable pub lstrip : String → String
lstrip empty = empty
lstrip (c ∷ˢ s) = let rest = lstrip s in if is_space (code c) then rest else c ∷ˢ s

abbrev pub is_empty : String → Bool
is_empty empty = true
is_empty (c ∷ˢ s) = false

-- A space goes with the spaces behind it.
unfoldable pub rstrip : String → String
rstrip empty = empty
rstrip (c ∷ˢ s) =
    let rest = rstrip s in if is_space (code c) && is_empty rest then empty else c ∷ˢ rest

-- `s.strip()`
unfoldable pub strip : String → String
unfolding lstrip rstrip
strip s = rstrip (lstrip s)

pub len-append : (s t : String) → len (s ++ˢ t) ≡ len s + len t
unfolding len
len-append empty t = rw (nil-append t) (omega arith)
len-append (c ∷ˢ s) t = rw (cons-append c s t) (omega (arith, len-append s t))

pub len-prefix_of : (n : ℕ) (s : String) → n ≤ len s → len (prefix_of n s) ≡ n
unfolding len prefix_of
len-prefix_of zero s h = refl
len-prefix_of (suc n) empty h = omega arith
len-prefix_of (suc n) (c ∷ˢ s) h = omega (arith, len-prefix_of n s)

pub prefix_of-append : (s t : String) → prefix_of (len s) (s ++ˢ t) ≡ s
unfolding len prefix_of
prefix_of-append empty t = refl
prefix_of-append (c ∷ˢ s) t = rw (cons-append c s t) (ap (λ u. c ∷ˢ u) (prefix_of-append s t))
