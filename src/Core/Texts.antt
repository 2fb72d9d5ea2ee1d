-- ===== src/Core/Texts.antt =====
-- Texts that lack a character, and what stripping leaves alone.
use Prim.Native.Char.{code}
use Prim.Native.String.{[] as empty, ◌∷◌ as ◌∷ˢ◌, ◌++◌ as ◌++ˢ◌}
use text.Mathlib.TextLemmas.{nil-append, cons-append}
use mathlib.Core.Bool.{false≢true}
use decision_maker_flow.Prelude.{
  ℕ, ◌+◌, ◌≡◌, refl, ap, ◌∙◌, inl, inr, String, Bool, true, false, ◌&&◌, arith, Bool-cases, ◌==◌,
  len, is_space, is_empty, lstrip, rstrip, strip, if◌then◌else◌,
}

-- Concatenation that computes from the front.
unfoldable pub join : String → String → String
join empty t = t
join (c ∷ˢ s) t = c ∷ˢ join s t

pub append-join : (s t : String) → s ++ˢ t ≡ join s t
unfolding join
append-join empty t = nil-append t
append-join (c ∷ˢ s) t = cons-append c s t ∙ ap (λ u. c ∷ˢ u) (append-join s t)

pub join_assoc : (s t u : String) → join (join s t) u ≡ join s (join t u)
unfolding join
join_assoc empty t u = refl
join_assoc (c ∷ˢ s) t u = ap (λ v. c ∷ˢ v) (join_assoc s t u)

pub len-join : (s t : String) → len (join s t) ≡ len s + len t
unfolding join len
len-join empty t = omega arith
len-join (c ∷ˢ s) t = omega (arith, len-join s t)

abbrev pub Lacks : ℕ → String → Type 0
Lacks c empty = Unit
Lacks c (d ∷ˢ s) = ((c == code d) ≡ false) × Lacks c s

pub not_empty : (s t : String) → is_empty t ≡ false → is_empty (join s t) ≡ false
unfolding join
not_empty empty t h = h
not_empty (c ∷ˢ s) t h = refl

abbrev pub lacks : ℕ → String → Bool
lacks c empty = true
lacks c (d ∷ˢ s) = let rest = lacks c s in if c == code d then false else rest

pub lacks-Lacks : (c : ℕ) (s : String) → lacks c s ≡ true → Lacks c s
lacks-Lacks c empty h = tt
lacks-Lacks c (d ∷ˢ s) h =
    let rest = lacks-Lacks c s in
    elim (Bool-cases (c == code d)) [
      | inl e ↦ absurd (false≢true (rw e at h))
      | inr e ↦ (e, rest (rw e at h))
    ]

&&-false_right : (b : Bool) → (b && false) ≡ false
&&-false_right true = refl
&&-false_right false = refl

rstrip-rstrip : (s : String) → rstrip (rstrip s) ≡ rstrip s
unfolding rstrip
rstrip-rstrip empty = refl
rstrip-rstrip (c ∷ˢ s) =
    let rest = rstrip-rstrip s in
    elim (Bool-cases (is_space (code c) && is_empty (rstrip s))) [
      | inl e ↦ rw e refl
      | inr e ↦ rw (e, rest, e) refl
    ]

-- The text does not begin with a space.
abbrev Dark : String → Type 0
Dark empty = Unit
Dark (c ∷ˢ s) = is_space (code c) ≡ false

lstrip-Dark : (s : String) → Dark (lstrip s)
unfolding lstrip
lstrip-Dark empty = tt
lstrip-Dark (c ∷ˢ s) =
    let rest = lstrip-Dark s in
    elim (Bool-cases (is_space (code c))) [ inl e ↦ rw e rest | inr e ↦ rw e e ]

Dark-lstrip : (s : String) → Dark s → lstrip s ≡ s
unfolding lstrip
Dark-lstrip empty h = refl
Dark-lstrip (c ∷ˢ s) h = rw h refl

rstrip-Dark : (s : String) → Dark s → Dark (rstrip s)
unfolding rstrip
rstrip-Dark empty h = tt
rstrip-Dark (c ∷ˢ s) h = rw h h

pub strip-strip : (s : String) → strip (strip s) ≡ strip s
unfolding strip
strip-strip s =
    ap rstrip (Dark-lstrip (rstrip (lstrip s)) (rstrip-Dark (lstrip s) (lstrip-Dark s)))
    ∙ rstrip-rstrip (lstrip s)

-- Spaces are cut only where a text ends in one.
pub rstrip-join : (s t : String) → rstrip t ≡ t → is_empty t ≡ false → rstrip (join s t) ≡ join s t
unfolding rstrip join
rstrip-join empty t h e = h
rstrip-join (c ∷ˢ s) t h e =
    rw (rstrip-join s t h e, not_empty s t e, &&-false_right (is_space (code c))) refl

lstrip-Lacks : (n : ℕ) (s : String) → Lacks n s → Lacks n (lstrip s)
unfolding lstrip
lstrip-Lacks n empty l = l
lstrip-Lacks n (c ∷ˢ s) l =
    let rest = lstrip-Lacks n s l.1 in
    elim (Bool-cases (is_space (code c))) [ inl e ↦ rw e rest | inr e ↦ rw e l ]

rstrip-Lacks : (n : ℕ) (s : String) → Lacks n s → Lacks n (rstrip s)
unfolding rstrip
rstrip-Lacks n empty l = l
rstrip-Lacks n (c ∷ˢ s) l =
    let rest = rstrip-Lacks n s l.1 in
    elim (Bool-cases (is_space (code c) && is_empty (rstrip s))) [
      | inl e ↦ rw e tt
      | inr e ↦ rw e (l.0, rest)
    ]

pub strip-Lacks : (n : ℕ) (s : String) → Lacks n s → Lacks n (strip s)
unfolding strip
strip-Lacks n s l = rstrip-Lacks n (lstrip s) (lstrip-Lacks n s l)
