-- ===== src/Prelude/Results.antt =====
-- What a Python call comes to: a value, or the exception that it raises.
use Prim.Native.Nat.{suc}
use mathlib.Core.Path.{◌≡◌, refl, ap}
use mathlib.Core.Logic.{◌⊎◌, inl, inr}
use mathlib.Core.List.{List, [], ◌∷◌}
use native.Mathlib.Omega.{arith}
use decision_maker_flow.Prelude.Lists.{length, All}

pub data Outcome {ℓ κ} (E : Type ℓ) (A : Type κ) : Type (ℓ ⊔ κ) where
  ok : A → Outcome E A
  raised : E → Outcome E A

infixl 5 ◌>>=◌
abbrev pub ◌>>=◌ {ℓ κ μ} :
    {E : Type ℓ} {A : Type κ} {B : Type μ} → Outcome E A → (A → Outcome E B) → Outcome E B
ok a >>= f = f a
raised e >>= f = raised e

pub Outcome-cases {ℓ κ} :
    {E : Type ℓ} {A : Type κ} (o : Outcome E A)
    → ((a : A) × (o ≡ ok a)) ⊎ ((e : E) × (o ≡ raised e))
Outcome-cases (ok a) = inl (a, refl)
Outcome-cases (raised e) = inr (e, refl)

-- The first part of a chain that succeeds, and the rest of it.
pub bind_inv {ℓ κ μ} :
    {E : Type ℓ} {A : Type κ} {B : Type μ} (o : Outcome E A) {f : A → Outcome E B} {b : B}
    → (o >>= f) ≡ ok b
    → (a : A) × (o ≡ ok a) × (f a ≡ ok b)
bind_inv (ok a) h = (a, refl, h)
bind_inv (raised e) h = cc

-- Where a chain that raises has raised.
pub bind_raised {ℓ κ μ} :
    {E : Type ℓ} {A : Type κ} {B : Type μ} (o : Outcome E A) {f : A → Outcome E B} {e : E}
    → (o >>= f) ≡ raised e
    → (o ≡ raised e) ⊎ ((a : A) × (o ≡ ok a) × (f a ≡ raised e))
bind_raised (ok a) h = inr (a, refl, h)
bind_raised (raised e) h = inl cc

-- Calls made in order, each of which may raise.
unfoldable pub traverse {ℓ κ μ} :
    {E : Type ℓ} {A : Type κ} {B : Type μ} → (A → Outcome E B) → List A → Outcome E (List B)
traverse f [] = ok []
traverse f (x ∷ xs) = let rest = traverse f xs in f x >>= λ y. rest >>= λ ys. ok (y ∷ ys)

-- The parts of a successful run over a nonempty list.
traverse-cons {ℓ κ μ} :
    {E : Type ℓ} {A : Type κ} {B : Type μ} (f : A → Outcome E B) (x : A) (xs : List A) {ys : List B}
    → traverse f (x ∷ xs) ≡ ok ys
    → (z : B) × (zs : List B) × (f x ≡ ok z) × (traverse f xs ≡ ok zs) × (ys ≡ z ∷ zs)
unfolding traverse
traverse-cons f x xs h = ground arith

-- What holds of each result, and their number.
pub traverse-All {ℓ κ μ ν} :
    {E : Type ℓ} {A : Type κ} {B : Type μ} (P : B → Type ν) (f : A → Outcome E B)
    → ((x : A) (y : B) → f x ≡ ok y → P y)
    → (xs : List A) {ys : List B} → traverse f xs ≡ ok ys
    → All P ys × (length ys ≡ length xs)
unfolding traverse
traverse-All P f each [] {ys = []} h = (tt, refl)
traverse-All P f each [] {ys = y ∷ ys} h = cc
traverse-All P f each (x ∷ xs) h =
    let (z, zs, first, later, e) = traverse-cons f x xs h in
    let (all, len) = traverse-All P f each xs later in rw e ((each x z first, all), ap suc len)
