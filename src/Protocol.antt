-- ===== src/Protocol.antt =====
-- A resource that allows some events in each of its states, as the connection of a database does.
use decision_maker_flow.Prelude.{
  ◌≡◌, refl, ap, ◌∙◌, ℕ, zero, suc, Option, none, some, List, [], ◌∷◌, ◌++◌,
}

module _ {ℓ κ} {Phase : Type ℓ} {Event : Type κ} (allowed : Phase → Event → Option Phase) where
  abbrev then_allowed : Option Phase → Event → Option Phase
  then_allowed none e = none
  then_allowed (some p) e = allowed p e

  -- Where the events lead, if each of them is allowed.
  unfoldable pub follows : Option Phase → List Event → Option Phase
  follows p [] = p
  follows p (e ∷ es) = follows (then_allowed p e) es

abbrev pub times {ℓ} : {Event : Type ℓ} → ℕ → Event → List Event
times zero e = []
times (suc n) e = e ∷ times n e

-- An event that leaves the state as it is may occur any number of times.
pub follows-times {ℓ κ} :
    {Phase : Type ℓ} {Event : Type κ} (allowed : Phase → Event → Option Phase) (p : Phase)
    (e : Event) (n : ℕ) (es : List Event)
    → allowed p e ≡ some p
    → follows allowed (some p) (times n e ++ es) ≡ follows allowed (some p) es
unfolding follows
follows-times allowed p e zero es h = refl
follows-times allowed p e (suc n) es h =
    ap (λ q. follows allowed q (times n e ++ es)) h ∙ follows-times allowed p e n es h
