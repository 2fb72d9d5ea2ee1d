-- ===== src/Table.antt =====
-- A table of SQLite with a TEXT primary key, as server/checkpoint_factory.py uses one. A SELECT has
-- no ORDER BY, so nothing is claimed about the order of rows.
use decision_maker_flow.Prelude.{
  ◌≡◌, refl, String, Bool, true, false, Option, none, some, List, [], ◌∷◌, arith, str_eq, eq_iff,
  if◌then◌else◌, Bool-cases, inl, inr,
}

abbrev pub Rows {ℓ} : Type ℓ → Type ℓ
Rows V = List (String × V)

module _ {ℓ} {V : Type ℓ} where
  -- SELECT value WHERE key = ?
  unfoldable pub select : String → Rows V → Option V
  select k [] = none
  select k ((j, v) ∷ r) = if str_eq j k then some v else select k r

  -- DELETE WHERE key = ?
  unfoldable pub delete : String → Rows V → Rows V
  delete k [] = []
  delete k ((j, v) ∷ r) = let rest = delete k r in if str_eq j k then rest else (j, v) ∷ rest

  -- INSERT OR REPLACE
  unfoldable pub upsert : String → V → Rows V → Rows V
  upsert k v r = (k, v) ∷ delete k r

  -- SELECT key WHERE p(value)
  unfoldable pub keys_where : (V → Bool) → Rows V → List String
  keys_where p [] = []
  keys_where p ((j, v) ∷ r) = let rest = keys_where p r in if p v then j ∷ rest else rest

  -- No key stands twice.
  abbrev pub IsKeyed : Rows V → Type ℓ
  IsKeyed [] = Unit
  IsKeyed ((k, v) ∷ r) = (select k r ≡ none) × IsKeyed r

  pub select-delete :
      (k j : String) (r : Rows V)
      → select j (delete k r) ≡ (if str_eq k j then none else select j r)
  unfolding select delete
  select-delete k j [] = ground arith
  select-delete k j ((i, v) ∷ r) =
      ground (arith, select-delete k j r, eq_iff i k, eq_iff i j, eq_iff k j)

  pub select-upsert :
      (k j : String) (v : V) (r : Rows V)
      → select j (upsert k v r) ≡ (if str_eq k j then some v else select j r)
  unfolding select upsert
  select-upsert k j v r = ground (arith, select-delete k j r)

  pub delete-IsKeyed : (k : String) (r : Rows V) → IsKeyed r → IsKeyed (delete k r)
  unfolding delete
  delete-IsKeyed k [] h = tt
  delete-IsKeyed k ((j, v) ∷ r) (new, h) = elim (Bool-cases (str_eq j k)) [
    | inl e ↦ rw e (delete-IsKeyed k r h)
    | inr e ↦ rw e (ground (arith, select-delete k j r, new), delete-IsKeyed k r h)
  ]

  pub upsert-IsKeyed : (k : String) (v : V) (r : Rows V) → IsKeyed r → IsKeyed (upsert k v r)
  unfolding upsert
  upsert-IsKeyed k v r h = (ground (arith, select-delete k k r, eq_iff k k), delete-IsKeyed k r h)

-- A key stands in a list.
unfoldable pub listed : String → List String → Bool
listed k [] = false
listed k (j ∷ js) = if str_eq j k then true else listed k js

abbrev pub satisfies {ℓ} : {V : Type ℓ} → (V → Bool) → Option V → Bool
satisfies p none = false
satisfies p (some v) = p v

module _ {ℓ} {V : Type ℓ} (p : V → Bool) where
  listed_absent : (k : String) (r : Rows V) → select k r ≡ none → listed k (keys_where p r) ≡ false
  unfolding select listed keys_where
  listed_absent k [] h = refl
  listed_absent k ((j, v) ∷ r) h = ground (arith, listed_absent k r)

  -- A keyed table selects exactly the keys whose value satisfies the test.
  pub listed-keys_where :
      (k : String) (r : Rows V) → IsKeyed r → listed k (keys_where p r) ≡ satisfies p (select k r)
  unfolding select listed keys_where
  listed-keys_where k [] h = refl
  listed-keys_where k ((j, v) ∷ r) (new, h) =
      ground (arith, listed-keys_where k r h, eq_iff j k, listed_absent j r new)
