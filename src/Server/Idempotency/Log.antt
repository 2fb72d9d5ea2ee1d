-- ===== src/Server/Idempotency/Log.antt =====
-- A concrete cache without a bound on its size: the log of all `set`s, the newest first. It shows
-- that what is asked of cachetools.TTLCache can be met, and gives states to instantiate theorems
-- with.
use decision_maker_flow.Prelude.{
  ℕ, ◌+◌, ◌≤◌, ◌<◌, ◌≡◌, ◌⊎◌, inr, String, false, Option, none, some, List, [], ◌∷◌, arith, ltb,
  str_eq, eq_refl, if◌then◌else◌,
}
use decision_maker_flow.Server.Idempotency.{TtlCache}

pub record Entry (V : Type 0) : Type 0 where
  pub key : String
  pub value : V
  pub set_at : ℕ

module _ {V : Type 0} (ttl : ℕ) where
  unfoldable pub log_get : ℕ → String → List (Entry V) → Option V
  log_get now k [] = none
  log_get now k (e ∷ es) =
      let rest = log_get now k es in
      if str_eq e.key k then (if ltb now (e.set_at + ttl) then some e.value else none) else rest

  abbrev log_set : ℕ → String → V → List (Entry V) → List (Entry V)
  log_set now k v es = record { key = k; value = v; set_at = now } ∷ es

  pub log_get-set :
      (t now : ℕ) (k : String) (v : V) (s : List (Entry V))
      → t ≤ now
      → now < t + ttl
      → log_get now k (log_set t k v s) ≡ some v
  unfolding log_get
  log_get-set t now k v s before alive = ground (arith, eq_refl k)

  pub log_get-set_other :
      (t now : ℕ) (k j : String) (v : V) (s : List (Entry V))
      → str_eq k j ≡ false
      → (log_get now j (log_set t k v s) ≡ none)
        ⊎ (log_get now j (log_set t k v s) ≡ log_get now j s)
  unfolding log_get
  log_get-set_other t now k j v s other = inr (ground arith)

  unfoldable pub log : TtlCache V
  unfolding log_get
  log = record {
    State = List (Entry V);
    get = log_get;
    set = log_set;
    ttl = ttl;
    get-set = log_get-set;
    get-set_other = log_get-set_other;
  }
