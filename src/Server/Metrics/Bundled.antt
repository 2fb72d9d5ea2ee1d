-- ===== src/Server/Metrics/Bundled.antt =====
-- Which collectors the bundle of server/metrics.py holds.
use Prim.Native.String.{[] as empty, ◌∷◌ as ◌∷ˢ◌}
use decision_maker_flow.Prelude.{
  ℕ, zero, suc, ◌+◌, ◌<◌, ◌≡◌, refl, String, true, false, List, [], ◌∷◌, ◌++◌, str_eq, arith, All,
  ap, ◌∙◌, if◌then◌else◌, ok, map,
}
use decision_maker_flow.Table.{Rows, select, upsert, delete, listed}
use decision_maker_flow.Server.Metrics.Registry.{
  Kind, counter, histogram, gauge, Collector, build_registry, Library, held, is_seen, bundle,
  values_from, unique_by_base, make_metrics,
}
use decision_maker_flow.Scripts.Smoke.Probes.{required_metric_families}

-- A text without "_total" at its end.
unfoldable dropped_total : String → String
dropped_total empty = empty
dropped_total (c ∷ˢ s) =
    let rest = dropped_total s in if str_eq (c ∷ˢ s) "_total" then empty else c ∷ˢ rest

-- The base name that prometheus_client documents: "_total" is taken off the name of a counter.
abbrev documented_name : Kind → String → String
documented_name counter name = dropped_total name
documented_name _ name = name

abbrev registered : Rows Collector → List Collector → Rows Collector
registered rows [] = rows
registered rows (c ∷ cs) = registered (upsert (documented_name c.kind c.name) c rows) cs

abbrev Below : ℕ → List ℕ → Type 0
Below id seen = All (λ i. i < id) seen

Below-suc : (id : ℕ) (seen : List ℕ) → Below id seen → Below (id + 1) seen
Below-suc id [] h = tt
Below-suc id (i ∷ seen) (less, h) = (omega arith, Below-suc id seen h)

unseen : (id : ℕ) (seen : List ℕ) → Below id seen → is_seen id seen ≡ false
unfolding is_seen
unseen id [] h = refl
unseen id (i ∷ seen) (less, h) = ground (arith, unseen id seen h, less)

module _ (library : Library) where
  held_once :
      (n id : ℕ) (c : Collector) (seen : List ℕ) (rows : Rows Collector) (es : List (ℕ × Collector))
      → is_seen id seen ≡ true
      → unique_by_base library seen rows (held n (id, c) ++ es)
        ≡ unique_by_base library seen rows es
  unfolding unique_by_base
  held_once zero id c seen rows es h = refl
  held_once (suc n) id c seen rows es h = rw (unique_by_base, h) (held_once n id c seen rows es h)

  own_seen : (id : ℕ) (seen : List ℕ) → is_seen id (id ∷ seen) ≡ true
  unfolding is_seen
  own_seen id seen = ground arith

  first_held :
      (id : ℕ) (c : Collector) (seen : List ℕ) (rows : Rows Collector) (es : List (ℕ × Collector))
      → is_seen id seen ≡ false
      → unique_by_base library seen rows ((id, c) ∷ es)
        ≡ unique_by_base library (id ∷ seen) (upsert (library.base_name c) c rows) es
  unfolding unique_by_base
  first_held id c seen rows es h = rw (unique_by_base, h) refl

  unique_values :
      (id : ℕ) (seen : List ℕ) (rows : Rows Collector) (cs : List Collector)
      → ((c : Collector) → library.base_name c ≡ documented_name c.kind c.name)
      → Below id seen
      → unique_by_base library seen rows (values_from library id cs) ≡ registered rows cs
  unfolding unique_by_base values_from is_seen
  unique_values id seen rows [] named below = refl
  unique_values id seen rows (c ∷ cs) named below =
      first_held id c seen rows _ (unseen id seen below)
      ∙ held_once (library.more_names c) id c (id ∷ seen) _ (values_from library (id + 1) cs)
          (own_seen id seen)
      ∙ unique_values (id + 1) (id ∷ seen) _ cs named (omega arith, Below-suc id seen below)
      ∙ ap (λ name. registered (upsert name c rows) cs) (named c)

  -- Whatever further names the registry holds a collector under, the bundle of a fresh registry has
  -- each collector in the field of its name, and no look-up fails, if the library takes "_total"
  -- off the names of counters and leaves the others.
  bundled :
      ((c : Collector) → library.base_name c ≡ documented_name c.kind c.name)
      → make_metrics library build_registry
        ≡ ok (record {
          turns_total = record {
            kind = counter;
            name = "brainstorm_turns_total";
            labelnames = "state" ∷ [];
          };
          turn_duration_seconds = record {
            kind = histogram;
            name = "brainstorm_turn_duration_seconds";
            labelnames = [];
          };
          llm_roundtrip_seconds = record {
            kind = histogram;
            name = "brainstorm_llm_roundtrip_seconds";
            labelnames = [];
          };
          active_sessions = record {
            kind = gauge;
            name = "brainstorm_active_sessions";
            labelnames = [];
          };
          done_total = record { kind = counter; name = "brainstorm_done_total"; labelnames = [] };
          token_verify_failures_total = record {
            kind = counter;
            name = "brainstorm_token_verify_failures_total";
            labelnames = "reason" ∷ [];
          };
          idempotent_hits_total = record {
            kind = counter;
            name = "brainstorm_idempotent_hits_total";
            labelnames = "source" ∷ [];
          };
          sweeper_runs_total = record {
            kind = counter;
            name = "brainstorm_sweeper_runs_total";
            labelnames = [];
          };
          sweeper_deleted_total = record {
            kind = counter;
            name = "brainstorm_sweeper_deleted_total";
            labelnames = [];
          };
          readyz_checks_total = record {
            kind = counter;
            name = "brainstorm_readyz_checks_total";
            labelnames = "result" ∷ [];
          };
        })
  unfolding make_metrics build_registry bundle dropped_total select upsert delete
  bundled named = ap bundle (unique_values 0 [] [] build_registry named tt)

-- Every family that scripts/smoke_brainstorm.py asks for is registered under its full name.
families_registered :
    All
      (λ family. listed family (map (λ (c : Collector). c.name) build_registry) ≡ true)
      required_metric_families
unfolding build_registry listed
families_registered =
    (refl, (refl, (refl, (refl, (refl, (refl, (refl, (refl, (refl, (refl, tt))))))))))
