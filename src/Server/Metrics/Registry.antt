-- ===== src/Server/Metrics/Registry.antt =====
-- server/metrics.py: the registration of the collectors, and the bundle that is made of them.
use decision_maker_flow.Prelude.{
  ℕ, zero, suc, ◌+◌, String, Bool, true, false, Option, none, some, List, [], ◌∷◌, ◌++◌, ◌==◌, ◌||◌,
  Outcome, ok, raised, ◌>>=◌,
}
use decision_maker_flow.Table.{Rows, select, upsert}

pub data Kind : Type 0 where
  counter histogram gauge : Kind

pub record Collector : Type 0 where
  pub kind : Kind
  pub name : String
  pub labelnames : List String

abbrev bare : Kind → String → Collector
bare kind name = record { kind = kind; name = name; labelnames = [] }

abbrev labelled : String → String → Collector
labelled name label = record { kind = counter; name = name; labelnames = label ∷ [] }

-- The collectors in the order of their registration.
unfoldable pub build_registry : List Collector
build_registry =
    labelled "brainstorm_turns_total" "state"
    ∷ bare counter "brainstorm_done_total"
    ∷ labelled "brainstorm_token_verify_failures_total" "reason"
    ∷ labelled "brainstorm_idempotent_hits_total" "source"
    ∷ bare counter "brainstorm_sweeper_runs_total"
    ∷ bare counter "brainstorm_sweeper_deleted_total"
    ∷ labelled "brainstorm_readyz_checks_total" "result"
    ∷ bare histogram "brainstorm_turn_duration_seconds"
    ∷ bare histogram "brainstorm_llm_roundtrip_seconds"
    ∷ bare gauge "brainstorm_active_sessions"
    ∷ []

-- prometheus_client: `describe()[0].name` of a collector, and under how many further names the
-- registry holds it.
pub record Library : Type 0 where
  pub base_name : Collector → String
  pub more_names : Collector → ℕ

abbrev pub held : ℕ → ℕ × Collector → List (ℕ × Collector)
held zero entry = []
held (suc n) entry = entry ∷ held n entry

abbrev or_missing : String → Option Collector → Outcome String Collector
or_missing key none = raised key
or_missing key (some c) = ok c

unfoldable pub is_seen : ℕ → List ℕ → Bool
is_seen id [] = false
is_seen id (i ∷ seen) = (i == id) || is_seen id seen

pub record Bundle : Type 0 where
  pub turns_total : Collector
  pub turn_duration_seconds : Collector
  pub llm_roundtrip_seconds : Collector
  pub active_sessions : Collector
  pub done_total : Collector
  pub token_verify_failures_total : Collector
  pub idempotent_hits_total : Collector
  pub sweeper_runs_total : Collector
  pub sweeper_deleted_total : Collector
  pub readyz_checks_total : Collector

-- The look-ups; the failure is a KeyError.
unfoldable pub bundle : Rows Collector → Outcome String Bundle
unfolding select
bundle rows = do
  turns ← or_missing "brainstorm_turns" (select "brainstorm_turns" rows)
  duration ←
      or_missing "brainstorm_turn_duration_seconds" (select "brainstorm_turn_duration_seconds" rows)
  roundtrip ←
      or_missing "brainstorm_llm_roundtrip_seconds" (select "brainstorm_llm_roundtrip_seconds" rows)
  active ← or_missing "brainstorm_active_sessions" (select "brainstorm_active_sessions" rows)
  finished ← or_missing "brainstorm_done" (select "brainstorm_done" rows)
  failures ←
      or_missing "brainstorm_token_verify_failures" (select "brainstorm_token_verify_failures" rows)
  hits ← or_missing "brainstorm_idempotent_hits" (select "brainstorm_idempotent_hits" rows)
  runs ← or_missing "brainstorm_sweeper_runs" (select "brainstorm_sweeper_runs" rows)
  deleted ← or_missing "brainstorm_sweeper_deleted" (select "brainstorm_sweeper_deleted" rows)
  readyz ← or_missing "brainstorm_readyz_checks" (select "brainstorm_readyz_checks" rows)
  ok (record {
    turns_total = turns;
    turn_duration_seconds = duration;
    llm_roundtrip_seconds = roundtrip;
    active_sessions = active;
    done_total = finished;
    token_verify_failures_total = failures;
    idempotent_hits_total = hits;
    sweeper_runs_total = runs;
    sweeper_deleted_total = deleted;
    readyz_checks_total = readyz;
  })

module _ (library : Library) where
  -- `registry._names_to_collectors.values()`, each collector with its id().
  unfoldable pub values_from : (id : ℕ) → List Collector → List (ℕ × Collector)
  values_from id [] = []
  values_from id (c ∷ cs) =
      (id, c) ∷ (held (library.more_names c) (id, c) ++ values_from (id + 1) cs)

  -- The loop over them, with `seen_ids` and `unique_by_base`.
  unfoldable pub unique_by_base :
      (seen_ids : List ℕ) → Rows Collector → List (ℕ × Collector) → Rows Collector
  unfolding is_seen upsert
  unique_by_base seen rows [] = rows
  unique_by_base seen rows ((id, c) ∷ es) = elim (is_seen id seen) [
    | true ↦ unique_by_base seen rows es
    | false ↦ unique_by_base (id ∷ seen) (upsert (library.base_name c) c rows) es
  ]

  unfoldable pub make_metrics : (registry : List Collector) → Outcome String Bundle
  unfolding values_from unique_by_base bundle
  make_metrics registry = bundle (unique_by_base [] [] (values_from 0 registry))
