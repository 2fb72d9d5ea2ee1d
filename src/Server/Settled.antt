-- ===== src/Server/Settled.antt =====
-- What the settings of server/config.py satisfy once they are loaded.
use decision_maker_flow.Prelude.{
  ◌≡◌, ◌≢◌, ◌⊎◌, inl, inr, refl, String, Bool, true, false, Option, none, some, Outcome, ok, raised,
  bind_inv, str_eq, eq_iff, arith, sym, ap, ◌∙◌, Bool-cases,
}
use decision_maker_flow.Prelude.Int.{scale, ◌≤ℤ◌}
use decision_maker_flow.Server.Config.{
  Config, ValidationError, validate, validate_sweep_threshold, validate_llm_proxy_url_non_empty,
}
use decision_maker_flow.Server.Checkpointers.{backend_of, unsupported_kind}
use decision_maker_flow.Server.Settings.{
  Settings, not_a_bool, Parsers, required, or_default, parsed, kind_of, lifted, int_at, read_core,
  read_config, get_cfg,
}

kind_of-ok : (v : String) {s : String} → kind_of v ≡ ok s → (s ≡ "sqlite") ⊎ (s ≡ "postgres")
unfolding kind_of
kind_of-ok v h = elim (Bool-cases (str_eq v "sqlite")) [
  | inl e ↦ inl (ground (arith, h, eq_iff v "sqlite"))
  | inr e ↦ inr (ground (arith, h, e, eq_iff v "postgres"))
]

validate-ok :
    (c : Config) {d : Config}
    → validate c ≡ ok d
    → (c ≡ d)
      × (str_eq c.gateway_llm_proxy_url "" ≡ false)
      × (scale 5 c.turn_timeout_sec ≤ℤ c.sweep_threshold_secs)
unfolding validate validate_sweep_threshold validate_llm_proxy_url_non_empty
validate-ok c h = ground (arith, h)

backend_of-supported :
    (kind : String) (installed : Bool)
    → (kind ≡ "sqlite") ⊎ (kind ≡ "postgres")
    → backend_of kind installed ≢ raised unsupported_kind
unfolding backend_of
backend_of-supported kind installed (inl e) h =
    let sq : backend_of "sqlite" installed ≡ raised unsupported_kind =
      ap (λ (k : String). backend_of k installed) (sym e) ∙ h in
    cc
backend_of-supported kind true (inr e) h =
    let pg : backend_of "postgres" true ≡ raised unsupported_kind =
      ap (λ (k : String). backend_of k true) (sym e) ∙ h in
    cc
backend_of-supported kind false (inr e) h =
    let pg : backend_of "postgres" false ≡ raised unsupported_kind =
      ap (λ (k : String). backend_of k false) (sym e) ∙ h in
    cc

lifted-ok : (o : Outcome ValidationError Config) {c : Config} → lifted o ≡ ok c → o ≡ ok c
lifted-ok (ok d) h = cc
lifted-ok (raised e) h = cc

module _ (parsers : Parsers) where
  read_core-ok :
      (environ : String → Option String) {d : Config}
      → read_core parsers environ ≡ ok d
      → (str_eq d.gateway_llm_proxy_url "" ≡ false)
        × (scale 5 d.turn_timeout_sec ≤ℤ d.sweep_threshold_secs)
  unfolding read_core
  read_core-ok environ h =
      let (url, _, h1) =
        bind_inv (required "GATEWAY_LLM_PROXY_URL" (environ "GATEWAY_LLM_PROXY_URL")) h in
      let (timeout, _, h2) =
        bind_inv (int_at parsers environ "BRAINSTORM_TURN_TIMEOUT_SEC" 120) h1 in
      let (interval, _, h3) =
        bind_inv (int_at parsers environ "BRAINSTORM_SWEEP_INTERVAL_SEC" 60) h2 in
      let (threshold, _, h4) =
        bind_inv (int_at parsers environ "BRAINSTORM_SWEEP_THRESHOLD_SECS" 600) h3 in
      let c : Config = record {
        gateway_llm_proxy_url = url;
        turn_timeout_sec = timeout;
        sweep_interval_sec = interval;
        sweep_threshold_secs = threshold;
      } in
      let (same, nonempty, enough) = validate-ok c (lifted-ok (validate c) h4) in
      rw (← same) (nonempty, enough)

  read_config-ok :
      (environ : String → Option String) {s : Settings}
      → read_config parsers environ ≡ ok s
      → (kind_of (or_default "sqlite" (environ "BRAINSTORM_CHECKPOINTER")) ≡ ok s.checkpointer_kind)
        × (read_core parsers environ ≡ ok s.core)
  unfolding read_config
  read_config-ok environ h =
      let (secret, _, h1) =
        bind_inv (required "BRAINSTORM_HMAC_SECRET" (environ "BRAINSTORM_HMAC_SECRET")) h in
      let (key, _, h2) =
        bind_inv (required "GATEWAY_LLM_API_KEY" (environ "GATEWAY_LLM_API_KEY")) h1 in
      let (ttl, _, h3) = bind_inv (int_at parsers environ "BRAINSTORM_SESSION_TTL_SEC" 1800) h2 in
      let (ui, _, h4) =
        bind_inv (parsed parsers.parsed_bool (not_a_bool "GRADIO_UI") false (environ "GRADIO_UI"))
          h3 in
      let (port, _, h5) = bind_inv (int_at parsers environ "METRICS_PORT" 9090) h4 in
      let (kind, k, h6) =
        bind_inv (kind_of (or_default "sqlite" (environ "BRAINSTORM_CHECKPOINTER"))) h5 in
      let (core, c, e) = bind_inv (read_core parsers environ) h6 in
      (ground (arith, k, e), ground (arith, c, e))

  remembered-ok :
      (environ : String → Option String) {s : Settings} {after : Option Settings}
      → get_cfg parsers environ none ≡ (ok s, after)
      → (read_config parsers environ ≡ ok s) × (after ≡ some s)
  unfolding get_cfg
  remembered-ok environ h = ground (arith, h)

  -- Settings that the first call of `get_cfg` returns have a URL, a threshold of at least five
  -- timeouts, and a kind that the factory of checkpointers knows; and every later call returns them,
  -- whatever has become of the environment.
  pub settled :
      (environ later : String → Option String) (installed : Bool) {s : Settings}
      {after : Option Settings}
      → get_cfg parsers environ none ≡ (ok s, after)
      → (get_cfg parsers later after ≡ (ok s, after))
        × (str_eq s.core.gateway_llm_proxy_url "" ≡ false)
        × (scale 5 s.core.turn_timeout_sec ≤ℤ s.core.sweep_threshold_secs)
        × (backend_of s.checkpointer_kind installed ≢ raised unsupported_kind)
  unfolding get_cfg
  settled environ later installed {s} h =
      let (loaded, kept) = remembered-ok environ h in
      let (kind, core) = read_config-ok environ loaded in
      let (nonempty, enough) = read_core-ok environ core in
      (
        rw kept refl,
        nonempty,
        enough,
        backend_of-supported s.checkpointer_kind installed
            (kind_of-ok (or_default "sqlite" (environ "BRAINSTORM_CHECKPOINTER")) kind),
      )
