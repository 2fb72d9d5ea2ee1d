-- ===== src/Server/SettingsTests.antt =====
-- The settings at concrete environments, and what the model's client is made with.
use decision_maker_flow.Prelude.{
  ◌≡◌, ◌≢◌, refl, String, true, false, Option, none, some, ok, raised, str_eq, strip, if◌then◌else◌,
}
use decision_maker_flow.Prelude.Int.{pos, scale, ◌≤ℤ◌}
use decision_maker_flow.Table.{listed}
use decision_maker_flow.Server.Config.{
  low_sweep_threshold, validate, validate_sweep_threshold, validate_llm_proxy_url_non_empty,
}
use decision_maker_flow.Server.Checkpointers.{backend_of, unsupported_kind}
use decision_maker_flow.Server.Settings.{
  Settings, invalid, not_a_kind, Parsers, read_core, kind_of, read_config, get_cfg,
}
use decision_maker_flow.Server.Settled.{settled}
use decision_maker_flow.Core.LlmClient.{reasoning_flag, build_llm_client}

-- The three numbers that occur here.
abbrev parsers : Parsers
parsers = record {
  parsed_int = λ s. if str_eq s "120" then some (pos 120) else some (pos 599);
  parsed_bool = λ s. some true;
}

abbrev environ : (threshold kind : Option String) → String → Option String
environ threshold kind name =
    if str_eq name "GATEWAY_LLM_PROXY_URL"
    then some "https://llm"
    else if str_eq name "BRAINSTORM_HMAC_SECRET"
    then some "secret"
    else if str_eq name "GATEWAY_LLM_API_KEY"
    then some "key"
    else if str_eq name "BRAINSTORM_SWEEP_THRESHOLD_SECS"
    then threshold
    else if str_eq name "BRAINSTORM_CHECKPOINTER"
    then kind
    else none

loading : Unit {0}
unfolding get_cfg read_config read_core kind_of validate validate_sweep_threshold
    validate_llm_proxy_url_non_empty scale
loading = tt

abbrev settings : Settings
settings = record {
  hmac_secret = "secret";
  gateway_llm_api_key = "key";
  checkpointer_kind = "postgres";
  sqlite_path = "/data/checkpoints.sqlite";
  checkpoint_dsn = "";
  session_ttl_sec = pos 1800;
  llm_model = "gpt-4o-mini";
  gradio_ui = false;
  log_level = "INFO";
  metrics_port = pos 9090;
  core = record {
    gateway_llm_proxy_url = "https://llm";
    turn_timeout_sec = pos 120;
    sweep_interval_sec = pos 60;
    sweep_threshold_secs = pos 600;
  };
}

settled_example :
    (get_cfg parsers (environ (some "599") none) (some settings) ≡ (ok settings, some settings))
    × (str_eq "https://llm" "" ≡ false)
    × (scale 5 (pos 120) ≤ℤ pos 600)
    × (backend_of "postgres" false ≢ raised unsupported_kind)
unfolding loading
settled_example =
    settled parsers (environ none (some "postgres")) (environ (some "599") none) false refl

-- A threshold below five timeouts, and a kind that is none, are refused.
below_test :
    get_cfg parsers (environ (some "599") none) none ≡ (raised (invalid low_sweep_threshold), none)
unfolding loading
below_test = refl

kind_test : get_cfg parsers (environ none (some "redis")) none ≡ (raised (not_a_kind "redis"), none)
unfolding loading
kind_test = refl

client_test : (build_llm_client settings).base_url ≡ "https://llm"
unfolding build_llm_client
client_test = refl

-- Only one of four words in the environment turns reasoning off, with spaces around it or without.
reasoning_test :
    (reasoning_flag (λ s. s) (λ name. some " off ") none ≡ false)
    × (reasoning_flag (λ s. s) (λ name. some "never") none ≡ true)
    × (reasoning_flag (λ s. s) (λ name. some "off") (some true) ≡ true)
unfolding reasoning_flag strip listed
reasoning_test = (refl, refl, refl)
