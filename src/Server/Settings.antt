-- ===== src/Server/Settings.antt =====
-- server/config.py: all settings, read from the environment as pydantic reads them by their aliases,
-- and the cache of get_cfg. `environ` is the environment with the .env file behind it.
use decision_maker_flow.Prelude.{
  ℕ, String, Bool, false, ◌||◌, Option, none, some, Outcome, ok, raised, ◌>>=◌, str_eq,
  if◌then◌else◌,
}
use decision_maker_flow.Prelude.Int.{ℤ, pos}
use decision_maker_flow.Server.Config.{Config, ValidationError, validate}

-- Config; the fields that the validators read stand in `core`.
pub record Settings : Type 0 where
  pub hmac_secret : String
  pub gateway_llm_api_key : String
  pub checkpointer_kind : String
  pub sqlite_path : String
  pub checkpoint_dsn : String
  pub session_ttl_sec : ℤ
  pub llm_model : String
  pub gradio_ui : Bool
  pub log_level : String
  pub metrics_port : ℤ
  pub core : Config

pub data SettingsError : Type 0 where
  missing : (alias : String) → SettingsError
  not_an_int : (alias : String) → SettingsError
  not_a_bool : (alias : String) → SettingsError
  not_a_kind : (value : String) → SettingsError
  invalid : ValidationError → SettingsError

-- How pydantic reads an int and a bool from a text.
pub record Parsers : Type 0 where
  pub parsed_int : String → Option ℤ
  pub parsed_bool : String → Option Bool

abbrev pub required : (alias : String) → Option String → Outcome SettingsError String
required alias none = raised (missing alias)
required alias (some s) = ok s

abbrev pub or_default : String → Option String → String
or_default d none = d
or_default d (some s) = s

abbrev pub checked {ℓ} : {A : Type ℓ} → SettingsError → Option A → Outcome SettingsError A
checked e none = raised e
checked e (some a) = ok a

abbrev pub parsed {ℓ} :
    {A : Type ℓ}
    → (parse : String → Option A) → SettingsError
    → (default : A) → Option String
    → Outcome SettingsError A
parsed parse e default none = ok default
parsed parse e default (some s) = checked e (parse s)

-- Literal["sqlite", "postgres"]
unfoldable pub kind_of : String → Outcome SettingsError String
kind_of s = if str_eq s "sqlite" || str_eq s "postgres" then ok s else raised (not_a_kind s)

abbrev pub lifted : Outcome ValidationError Config → Outcome SettingsError Config
lifted (ok c) = ok c
lifted (raised e) = raised (invalid e)

module _ (parsers : Parsers) where
  abbrev pub int_at :
      (environ : String → Option String) (alias : String) (default : ℕ) → Outcome SettingsError ℤ
  int_at environ alias default =
      parsed parsers.parsed_int (not_an_int alias) (pos default) (environ alias)

  -- The fields that the validators read, and the validators.
  unfoldable pub read_core : (environ : String → Option String) → Outcome SettingsError Config
  unfolding validate
  read_core environ = do
    url ← required "GATEWAY_LLM_PROXY_URL" (environ "GATEWAY_LLM_PROXY_URL")
    turn_timeout ← int_at environ "BRAINSTORM_TURN_TIMEOUT_SEC" 120
    sweep_interval ← int_at environ "BRAINSTORM_SWEEP_INTERVAL_SEC" 60
    sweep_threshold ← int_at environ "BRAINSTORM_SWEEP_THRESHOLD_SECS" 600
    lifted (
        validate (record {
          gateway_llm_proxy_url = url;
          turn_timeout_sec = turn_timeout;
          sweep_interval_sec = sweep_interval;
          sweep_threshold_secs = sweep_threshold;
        }))

  -- Config(). pydantic collects the errors of the fields; one of them is kept here.
  unfoldable pub read_config : (environ : String → Option String) → Outcome SettingsError Settings
  unfolding kind_of read_core
  read_config environ = do
    hmac_secret ← required "BRAINSTORM_HMAC_SECRET" (environ "BRAINSTORM_HMAC_SECRET")
    api_key ← required "GATEWAY_LLM_API_KEY" (environ "GATEWAY_LLM_API_KEY")
    session_ttl ← int_at environ "BRAINSTORM_SESSION_TTL_SEC" 1800
    gradio_ui ← parsed parsers.parsed_bool (not_a_bool "GRADIO_UI") false (environ "GRADIO_UI")
    metrics_port ← int_at environ "METRICS_PORT" 9090
    kind ← kind_of (or_default "sqlite" (environ "BRAINSTORM_CHECKPOINTER"))
    core ← read_core environ
    ok (record {
      hmac_secret = hmac_secret;
      gateway_llm_api_key = api_key;
      checkpointer_kind = kind;
      sqlite_path = or_default "/data/checkpoints.sqlite" (environ "BRAINSTORM_SQLITE_PATH");
      checkpoint_dsn = or_default "" (environ "BRAINSTORM_CHECKPOINT_DSN");
      session_ttl_sec = session_ttl;
      llm_model = or_default "gpt-4o-mini" (environ "BRAINSTORM_LLM_MODEL");
      gradio_ui = gradio_ui;
      log_level = or_default "INFO" (environ "LOG_LEVEL");
      metrics_port = metrics_port;
      core = core;
    })

  abbrev remembered :
      Outcome SettingsError Settings → Outcome SettingsError Settings × Option Settings
  remembered (ok s) = (ok s, some s)
  remembered (raised e) = (raised e, none)

  -- `get_cfg` under `lru_cache(maxsize=1)`: an exception is not cached.
  unfoldable pub get_cfg :
      (environ : String → Option String)
      → Option Settings
      → Outcome SettingsError Settings × Option Settings
  unfolding read_config
  get_cfg environ (some s) = (ok s, some s)
  get_cfg environ none = remembered (read_config environ)
