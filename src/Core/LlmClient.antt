-- ===== src/Core/LlmClient.antt =====
-- src/core/llm_client.py: what the two factories pass to ChatOpenAI, which is langchain's. A
-- temperature is given in tenths.
use decision_maker_flow.Prelude.{
  ℕ, String, Bool, false, not, Option, none, some, [], ◌∷◌, List, strip, Outcome, ok, raised, ◌>>=◌,
}
use decision_maker_flow.Table.{listed}
use decision_maker_flow.Server.Settings.{Settings}

-- The keyword arguments; `extra_body` is {"reasoning": {"enabled": False}} or left out.
pub record ChatOpenAi : Type 0 where
  pub model : String
  pub base_url : String
  pub api_key : String
  pub temperature : ℕ
  pub http_referer : String
  pub x_title : String
  pub reasoning_off : Bool

-- KeyError, with the key.
pub data KeyError : Type 0 where
  key_error : String → KeyError

-- os.environ[name]
abbrev pub required : (name : String) → Option String → Outcome KeyError String
required name none = raised (key_error name)
required name (some s) = ok s

abbrev or_default : String → Option String → String
or_default d none = d
or_default d (some s) = s

abbrev pub switched_off : List String
switched_off = "0" ∷ "false" ∷ "no" ∷ "off" ∷ []

-- Whether the model may reason: the argument, or else the environment. `lower` is str.lower.
unfoldable pub reasoning_flag :
    (lower : String → String) (environ : String → Option String) → Option Bool → Bool
unfolding strip listed
reasoning_flag lower environ (some enabled) = enabled
reasoning_flag lower environ none = not (
    listed (lower (strip (or_default "true" (environ "OPENROUTER_REASONING_ENABLED"))))
      switched_off)

unfoldable pub build_llm :
    (lower : String → String) (environ : String → Option String) (temperature : ℕ)
    (reasoning_enabled : Option Bool)
    → Outcome KeyError ChatOpenAi
unfolding reasoning_flag
build_llm lower environ temperature reasoning_enabled = do
  model ← required "OPENROUTER_MODEL" (environ "OPENROUTER_MODEL")
  api_key ← required "OPENROUTER_API_KEY" (environ "OPENROUTER_API_KEY")
  ok (record {
    model = model;
    base_url = "https://openrouter.ai/api/v1";
    api_key = api_key;
    temperature = temperature;
    http_referer = "https://github.com/crablink";
    x_title = "decision_maker_scenario_1";
    reasoning_off = not (reasoning_flag lower environ reasoning_enabled);
  })

-- The factory of the server, which reads the settings alone.
unfoldable pub build_llm_client : Settings → ChatOpenAi
build_llm_client cfg = record {
  model = cfg.llm_model;
  base_url = cfg.core.gateway_llm_proxy_url;
  api_key = cfg.gateway_llm_api_key;
  temperature = 2;
  http_referer = "https://github.com/crablink";
  x_title = "brainstorm_mcp_server";
  reasoning_off = false;
}
