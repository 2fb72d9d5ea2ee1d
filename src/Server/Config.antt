-- ===== src/Server/Config.antt =====
-- server/config.py: the fields that the server's logic reads, and the validators.
use decision_maker_flow.Prelude.{String, Outcome, ok, raised, ◌>>=◌, str_eq, if◌then◌else◌}
use decision_maker_flow.Prelude.Int.{ℤ, scale, ltb_ℤ}

pub record Config : Type 0 where
  pub gateway_llm_proxy_url : String
  pub turn_timeout_sec : ℤ
  pub sweep_interval_sec : ℤ
  pub sweep_threshold_secs : ℤ

pub data ValidationError : Type 0 where
  empty_proxy_url : ValidationError
  low_sweep_threshold : ValidationError

unfoldable pub validate_llm_proxy_url_non_empty : String → Outcome ValidationError String
validate_llm_proxy_url_non_empty v = if str_eq v "" then raised empty_proxy_url else ok v

unfoldable pub validate_sweep_threshold : Config → Outcome ValidationError Config
validate_sweep_threshold c =
    if ltb_ℤ c.sweep_threshold_secs (scale 5 c.turn_timeout_sec)
    then raised low_sweep_threshold
    else ok c

-- The constructor: the field's validator, then the model's.
unfoldable pub validate : Config → Outcome ValidationError Config
unfolding validate_llm_proxy_url_non_empty validate_sweep_threshold
validate c =
    validate_llm_proxy_url_non_empty c.gateway_llm_proxy_url >>= λ v. validate_sweep_threshold c
