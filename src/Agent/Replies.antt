-- ===== src/Agent/Replies.antt =====
-- How a node of features/decision_maker/nodes.py reads a reply in the form that the prompts ask for.
use decision_maker_flow.Prelude.{◌≡◌, refl, ap, ◌∙◌, String, Bool, false, ok, strip}
use decision_maker_flow.Json.{obj, Fields}
use decision_maker_flow.Core.JsonUtils.{value}
use decision_maker_flow.Core.Texts.{Lacks, strip-strip, strip-Lacks}
use decision_maker_flow.Core.Blocks.{Tag}
use decision_maker_flow.Core.Sanitizing.{wrapped, sanitize_wrapped}
use decision_maker_flow.Core.Parsing.{parse_plain}
use decision_maker_flow.Agent.Env.{Prompt, Env, lift_parse}
use decision_maker_flow.Agent.Nodes.{resolve_llm, invoke_llm_async, invoke_json}

-- A reply of a reasoning block and a payload in its wrapper is read as the dict that the decoder
-- finds in the stripped payload, where neither the thought nor the payload has a "<".
pub reply_read :
    (env : Env) (reasoning : Bool) (prompt : Prompt) (tag : Tag) (thought payload : String)
    {fs : Fields}
    → env.is_word 62 ≡ false
    → resolve_llm env reasoning prompt ≡ ok (wrapped tag thought payload)
    → Lacks 60 thought
    → Lacks 60 payload
    → env.decoder.loads (strip payload) ≡ value (obj fs)
    → invoke_json env reasoning prompt ≡ ok fs
unfolding invoke_json invoke_llm_async lift_parse
reply_read env reasoning prompt tag thought payload w r t p h =
    let twice = ap env.decoder.loads (strip-strip payload) ∙ h in
    rw
      (
        r,
        sanitize_wrapped env.is_word tag thought payload w t p,
        parse_plain env.is_word env.decoder (strip payload) (strip-Lacks 60 payload p) twice,
      )
      refl
