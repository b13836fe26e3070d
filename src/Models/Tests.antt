-- ===== src/Models/Tests.antt =====
-- A worker and an orchestrator of OpenAI models.
use chat_intelli_api.Base.{true, ◌≡◌, refl}
use chat_intelli_api.Json.{obj, end, get}
use chat_intelli_api.Models.{
  tool, worker, SelectModelInput, parse_routing, no_override, is_supported, select_model,
}
use chat_intelli_api.Models.Supported.{select_model-is_supported}

abbrev input : SelectModelInput
input = record {
  agent_kind = worker;
  model_id = "openai/gpt-4o";
  model_params = obj end;
  phase = tool;
}

plain : parse_routing (obj end) ≡ no_override
unfolding get
plain = refl

select_model-is_supported_example : is_supported (select_model input) ≡ true
select_model-is_supported_example = select_model-is_supported input
