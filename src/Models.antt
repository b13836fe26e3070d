-- ===== src/Models.antt =====
-- The choice of the model for a call of an AI agent (src/modules/ai-agents/runner/
-- model-router.service.ts, with src/modules/ai-agents/llm/llm.constants.ts).
pub mod Supported
mod Tests
use chat_intelli_api.Base.{
  String, Bool, true, false, ◌||◌, Option, none, some, ◌==◌, or_else, if◌then◌else◌,
}
use chat_intelli_api.Base.Texts.{is_prefix, trim}
use chat_intelli_api.Json.{Json, Fields, bool, str, obj, arr, get}

-- LlmPhase
pub data Phase : Type 0 where
  tool synthesis : Phase

-- AgentKind
pub data AgentKind : Type 0 where
  orchestrator worker : AgentKind

-- LlmProviderName
pub data Provider : Type 0 where
  sakana openai : Provider

pub record Defaults : Type 0 where
  pub simple : String
  pub conversation : String

-- `providerOf`
pub provider_of : String → Provider
unfolding is_prefix trim
provider_of model = if is_prefix "openai/" (trim model) then openai else sakana

-- `defaultModelsFor`
abbrev pub default_models_for : Provider → Defaults
default_models_for openai = record { simple = "openai/gpt-4o-mini"; conversation = "openai/gpt-4o" }
default_models_for sakana = record {
  simple = "sakana/fugu";
  conversation = "sakana/fugu-ultra-20260615";
}

-- RoutingOverride
pub record RoutingOverride : Type 0 where
  pub primary : Option String
  pub escalation : Option String
  pub always_primary : Bool
  pub escalate_synthesis : Option Bool

pub record SelectModelInput : Type 0 where
  pub agent_kind : AgentKind
  pub model_id : String
  pub model_params : Json
  pub phase : Phase

abbrev text_of : Json → Option String
text_of (str s) = some s
text_of _ = none

abbrev truth_of : Json → Option Bool
truth_of (bool b) = some b
truth_of _ = none

abbrev is_true : Json → Bool
is_true (bool true) = true
is_true _ = false

abbrev pub no_override : RoutingOverride
no_override = record {
  primary = none;
  escalation = none;
  always_primary = false;
  escalate_synthesis = none;
}

-- The routing that is found; an array is an object without the fields.
abbrev override_of : Json → RoutingOverride
override_of (obj r) = record {
  primary = text_of (get "primary" r);
  escalation = text_of (get "escalation" r);
  always_primary = is_true (get "alwaysPrimary" r);
  escalate_synthesis = truth_of (get "escalateSynthesis" r);
}
override_of _ = no_override

-- `parseRouting`
abbrev pub parse_routing : Json → RoutingOverride
parse_routing (obj params) = override_of (get "routing" params)
parse_routing _ = no_override

-- The ids that `sanitizeModel` lets through.
abbrev pub is_supported : String → Bool
is_supported m =
    is_prefix "sakana/" m || (m == "fugu" || (is_prefix "fugu-" m || is_prefix "openai/" m))

-- `sanitizeModel`
abbrev pub sanitize_model : Option String → String → String
sanitize_model model fallback =
    let m = trim (or_else model "") in if is_supported m then m else fallback

abbrev is_worker : AgentKind → Bool
is_worker worker = true
is_worker orchestrator = false

abbrev choose : Phase → AgentKind → RoutingOverride → String → String → String
choose tool kind routing primary escalation = primary
choose synthesis kind routing primary escalation =
    if routing.always_primary
    then primary
    else if or_else routing.escalate_synthesis (is_worker kind)
    then escalation
    else primary

-- `selectModel`
unfoldable pub select_model : SelectModelInput → String
unfolding provider_of
select_model input =
    let routing = parse_routing input.model_params in
    let defaults = default_models_for (provider_of input.model_id) in
    choose input.phase input.agent_kind routing (sanitize_model routing.primary defaults.simple)
      (sanitize_model (some (or_else routing.escalation input.model_id)) defaults.conversation)
