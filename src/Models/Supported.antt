-- ===== src/Models/Supported.antt =====
-- The model that is chosen is one that the providers have, and a cheap one where it may be.
use chat_intelli_api.Base.{
  String, true, ◌⊎◌, ◌≡◌, refl, ◌∙◌, Option, none, some, arith, inl, inr, or_else, Bool-cases,
}
use chat_intelli_api.Base.Texts.{is_prefix, trim}
use chat_intelli_api.Models.{
  Phase, tool, synthesis, AgentKind, orchestrator, worker, Provider, sakana, openai,
  default_models_for, provider_of, RoutingOverride, no_override, SelectModelInput, parse_routing,
  is_supported, sanitize_model, choose, is_worker, select_model,
}

sanitize_model-is_supported :
    (model : Option String) (fallback : String)
    → is_supported fallback ≡ true
    → is_supported (sanitize_model model fallback) ≡ true
sanitize_model-is_supported model fallback h =
    elim (Bool-cases (is_supported (trim (or_else model "")))) [
      | inl known ↦ rw (known, known) refl
      | inr other ↦ rw other h
    ]

simple-is_supported : (p : Provider) → is_supported (default_models_for p).simple ≡ true
unfolding is_prefix
simple-is_supported sakana = refl
simple-is_supported openai = refl

conversation-is_supported : (p : Provider) → is_supported (default_models_for p).conversation ≡ true
unfolding is_prefix
conversation-is_supported sakana = refl
conversation-is_supported openai = refl

choose-is_supported :
    (phase : Phase) (kind : AgentKind) (routing : RoutingOverride) (primary escalation : String)
    → is_supported primary ≡ true
    → is_supported escalation ≡ true
    → is_supported (choose phase kind routing primary escalation) ≡ true
choose-is_supported tool kind routing primary escalation p e = p
choose-is_supported synthesis kind routing primary escalation p e =
    elim (Bool-cases routing.always_primary) [
      | inl always ↦ rw always p
      | inr free ↦ elim (Bool-cases (or_else routing.escalate_synthesis (is_worker kind))) [
        | inl up ↦ rw (free, up) e
        | inr down ↦ rw (free, down) p
      ]
    ]

-- Whatever the agent's model, its parameters and the phase: the chosen model is a supported one.
pub select_model-is_supported :
    (input : SelectModelInput) → is_supported (select_model input) ≡ true
unfolding select_model
select_model-is_supported input =
    let routing = parse_routing input.model_params in
    let p = provider_of input.model_id in
    choose-is_supported input.phase input.agent_kind routing _ _
      (sanitize_model-is_supported routing.primary (default_models_for p).simple
        (simple-is_supported p))
      (sanitize_model-is_supported (some (or_else routing.escalation input.model_id))
        (default_models_for p).conversation (conversation-is_supported p))

sanitize_model-none : (fallback : String) → sanitize_model none fallback ≡ fallback
unfolding trim is_prefix
sanitize_model-none fallback = refl

-- A tool iteration, and every call of an orchestrator, stays with the first model.
choose-cheap :
    (phase : Phase) (kind : AgentKind) (primary escalation : String)
    → (phase ≡ tool) ⊎ (kind ≡ orchestrator)
    → choose phase kind no_override primary escalation ≡ primary
choose-cheap tool kind primary escalation h = refl
choose-cheap synthesis orchestrator primary escalation h = refl
choose-cheap synthesis worker primary escalation h = absurd (ground arith)

-- Without an override among the agent's parameters, every tool iteration and every call of an
-- orchestrator takes the cheap model of the provider of the agent's own model.
pub select_model-is_cheap :
    (input : SelectModelInput)
    → parse_routing input.model_params ≡ no_override
    → (input.phase ≡ tool) ⊎ (input.agent_kind ≡ orchestrator)
    → select_model input ≡ (default_models_for (provider_of input.model_id)).simple
unfolding select_model
select_model-is_cheap input plain cheap =
    let simple = (default_models_for (provider_of input.model_id)).simple in
    rw plain (
      choose-cheap input.phase input.agent_kind (sanitize_model none simple) _ cheap
      ∙ sanitize_model-none simple)
