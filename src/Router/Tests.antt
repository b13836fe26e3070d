-- ===== src/Router/Tests.antt =====
-- A conversation of an organisation with one agent.
use chat_intelli_api.Base.{true, false, none, some, [], ◌∷◌, ◌≡◌, ◌↔◌, refl, is_none}
use chat_intelli_api.Base.Table.{find_first, find_unique}
use chat_intelli_api.Conversation.{Conversation, bot}
use chat_intelli_api.Hours.{Clock, is_within_business_hours}
use chat_intelli_api.Router.{
  Organization, Agent, orchestrator, autonomous, Database, handle, should_handle, select_agent,
}
use chat_intelli_api.Router.Handling.{allows, should_handle_iff}
use chat_intelli_api.Router.Selection.{should_handle-selects}

abbrev pub monday : Clock
monday = record { weekday = "monday"; now_minutes = 600 }

abbrev pub conversation : Conversation
conversation = record {
  id = "c";
  organization_id = "o";
  channel_id = "ch";
  contact_id = "k";
  assigned_to_id = none;
  status = bot;
  last_message_at = some 0;
  first_response_at = none;
  closed_at = none;
  reopened_at = none;
  reopened_count = 0;
  deleted_at = none;
  ai_enabled = none;
  active_agent_id = none;
  stuck_attempts = 0;
  last_watchdog_check_at = none;
  watchdog_job_id = none;
  is_stuck = false;
  department_id = none;
}

abbrev pub organization : Organization
organization = record {
  id = "o";
  ai_enabled = true;
  ai_business_hours = none;
  ai_monthly_token_cap = none;
  watchdog_enabled = true;
  watchdog_config = none;
  watchdog_business_hours = none;
}

abbrev agent : Agent
agent = record { id = "a"; name = "Ana"; kind = orchestrator; is_active = true; is_deleted = false }

abbrev pub routing : Database
routing = record {
  organizations = organization ∷ [];
  channels = record { id = "ch"; ai_enabled = none } ∷ [];
  agents = agent ∷ [];
  links = record { channel_id = "ch"; mode = autonomous; agent = agent } ∷ [];
  runs = [];
}

handled : should_handle monday 0 conversation routing ≡ handle
unfolding should_handle find_unique find_first is_within_business_hours
handled = refl

should_handle_iff_example : (should_handle monday 0 conversation routing ≡ handle) ↔ (
    (o : Organization) × (find_unique (λ o. o.id) "o" (organization ∷ []) ≡ some o)
    × (allows monday 0 conversation routing o ≡ true))
should_handle_iff_example = should_handle_iff monday 0 conversation routing

should_handle-selects_example : is_none (select_agent conversation routing) ≡ false
should_handle-selects_example = should_handle-selects monday 0 conversation routing refl handled
