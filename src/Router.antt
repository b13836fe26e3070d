-- ===== src/Router.antt =====
-- The agent router (src/modules/ai-agents/router/agent-router.service.ts), on the rows of
-- Organization, Channel, AiAgent, AiAgentChannel and AiAgentRun that it reads (prisma/schema.prisma).
pub mod Handling
pub mod Selection
pub mod Tests
use Prim.Native.Nat.{◌+◌}
use mathlib.Core.Option
use chat_intelli_api.Base.{
  ℕ, String, Bool, true, false, not, ◌&&◌, ◌||◌, Option, none, some, List, [], ◌∷◌, ◌==◌, any, eqb,
  leb, ltb, is_empty, is_none, if◌then◌else◌,
}
use chat_intelli_api.Base.Table.{find_first, find_unique}
use chat_intelli_api.Conversation.{Conversation}
use chat_intelli_api.Hours.{Day, Clock, is_within_business_hours}

pub record WatchdogConfig : Type 0 where
  pub delay_bot_min : Option ℕ
  pub delay_pending_min : Option ℕ
  pub delay_human_idle_min : Option ℕ
  pub max_attempts : Option ℕ

pub record Organization : Type 0 where
  pub id : String
  pub ai_enabled : Bool
  pub ai_business_hours : Option (List Day)
  pub ai_monthly_token_cap : Option ℕ
  pub watchdog_enabled : Bool
  pub watchdog_config : Option WatchdogConfig
  pub watchdog_business_hours : Option (List Day)

pub record Channel : Type 0 where
  pub id : String
  pub ai_enabled : Option Bool

pub data Kind : Type 0 where
  orchestrator worker : Kind

pub record Agent : Type 0 where
  pub id : String
  pub name : String
  pub kind : Kind
  pub is_active : Bool
  pub is_deleted : Bool

pub data Mode : Type 0 where
  autonomous copilot disabled : Mode

-- A row of AiAgentChannel with its agent; the rows are in the order of `createdAt`.
pub record Link : Type 0 where
  pub channel_id : String
  pub mode : Mode
  pub agent : Agent

pub record AgentRun : Type 0 where
  pub organization_id : String
  pub started_at : ℕ
  pub input_tokens : ℕ
  pub output_tokens : ℕ

pub record Database : Type 0 where
  pub organizations : List Organization
  pub channels : List Channel
  pub agents : List Agent
  pub links : List Link
  pub runs : List AgentRun

pub record AgentSelection : Type 0 where
  pub agent_id : String
  pub agent_name : String

abbrev pub selection_of : Agent → AgentSelection
selection_of a = record { agent_id = a.id; agent_name = a.name }

abbrev is_autonomous : Mode → Bool
is_autonomous autonomous = true
is_autonomous _ = false

abbrev pub is_orchestrator : Kind → Bool
is_orchestrator orchestrator = true
is_orchestrator worker = false

-- A link of the channel that lets a live agent answer on its own.
abbrev pub serves : String → Link → Bool
serves channel l =
    l.channel_id == channel && is_autonomous l.mode && l.agent.is_active && not l.agent.is_deleted

abbrev pub link_or : Option Link → Option Link → Option Link
link_or (some l) other = some l
link_or none other = other

abbrev pub agent_of : Option Link → Option AgentSelection
agent_of none = none
agent_of (some l) = some (selection_of l.agent)

unfoldable pub resolve_channel_agent : String → List Link → Option AgentSelection
resolve_channel_agent channel links = agent_of (
    link_or (find_first (λ l. serves channel l && is_orchestrator l.agent.kind) links)
      (find_first (serves channel) links))

-- `if (conversation.activeAgentId)`
abbrev pub active_id : Conversation → Option String
active_id c = elim c.active_agent_id [
  | none ↦ none
  | some id ↦ elim (is_empty id) [ true ↦ none | false ↦ some id ]
]

abbrev pub agent_with : Option String → List Agent → Option Agent
agent_with none agents = none
agent_with (some id) agents = find_unique (λ a. a.id) id agents

unfoldable pub continue_or : Option Agent → String → List Link → Option AgentSelection
unfolding resolve_channel_agent
continue_or (some a) channel links = some (selection_of a)
continue_or none channel links = resolve_channel_agent channel links

unfoldable pub select_agent : Conversation → Database → Option AgentSelection
unfolding continue_or
select_agent c db = continue_or (agent_with (active_id c) db.agents) c.channel_id db.links

pub data Decision : Type 0 where
  handle : Decision
  refuse : String → Decision

-- `x === false` and `x === true` on a flag that may be absent.
abbrev pub forced_off : Option Bool → Bool
forced_off (some false) = true
forced_off _ = false

abbrev pub forced_on : Option Bool → Bool
forced_on (some true) = true
forced_on _ = false

-- The tokens of the runs since the start of the month.
unfoldable pub used_tokens : String → ℕ → List AgentRun → ℕ
used_tokens org since [] = 0
used_tokens org since (r ∷ rs) =
    (if r.organization_id == org && leb since r.started_at
      then r.input_tokens + r.output_tokens
      else 0)
    + used_tokens org since rs

unfoldable pub reaches_cap : Option ℕ → ℕ → Bool
reaches_cap none total = false
reaches_cap (some cap) total = not (eqb cap 0) && leb cap total

abbrev pub override_of : Option Channel → Option Bool
override_of none = none
override_of (some ch) = ch.ai_enabled

-- The start of the month is that of the server's clock.
module _ (clock : Clock) (start_of_month : ℕ) where
  unfoldable pub within_cap : Organization → Database → Decision
  unfolding used_tokens reaches_cap
  within_cap org db =
      if reaches_cap org.ai_monthly_token_cap (used_tokens org.id start_of_month db.runs)
      then refuse "monthly-token-cap-reached"
      else handle

  unfoldable pub with_agent : Conversation → Organization → Database → Decision
  unfolding within_cap
  with_agent c org db =
      if is_none (active_id c) && is_none (find_first (serves c.channel_id) db.links)
      then refuse "no-agent-for-channel"
      else within_cap org db

  unfoldable pub by_override :
      Bool → Option Bool → Conversation → Organization → Database → Decision
  unfolding with_agent
  by_override conv_on channel c org db =
      if not conv_on && forced_off channel
      then refuse "channel.aiEnabled=force-off"
      else if conv_on || forced_on channel
      then with_agent c org db
      else if not org.ai_enabled
      then refuse "org.aiEnabled=false"
      else if is_within_business_hours clock org.ai_business_hours
      then with_agent c org db
      else refuse "outside-business-hours"

  unfoldable pub in_organization : Conversation → Option Organization → Database → Decision
  unfolding by_override
  in_organization c none db = refuse "org-not-found"
  in_organization c (some org) db =
      by_override (forced_on c.ai_enabled)
        (override_of (find_unique (λ ch. ch.id) c.channel_id db.channels)) c org db

  unfoldable pub should_handle : Conversation → Database → Decision
  unfolding in_organization
  should_handle c db =
      if forced_off c.ai_enabled
      then refuse "conversation.aiEnabled=force-off"
      else in_organization c (find_unique (λ o. o.id) c.organization_id db.organizations) db
