-- ===== src/Conversation.antt =====
-- The conversation and the tables that its state machine writes (models Conversation,
-- ConversationAuditLog and ConversationRating of prisma/schema.prisma).
pub mod Fsm
use chat_intelli_api.Base.{ℕ, String, Bool, true, false, ◌≡◌, refl, Option, none, some, List}
use chat_intelli_api.Json.{Json}
use chat_intelli_api.Outbox.{Event}

pub data Status : Type 0 where
  pending bot open_status waiting closed : Status

-- `a === b` on statuses.
abbrev pub same_status : Status → Status → Bool
same_status pending pending = true
same_status bot bot = true
same_status open_status open_status = true
same_status waiting waiting = true
same_status closed closed = true
same_status _ _ = false

abbrev pub status_name : Status → String
status_name pending = "PENDING"
status_name bot = "BOT"
status_name open_status = "OPEN"
status_name waiting = "WAITING"
status_name closed = "CLOSED"

pub record Conversation : Type 0 where
  pub id : String
  pub organization_id : String
  pub channel_id : String
  pub contact_id : String
  pub assigned_to_id : Option String
  pub status : Status
  pub last_message_at : Option ℕ
  pub first_response_at : Option ℕ
  pub closed_at : Option ℕ
  pub reopened_at : Option ℕ
  pub reopened_count : ℕ
  pub deleted_at : Option ℕ
  pub ai_enabled : Option Bool
  pub active_agent_id : Option String
  pub stuck_attempts : ℕ
  pub last_watchdog_check_at : Option ℕ
  pub watchdog_job_id : Option String
  pub is_stuck : Bool
  pub department_id : Option String

abbrev pub id_of : Conversation → String
id_of c = c.id

pub data AuditAction : Type 0 where
  status_change assignment : AuditAction

pub record AuditLog : Type 0 where
  pub conversation_id : String
  pub actor_id : Option String
  pub action : AuditAction
  pub from_value : Option String
  pub to_value : Option String
  pub metadata : Json

pub record Rating : Type 0 where
  pub conversation_id : String
  pub organization_id : String
  pub agent_id : Option String
  pub score : ℕ
  pub comment : Option String
  pub token : String
  pub responded_at : Option ℕ

pub record Database : Type 0 where
  pub conversations : List Conversation
  pub audit_logs : List AuditLog
  pub outbox : List Event
  pub ratings : List Rating
