-- ===== src/Events.antt =====
-- The events of the automation engine: their triggers and payloads
-- (src/modules/automations/automations.types.ts).
use chat_intelli_api.Base.{String, Bool, Option}

pub data Trigger : Type 0 where
  tag_added tag_removed message_received conversation_status_changed conversation_assigned : Trigger

pub data TagTarget : Type 0 where
  conversation contact : TagTarget

-- The fields that a payload has beside those of `BaseEventPayload`, by trigger.
pub data Details : Type 0 where
  tagged : String → TagTarget → Details
  untagged : String → TagTarget → Details
  -- messageId, body, type, hasAttachment; `isFromCustomer` is always true
  received : String → Option String → String → Bool → Details
  -- fromStatus, toStatus
  status_changed : String → String → Details
  -- fromAssigneeId, toAssigneeId
  assigned : Option String → String → Details

-- `BaseEventPayload` with the details of its trigger. The empty text stands for a missing
-- `organizationId` or `contactId`, which the code tests by `!`.
pub record Payload : Type 0 where
  pub organization_id : String
  pub contact_id : String
  pub conversation_id : Option String
  pub channel_id : Option String
  pub actor_id : Option String
  pub details : Details

-- The trigger that a payload type belongs to (`TriggerToPayload`).
abbrev pub trigger_of : Details → Trigger
trigger_of (tagged _ _) = Trigger.tag_added
trigger_of (untagged _ _) = Trigger.tag_removed
trigger_of (received _ _ _ _) = Trigger.message_received
trigger_of (status_changed _ _) = Trigger.conversation_status_changed
trigger_of (assigned _ _) = Trigger.conversation_assigned

-- The name of a trigger in a template text.
abbrev pub trigger_name : Trigger → String
trigger_name Trigger.tag_added = "TAG_ADDED"
trigger_name Trigger.tag_removed = "TAG_REMOVED"
trigger_name Trigger.message_received = "MESSAGE_RECEIVED"
trigger_name Trigger.conversation_status_changed = "CONVERSATION_STATUS_CHANGED"
trigger_name Trigger.conversation_assigned = "CONVERSATION_ASSIGNED"

abbrev pub target_name : TagTarget → String
target_name conversation = "conversation"
target_name contact = "contact"
