-- ===== src/Chatbot/Worker.antt =====
-- The worker of the chatbot (src/modules/chatbot/engine/chatbot.processor.ts): it stores and queues
-- what the engine answers, and hands the conversation over. The ids of the messages that it creates
-- and the errors of the queue are inputs.
pub mod Sends
mod Tests
use Prim.Native.String
use Prim.Native.Nat.{suc, ◌+◌}
use mathlib.Core.Option
use chat_intelli_api.Base.{
  ℕ, String, Bool, true, false, Option, none, some, List, [], ◌∷◌, ◌++◌, length, is_none, is_empty,
  if◌then◌else◌,
}
use chat_intelli_api.Base.Exec.{Failure, failed, Result, ok, err}
use chat_intelli_api.Base.Table.{find_unique, update_key}
use chat_intelli_api.Conversation.{
  Conversation, AuditLog, status_change, pending, bot, id_of, status_name,
}
use chat_intelli_api.Json.{obj, field, str, end}
use chat_intelli_api.Chatbot.{Flow, Message}
use chat_intelli_api.Chatbot.Session.{Entry}
use chat_intelli_api.Chatbot.Engine.{EngineResult, Outcome, Call, process_message}

-- A message that is stored, outbound and queued.
pub record Saved : Type 0 where
  pub id : String
  pub conversation_id : String
  pub content : Message

-- A job of the queue `outbound-messages`.
pub record Outbound : Type 0 where
  pub message_id : String
  pub channel_id : String
  pub contact_external_id : String
  pub content : Message

pub record Database : Type 0 where
  pub conversations : List Conversation
  pub audit_logs : List AuditLog
  pub messages : List Saved
  pub outbound : List Outbound
  pub entries : List Entry

-- `ChatbotJobData`, with the call of the engine that it makes.
pub record Job : Type 0 where
  pub call : Call
  pub channel_id : String
  pub contact_external_id : String

-- The id of the n-th message of the table, and whether queueing it fails.
pub record Env : Type 0 where
  pub fresh : ℕ → String
  pub add_fails : ℕ → Option Failure

module _ (env : Env) (job : Job) where
  abbrev pub saved_at : ℕ → Message → Saved
  saved_at n m = record {
    id = env.fresh n;
    conversation_id = job.call.conversation_id;
    content = m;
  }

  abbrev pub outbound_at : ℕ → Message → Outbound
  outbound_at n m = record {
    message_id = env.fresh n;
    channel_id = job.channel_id;
    contact_external_id = job.contact_external_id;
    content = m;
  }

  abbrev pub store_one : Message → Database → Database
  store_one m db = record db { messages = db.messages ++ saved_at (length db.messages) m ∷ [] }

  abbrev pub queue_one : ℕ → Message → Database → Database
  queue_one n m db = record db { outbound = db.outbound ++ outbound_at n m ∷ [] }

  abbrev pub on_add :
      Option Failure → Database → Result {0} Unit × Database → Result {0} Unit × Database
  on_add (some e) stored rest = (err e, stored)
  on_add none stored rest = rest

  -- The messages are stored and queued one by one.
  unfoldable pub send_each : List Message → Database → Result {0} Unit × Database
  send_each [] db = (ok tt, db)
  send_each (m ∷ ms) db =
      let n = length db.messages in
      on_add (env.add_fails n) (store_one m db) (send_each ms (queue_one n m (store_one m db)))

  -- `transferDepartmentId || undefined`: no department leaves the column as it is.
  abbrev pub department_or : Option String → Option String → Option String
  department_or none old = old
  department_or (some d) old = if is_empty d then old else some d

  abbrev pub hand_over : Option String → Conversation → Conversation
  hand_over department c = record c {
    status = pending;
    department_id = department_or department c.department_id;
  }

  abbrev pub transfer_log : AuditLog
  transfer_log = record {
    conversation_id = job.call.conversation_id;
    actor_id = none;
    action = status_change;
    from_value = some (status_name bot);
    to_value = some (status_name pending);
    metadata = obj (field "trigger" (str "chatbot_transfer") end);
  }

  unfoldable pub transfer_found :
      Option String → Option Conversation → Database → Result {0} Unit × Database
  transfer_found department none db = (err (failed "Record to update not found"), db)
  transfer_found department (some c) db = (
    ok tt,
    record db {
      conversations =
          update_key id_of job.call.conversation_id (hand_over department) db.conversations;
      audit_logs = db.audit_logs ++ transfer_log ∷ [];
    },
  )

  abbrev pub returning : EngineResult → Result {0} Unit × Database → Result EngineResult × Database
  returning r (ok _, db) = (ok r, db)
  returning r (err e, db) = (err e, db)

  abbrev pub transfer : EngineResult → Database → Result {0} Unit × Database
  transfer r db =
      if r.transfer_to_human
      then transfer_found r.transfer_department_id
          (find_unique id_of job.call.conversation_id db.conversations) db
      else (ok tt, db)

  unfoldable pub after_send :
      EngineResult → Result {0} Unit × Database → Result EngineResult × Database
  unfolding transfer_found
  after_send r (err e, db) = (err e, db)
  after_send r (ok _, db) = returning r (transfer r db)

  unfoldable pub answered : Outcome → Database → Result EngineResult × Database
  unfolding after_send send_each
  answered (err e, entries) db = (err e, record db { entries = entries })
  answered (ok r, entries) db =
      after_send r (send_each r.messages (record db { entries = entries }))

  abbrev pub answered_if : Option Outcome → Database → Option (Result EngineResult × Database)
  answered_if none db = none
  answered_if (some out) db = some (answered out db)

  -- `process`; it returns what it counts, the messages and whether they hand over.
  unfoldable pub process_chat : List Flow → Database → Option (Result EngineResult × Database)
  unfolding answered process_message
  process_chat flows db = answered_if (process_message job.call job.channel_id flows db.entries) db
