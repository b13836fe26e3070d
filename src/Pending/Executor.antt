-- ===== src/Pending/Executor.antt =====
-- The worker that runs a tool call which a person has approved
-- (src/modules/ai-agents/confirmations/pending-action-executor.processor.ts).
pub mod Life
pub mod Sound
pub mod Once
mod Tests
use chat_intelli_api.Base.{
  ℕ, ◌+◌, String, Bool, true, false, not, ◌&&◌, ◌||◌, Option, none, some, List, [], ◌∷◌, ◌==◌, ltb,
  count_if, is_none, is_empty, or_else, if◌then◌else◌,
}
use chat_intelli_api.Base.Table.{find_first, find_unique, update_key, update_many}
use chat_intelli_api.Base.Exec.{Failure, message, failed, Result, ok, err, Exec}
use chat_intelli_api.Json.{Json, null, bool, num, str, obj, undefined, end, field, get, concat}
use chat_intelli_api.Pending.{
  Status, pending, approved, expired, executed, status_name, same_status, Action, Store, action_id,
  is_expired, mark_expired,
}

-- The rows that the worker reads: skills, tools, runs and conversations.
pub record Skill : Type 0 where
  pub name : String
  pub is_active : Bool
  pub is_deleted : Bool
  pub tool_id : Option String

pub record Run : Type 0 where
  pub id : String
  pub organization_id : String
  pub trigger_message_id : Option String

pub record Conversation : Type 0 where
  pub id : String
  pub contact_id : String
  pub channel_id : String
  pub ai_enabled : Bool

pub record Database : Type 0 where
  pub store : Store
  pub skills : List Skill
  pub tools : List String
  pub runs : List Run
  pub conversations : List Conversation

-- ToolContext
pub record ToolContext : Type 0 where
  pub organization_id : String
  pub conversation_id : String
  pub contact_id : String
  pub channel_id : String
  pub agent_id : String
  pub run_id : String
  pub trigger_message_id : String

-- `HttpToolExecutorService.execute` with the gate for confirmations open: its output, or its throw.
abbrev pub HttpTool : Type 0
HttpTool = Skill → String → Json → ToolContext → Result Json

abbrev conversation_key : Conversation → String
conversation_key c = c.id

abbrev run_key : Run → String
run_key r = r.id

abbrev pub or_null : Json → Json
or_null undefined = null
or_null j = j

abbrev reason_of : Json → Json
reason_of (obj args) = or_null (get "reason" args)
reason_of _ = null

-- `executeTransferToHuman`: the update of a conversation that is gone throws.
abbrev pub disable_ai : Conversation → Conversation
disable_ai c = record c { ai_enabled = false }

abbrev transfer_found : String → Action → Option Conversation → Exec Database Json
transfer_found at a none db = (err (failed "Record to update not found"), db)
transfer_found at a (some _) db = (
  ok (
      obj (
        field "ok" (bool true)
          (field "transferredAt" (str at) (field "reason" (reason_of a.args) end)))),
  record db {
    conversations = update_key conversation_key a.conversation_id disable_ai db.conversations;
  },
)

execute_transfer_to_human : String → Action → Exec Database Json
execute_transfer_to_human at a db =
    transfer_found at a (find_unique conversation_key a.conversation_id db.conversations) db

abbrev context : Action → Run → Conversation → ToolContext
context a run conversation = record {
  organization_id = run.organization_id;
  conversation_id = a.conversation_id;
  contact_id = conversation.contact_id;
  channel_id = conversation.channel_id;
  agent_id = a.agent_id;
  run_id = a.agent_run_id;
  trigger_message_id = or_else run.trigger_message_id "";
}

abbrev pub mark_executed : Json → Action → Action
mark_executed result a = record a { status = executed; execution_result = some result }

abbrev pub note_failure : Json → Action → Action
note_failure result a = record a { status = approved; execution_result = some result }

abbrev pub update_action : String → (Action → Action) → Database → Database
update_action id f db = record db {
  store = record db.store { actions = update_key action_id id f db.store.actions };
}

abbrev pub failure_of : Failure → Json
failure_of e = obj (field "ok" (bool false) (field "error" (str (message e)) end))

-- What is recorded of the call, and what the job returns.
abbrev settle : String → Result Json × Database → Json × Database
settle id (ok result, db) = (result, update_action id (mark_executed (or_null result)) db)
settle id (err e, db) = (failure_of e, update_action id (note_failure (failure_of e)) db)

abbrev pub skipped : String → Json
skipped reason = obj (field "skipped" (bool true) (field "reason" (str reason) end))

module _ (http : HttpTool) where
  abbrev call_tool : Action → Skill → String → Option Run → Option Conversation → Result Json
  call_tool a skill tool (some run) (some conversation) =
      http skill tool a.args (context a run conversation)
  call_tool a skill tool _ _ = err (failed "Run or conversation no longer exists")

  abbrev with_tool : Action → Skill → String → Option String → Database → Result Json
  with_tool a skill tool_id none db =
      err (failed (concat ("Tool " ∷ tool_id ∷ " not found for skill " ∷ skill.name ∷ [])))
  with_tool a skill tool_id (some tool) db =
      call_tool a skill tool (find_unique run_key a.agent_run_id db.runs)
        (find_unique conversation_key a.conversation_id db.conversations)

  abbrev unbound : Skill → Action → Result Json
  unbound skill a = err (failed (concat ("Skill " ∷ a.tool_name ∷ " has no bound tool" ∷ [])))

  abbrev with_tool_id : Action → Skill → Option String → Database → Result Json
  with_tool_id a skill none db = unbound skill a
  with_tool_id a skill (some tool_id) db =
      if is_empty tool_id
      then unbound skill a
      else with_tool a skill tool_id (find_unique (λ t. t) tool_id db.tools) db

  abbrev with_skill : Action → Option Skill → Database → Result Json
  with_skill a none db =
      err (failed (concat ("Skill " ∷ a.tool_name ∷ " not found or inactive" ∷ [])))
  with_skill a (some skill) db = with_tool_id a skill skill.tool_id db

  -- `executeHttpSkill`
  execute_http_skill : Action → Exec Database Json
  execute_http_skill a db = (
    with_skill a
        (find_first (λ k. k.name == a.tool_name && k.is_active && not k.is_deleted) db.skills) db,
    db,
  )

  -- The tool call of an action.
  pub run_tool : String → Action → Exec Database Json
  unfolding execute_transfer_to_human execute_http_skill
  run_tool at a db =
      if a.tool_name == "transferToHuman"
      then execute_transfer_to_human at a db
      else execute_http_skill a db

  execute_found : String → String → Option Action → Database → Json × Database
  unfolding run_tool
  execute_found at id none db = (skipped "not_found", db)
  execute_found at id (some a) db =
      if not (same_status a.status approved)
      then (skipped (concat ("status_" ∷ status_name a.status ∷ [])), db)
      else settle id (run_tool at a db)

  -- `process` of an `execute_pending` job.
  unfoldable pub execute_pending : String → String → Database → Json × Database
  unfolding execute_found
  execute_pending at id db = execute_found at id (find_unique action_id id db.store.actions) db

-- `expireOverdueActions`, the `expire_overdue` job, with the count that it returns.
abbrev pub is_overdue : ℕ → Action → Bool
is_overdue now a = same_status a.status pending && is_expired now a

unfoldable pub expire_overdue_actions : ℕ → Database → ℕ × Database
expire_overdue_actions now db = (
  count_if (is_overdue now) db.store.actions,
  record db {
    store = record db.store {
      actions = update_many (is_overdue now) mark_expired db.store.actions;
    };
  },
)
