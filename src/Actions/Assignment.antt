-- ===== src/Actions/Assignment.antt =====
-- The handler that assigns a conversation
-- (src/modules/automations/actions/handlers/assign-user.handler.ts). Its transaction writes the
-- columns that `assign` of the state machine writes, which are taken from there, and the same logs with
-- metadata of its own.
pub mod Alike
mod Tests
use Prim.Native.String
use chat_intelli_api.Base.{
  String, Bool, true, false, ◌&&◌, Option, none, some, List, [], ◌∷◌, ◌==◌, any, is_empty, same_id,
  if◌then◌else◌,
}
use chat_intelli_api.Base.Exec
use chat_intelli_api.Base.Exec.{
  Failure, failed, Result, ok, err, Exec, transaction, settle, resume, ◌>>◌,
}
use chat_intelli_api.Base.Table.{find_first}
use chat_intelli_api.Json.{Json, Fields, str, bool, obj, field, end, get, concat}
use chat_intelli_api.Events.{Payload}
use chat_intelli_api.Outbox
use chat_intelli_api.Outbox.{Event, Fresh}
use chat_intelli_api.Conversation.{AuditLog, Conversation, Database, open_status, id_of}
use chat_intelli_api.Conversation.Fsm.{
  Env, guarded, write_conversation, write_audit, after_enqueue, when, will_open, assigned_to,
  assign_log, assign_event, change_log, change_event,
}
use chat_intelli_api.Automation.{Context, Member, Reply, done}
use chat_intelli_api.Actions.{refusal, truthy, chained}

abbrev required : Failure
required = failed "assign_user: \"userId\" is required (string)"

abbrev user_of : Json → Result String
user_of (str user) = if is_empty user then err required else ok user
user_of _ = err required

-- `validateParams`, with the user that `execute` reads.
unfoldable pub validate_params : Fields → Result String
validate_params params = user_of (get "userId" params)

module _ (env : Env) (user : String) (ctx : Context) where
  abbrev pub emit_chained : Payload → Fresh → Exec Database (Unit {0})
  emit_chained p fresh db = after_enqueue (Outbox.enqueue p (chained ctx) fresh db.outbox) db

  -- The `metadata` of its logs.
  abbrev pub marked : AuditLog → AuditLog
  marked log = record log {
    metadata = obj (field "source" (str "automation") (field "traceId" (str ctx.trace_id) end));
  }

  abbrev pub writes : Conversation → Exec Database (Unit {0})
  writes c =
      guarded env.update_fault (write_conversation c.id (assigned_to env.now user))
      >> guarded env.audit_fault (write_audit (marked (assign_log ctx.actor_id c user)))
      >> when (will_open c) (
          guarded env.audit_fault
            (write_audit (marked (change_log (some ctx.actor_id) c open_status))))

  abbrev pub emits : Conversation → Exec Database (Unit {0})
  emits c =
      emit_chained (assign_event ctx.actor_id c user) env.first_event
      >> when (will_open c)
          (emit_chained (change_event (some ctx.actor_id) c open_status) env.second_event)

  abbrev pub reply_to : Result {0} Unit × Database → Reply × Database
  reply_to (ok _, db) = (done (obj (field "userId" (str user) end)), db)
  reply_to (err e, db) = (refusal "unexpected" (Exec.message e), db)

  abbrev pub assign_unless : Conversation → Database → Reply × Database
  assign_unless c db =
      if same_id c.assigned_to_id (some user)
      then (done (obj (field "alreadyAssigned" (bool true) (field "userId" (str user) end))), db)
      else reply_to (transaction (writes c >> emits c) db)

  abbrev pub assign_found : Option Conversation → Database → Reply × Database
  assign_found none db = (refusal "invalid_ref" "conversation not found in org", db)
  assign_found (some c) db = assign_unless c db

  abbrev pub is_member : List Member → Bool
  is_member members =
      any (λ m. m.user_id == user && m.organization_id == ctx.organization_id) members

  abbrev pub conversation_in : String → Database → Option Conversation
  conversation_in id db =
      find_first (λ c. c.id == id && c.organization_id == ctx.organization_id) db.conversations

  abbrev pub assign_in : Option String → List Member → Database → Reply × Database
  assign_in none members db =
      (refusal "invalid_params" "assign_user requires a conversationId in the event", db)
  assign_in (some id) members db =
      if is_member members then assign_found (conversation_in id db) db else (
        refusal "invalid_ref" (concat ("user " ∷ user ∷ " is not a member of this org" ∷ [])),
        db,
      )

  -- `AssignUserHandler.execute`
  unfoldable pub assign_user : List Member → Database → Reply × Database
  assign_user members db = assign_in (truthy (ctx.payload).conversation_id) members db
