-- ===== src/Actions.antt =====
-- What the action handlers share (src/modules/automations/actions/action.types.ts): the errors that
-- they tell apart and their replies.
pub mod Tags
pub mod Pipelines
pub mod Assignment
pub mod Messages
use Prim.Native.String
use chat_intelli_api.Base.{String, Bool, true, false, Option, none, some, is_empty, if◌then◌else◌}
use chat_intelli_api.Json.{Json, undefined, bool, str, obj, field, end}
use chat_intelli_api.Outbox.{EnqueueOptions, derived}
use chat_intelli_api.Automation.{Context, Reply, refused}

-- The errors of a transaction: `P2002`, `P2025`, and any other with its message.
pub data Fault : Type 0 where
  duplicate missing : Fault
  other : String → Fault

-- What a transaction comes to.
pub data Attempt {ℓ} (A : Type ℓ) : Type ℓ where
  made : A → Attempt A
  fails : Fault → Attempt A

-- `{ ok: false, errorCode, errorMessage }`
abbrev pub refusal : String → String → Reply
refusal code message = refused (some code) (some message) undefined

-- `catch (err)` of an error that the handler does not forgive.
abbrev pub unexpected : Fault → Reply
unexpected duplicate = refusal "unexpected" "Unique constraint failed"
unexpected missing = refusal "unexpected" "Record to delete does not exist"
unexpected (other m) = refusal "unexpected" m

-- `s ?` on an optional text
abbrev pub truthy : Option String → Option String
truthy none = none
truthy (some s) = if is_empty s then none else some s

-- The options with which handlers enqueue: the run's own chain.
abbrev pub chained : Context → EnqueueOptions
chained ctx = record {
  trace_id = some ctx.trace_id;
  cascade_depth = some ctx.cascade_depth;
  dedup_key = derived;
}
