-- ===== src/Pending.antt =====
-- Tool calls of an AI agent that wait for a person: the records and the service of their life
-- (src/modules/ai-agents/confirmations: confirmation.types.ts, pending-action.storage.ts,
-- pending-action.service.ts).
pub mod Executor
use Prim.Native.String
use Prim.Native.Char.{code}
use chat_intelli_api.Base.{
  ℕ, ◌+◌, ◌*◌, String, Bool, true, false, not, ◌&&◌, ◌||◌, Option, none, some, List, [], ◌∷◌, ◌++◌,
  ◌==◌, any, keep, eqb, ltb, leb, is_none, is_empty, or_else, if◌then◌else◌,
}
use chat_intelli_api.Base.Order.{order_by}
use chat_intelli_api.Base.Table.{find_unique, update_key}
use chat_intelli_api.Base.Texts.{trim}
use chat_intelli_api.Base.Exec.{Failure, not_found, bad_request, Result, ok, err, Exec}
use chat_intelli_api.Json.{Json, concat}

-- PendingActionStatus
pub data Status : Type 0 where
  pending approved rejected expired executed : Status

abbrev pub status_name : Status → String
status_name pending = "PENDING"
status_name approved = "APPROVED"
status_name rejected = "REJECTED"
status_name expired = "EXPIRED"
status_name executed = "EXECUTED"

abbrev pub same_status : Status → Status → Bool
same_status pending pending = true
same_status approved approved = true
same_status rejected rejected = true
same_status expired expired = true
same_status executed executed = true
same_status _ _ = false

-- `PendingAction`; the preview, which is only shown, is a JSON value, and times are milliseconds.
pub record Action : Type 0 where
  pub id : String
  pub agent_run_id : String
  pub conversation_id : String
  pub agent_id : String
  pub tool_name : String
  pub args : Json
  pub preview : Json
  pub status : Status
  pub created_at : ℕ
  pub expires_at : ℕ
  pub approved_by : Option String
  pub approved_at : Option ℕ
  pub rejected_by : Option String
  pub rejected_at : Option ℕ
  pub rejected_reason : Option String
  pub execution_result : Option Json

-- `CreatePendingActionInput`
pub record CreateInput : Type 0 where
  pub agent_run_id : String
  pub conversation_id : String
  pub agent_id : String
  pub tool_name : String
  pub args : Json
  pub preview : Json
  pub ttl_minutes : Option ℕ

-- The table of actions, and the executor's queue as the ids of its jobs.
pub record Store : Type 0 where
  pub actions : List Action
  pub queue : List String

abbrev pub action_id : Action → String
action_id a = a.id

-- The `update` of `save`: the fields that it writes to a row that exists.
abbrev pub overwrite : Action → Action → Action
overwrite a row = record row {
  status = a.status;
  approved_by = a.approved_by;
  approved_at = a.approved_at;
  rejected_by = a.rejected_by;
  rejected_at = a.rejected_at;
  rejected_reason = a.rejected_reason;
  execution_result = a.execution_result;
}

abbrev upsert : Option Action → ℕ → Action → List Action → List Action
upsert none db_now a rows = rows ++ record a { created_at = db_now } ∷ []
upsert (some _) db_now a rows = update_key action_id a.id (overwrite a) rows

-- `save`, where the database gives a new row its time of creation.
unfoldable pub save : ℕ → Action → List Action → List Action
save db_now a rows = upsert (find_unique action_id a.id rows) db_now a rows

-- `ORDER BY createdAt DESC`
abbrev pub backwards : List Action → List Action → List Action
backwards [] done = done
backwards (a ∷ rows) done = backwards rows (a ∷ done)

abbrev pub in_conversation : Option String → Action → Bool
in_conversation none a = true
in_conversation (some c) a = is_empty c || a.conversation_id == c

unfoldable pub list_by_status : Status → Option String → List Action → List Action
list_by_status status conversation rows =
    backwards
      (order_by (λ a. a.created_at)
        (keep (λ a. same_status a.status status && in_conversation conversation a) rows))
      []

pub list_by_conversation : String → List Action → List Action
list_by_conversation conversation rows =
    backwards (order_by (λ a. a.created_at) (keep (λ a. a.conversation_id == conversation) rows)) []

abbrev pub is_expired : ℕ → Action → Bool
is_expired now a = ltb a.expires_at now

abbrev default_ttl_min : ℕ
default_ttl_min = 30

abbrev pub created : String → ℕ → CreateInput → Action
created id now input = record {
  id = id;
  agent_run_id = input.agent_run_id;
  conversation_id = input.conversation_id;
  agent_id = input.agent_id;
  tool_name = input.tool_name;
  args = input.args;
  preview = input.preview;
  status = pending;
  created_at = now;
  expires_at = now + or_else input.ttl_minutes default_ttl_min * 60 * 1000;
  approved_by = none;
  approved_at = none;
  rejected_by = none;
  rejected_at = none;
  rejected_reason = none;
  execution_result = none;
}

abbrev pub write : ℕ → Action → Store → Store
write now a s = record s { actions = save now a s.actions }

-- `create`
unfoldable pub create : String → ℕ → CreateInput → Exec Store Action
unfolding save
create id now input s = (ok (created id now input), write now (created id now input) s)

abbrev pub mark_expired : Action → Action
mark_expired a = record a { status = expired }

abbrev pub mark_approved : String → ℕ → Action → Action
mark_approved user now a = record a {
  status = approved;
  approved_by = some user;
  approved_at = some now;
}

-- The executor's job, whose failure to be queued is only logged.
abbrev pub enqueue_execution : Bool → String → Store → Store
enqueue_execution true id s = s
enqueue_execution false id s = record s { queue = s.queue ++ id ∷ [] }

abbrev refusal : String → Status → Failure
refusal verb status =
    bad_request (concat ("Action is " ∷ status_name status ∷ " and cannot be " ∷ verb ∷ []))

-- The guards that `approve` and `reject` share, in front of a change of the action.
abbrev pub decide : String → ℕ → Option Action → (Action → Store → Store) → Exec Store Action
decide verb now none change s = (err (not_found "Pending action not found"), s)
decide verb now (some a) change s =
    if not (same_status a.status pending)
    then (err (refusal verb a.status), s)
    else if is_expired now a
    then (err (bad_request "Action expired"), write now (mark_expired a) s)
    else (ok a, change a s)

abbrev pub returning : (Action → Action) → Result Action × Store → Result Action × Store
returning f (ok a, s) = (ok (f a), s)
returning f (err e, s) = (err e, s)

-- `approve`
unfoldable pub approve : Bool → String → String → ℕ → Exec Store Action
unfolding save
approve queue_fault id user now s = returning (mark_approved user now) (
    decide "approved" now (find_unique action_id id s.actions)
      (λ a t. enqueue_execution queue_fault id (write now (mark_approved user now a) t)) s)

abbrev pub mark_rejected : String → ℕ → String → Action → Action
mark_rejected user now reason a = record a {
  status = rejected;
  rejected_by = some user;
  rejected_at = some now;
  rejected_reason = some (trim reason);
}

-- `reject`
unfoldable pub reject : String → String → String → ℕ → Exec Store Action
unfolding save
reject id user reason now s =
    if is_empty reason || is_empty (trim reason)
    then (err (bad_request "Rejection reason is required"), s)
    else returning (mark_rejected user now reason) (
        decide "rejected" now (find_unique action_id id s.actions)
          (λ a t. write now (mark_rejected user now reason a) t) s)

-- The loop of `expireOverdue` over the actions that were read, with the count.
unfoldable pub sweep : ℕ → List Action → List Action → ℕ × List Action
unfolding save
sweep now [] rows = (0, rows)
sweep now (a ∷ rest) rows =
    let late = is_expired now a in
    let r = sweep now rest (if late then save now (mark_expired a) rows else rows) in
    (r.0 + (if late then 1 else 0), r.1)

-- `expireOverdue`
unfoldable pub expire_overdue : ℕ → Store → ℕ × Store
unfolding sweep list_by_status
expire_overdue now s =
    let r = sweep now (list_by_status pending none s.actions) s.actions in
    (r.0, record s { actions = r.1 })
