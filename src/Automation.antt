-- ===== src/Automation.antt =====
-- The rows of the automation engine, the actions of an automation and their parsing
-- (src/modules/automations/engine/automation-executor.service.ts: parseActions;
-- src/modules/automations/actions).
pub mod Runs
pub mod Loop
use chat_intelli_api.Base.{
  ℕ, ◌+◌, String, Bool, true, false, not, ◌&&◌, Option, none, some, List, [], ◌∷◌, ◌++◌, ◌==◌,
  contains, leb, if◌then◌else◌,
}
use chat_intelli_api.Base.Table.{find_unique, update_key}
use chat_intelli_api.Base.Exec.{Failure, failed, Result, ok, err, Exec, ◌>>◌, pure}
use chat_intelli_api.Json.{
  Json, Items, Fields, undefined, null, bool, num, str, arr, obj, end, items, get, is_falsy, concat,
  shown_number,
}
use chat_intelli_api.Events.{Trigger, Payload}
use chat_intelli_api.Outbox.{Event}
use chat_intelli_api.Outbox.Poller.{Job}
use chat_intelli_api.Redis.{Lock, Hit}

-- The fields of `Automation` that the engine reads or writes. The name and description, which
-- it does not use, are left out.
pub record Automation : Type 0 where
  pub id : String
  pub organization_id : String
  pub trigger : Trigger
  pub conditions : Json
  pub actions : Json
  pub schema_version : ℕ
  pub enabled : Bool
  pub actor_id : String
  pub priority : ℕ
  pub consecutive_failures : ℕ
  pub auto_paused_at : Option ℕ
  pub auto_paused_reason : Option String
  pub rate_limit_per_minute : ℕ
  pub last_run_at : Option ℕ
  pub run_count : ℕ
  pub success_count : ℕ
  pub failure_count : ℕ
  pub created_at : ℕ
  pub deleted_at : Option ℕ

pub data RunStatus : Type 0 where
  succeeded failed_status partial skipped : RunStatus

pub data EntryStatus : Type 0 where
  success failure : EntryStatus

-- `ActionLogEntry`, without its duration.
pub record Entry : Type 0 where
  pub index : ℕ
  pub type : String
  pub status : EntryStatus
  pub error_code : Option String
  pub error_message : Option String
  pub output : Json

-- A row of `AutomationRun`, without its duration.
pub record Run : Type 0 where
  pub automation_id : String
  pub organization_id : String
  pub outbox_event_id : String
  pub trace_id : String
  pub status : RunStatus
  pub error_code : Option String
  pub error_message : Option String
  pub trigger_payload : Payload
  pub actions_log : List Entry
  pub finished_at : ℕ

-- A member of a workspace.
pub record Member : Type 0 where
  pub user_id : String
  pub organization_id : String

-- The tables and keys that the engine uses.
pub record Database : Type 0 where
  pub automations : List Automation
  pub members : List Member
  pub runs : List Run
  pub outbox : List Event
  pub locks : List Lock
  pub hits : List Hit

-- `ActionDefinition`
pub record ActionDefinition : Type 0 where
  pub type : String
  pub params : Json
  pub continue_on_error : Json

abbrev action_types : List String
action_types =
    "add_tag" ∷ "remove_tag" ∷ "add_to_pipeline" ∷ "move_pipeline_stage" ∷ "assign_user"
    ∷ "send_message" ∷ []

-- `ActionContext`, without the services that it passes on.
pub record Context : Type 0 where
  pub organization_id : String
  pub payload : Payload
  pub trace_id : String
  pub cascade_depth : ℕ
  pub visited_automations : List String
  pub actor_id : String

-- `ActionExecutionResult`, or the message of what a handler threw.
pub data Reply : Type 0 where
  done : Json → Reply
  refused : Option String → Option String → Json → Reply
  threw : String → Reply

-- `ActionHandler`, whose effects are on the outbox; what else it writes is outside of this model.
pub record Handler : Type 0 where
  pub continue_on_error_default : Bool
  pub execute : Json → Context → List Event → Reply × List Event

-- `ActionRegistryService.get`
abbrev pub Registry : Type 0
Registry = String → Option Handler

-- `params && typeof params === 'object' ? params : {}`
abbrev as_params : Json → Json
as_params (arr xs) = arr xs
as_params (obj fs) = obj fs
as_params _ = obj end

abbrev parse_typed : Json → Fields → List ActionDefinition → List ActionDefinition
parse_typed (str type) a rest =
    if contains action_types type
    then record {
      type = type;
      params = as_params (get "params" a);
      continue_on_error = get "continueOnError" a;
    }
      ∷ rest
    else rest
parse_typed _ a rest = rest

abbrev parse_one : Json → List ActionDefinition → List ActionDefinition
parse_one (obj a) rest = parse_typed (get "type" a) a rest
parse_one _ rest = rest

abbrev parse_list : List Json → List ActionDefinition
parse_list [] = []
parse_list (a ∷ as_given) = parse_one a (parse_list as_given)

-- `parseActions`
abbrev pub parse_actions : Json → List ActionDefinition
parse_actions (arr raw) = parse_list (items raw)
parse_actions _ = []
