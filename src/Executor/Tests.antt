-- ===== src/Executor/Tests.antt =====
-- A job over one automation with two actions.
use chat_intelli_api.Base.{
  String, true, false, ◌≡◌, refl, none, some, [], ◌∷◌, arith, length, ◌==◌, inl, inr, Bool-cases,
}
use chat_intelli_api.Base.Table.{find_unique}
use chat_intelli_api.Json.{Json, str, arr, obj, nil, cons, end, field}
use chat_intelli_api.Events.{Trigger, contact, tagged}
use chat_intelli_api.Outbox.Poller.{Job}
use chat_intelli_api.Automation.{Automation, Database, Handler, Registry, done, parse_actions}
use chat_intelli_api.Automation.Loop.{run_loop, status_of}
use chat_intelli_api.Automation.Runs.{Says, run_loop-status}
use chat_intelli_api.Executor.Engine.{Env, context_of, execute}
use chat_intelli_api.Executor.Engine.Counters.{AreCounted, execute-AreCounted}
use chat_intelli_api.Executor.Engine.Locks.{locks-execute}

abbrev same_case : String → String
same_case s = s

abbrev works : Handler
works = record {
  continue_on_error_default = false;
  execute = λ params ctx es. (done (obj end), es);
}

-- Every action works.
abbrev registry : Registry
registry type = some works

abbrev action : String → Json
action type = obj (field "type" (str type) end)

abbrev rule : Automation
rule = record {
  id = "rule";
  organization_id = "org";
  trigger = Trigger.tag_added;
  conditions = obj end;
  actions = arr (cons (action "add_tag") (cons (action "send_message") nil));
  schema_version = 1;
  enabled = true;
  actor_id = "bia";
  priority = 0;
  consecutive_failures = 4;
  auto_paused_at = none;
  auto_paused_reason = none;
  rate_limit_per_minute = 10;
  last_run_at = none;
  run_count = 6;
  success_count = 1;
  failure_count = 5;
  created_at = 0;
  deleted_at = none;
}

abbrev job : Job
job = record {
  outbox_event_id = "e1";
  organization_id = "org";
  trigger = Trigger.tag_added;
  payload = record {
    organization_id = "org";
    contact_id = "ana";
    conversation_id = none;
    channel_id = none;
    actor_id = none;
    details = tagged "vip" contact;
  };
  trace_id = "t1";
  cascade_depth = 0;
  visited_automations = [];
}

abbrev database : Database
database = record {
  automations = rule ∷ [];
  members = record { user_id = "bia"; organization_id = "org" } ∷ [];
  runs = [];
  outbox = [];
  locks = [];
  hits = [];
}

abbrev env : Env
env = record {
  now = 100;
  token = λ id. "token";
  member = λ id. "member";
  run_fault = λ id. false;
  faults = λ id. record { count_fault = none; pause_fault = none };
}

counted : AreCounted database
unfolding find_unique
counted k = elim (Bool-cases ("rule" == k)) [
  | inl it ↦ rw it (omega arith, omega arith, λ many. absurd (omega arith))
  | inr other ↦ rw other tt
]

run_loop-status_example :
    (let p = run_loop registry (context_of rule job) 0 (parse_actions rule.actions) [] in
      Says (status_of p) (length (parse_actions rule.actions)) p.log)
run_loop-status_example =
    run_loop-status registry (context_of rule job) 0 (parse_actions rule.actions) []

execute-AreCounted_example : AreCounted (execute same_case registry env job database).1
execute-AreCounted_example =
    execute-AreCounted same_case registry env job (λ id. refl) database counted

locks-execute_example : (execute same_case registry env job database).1.locks ≡ []
locks-execute_example = locks-execute same_case registry env job database refl
