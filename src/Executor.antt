-- ===== src/Executor.antt =====
-- The counters of an automation and its pause
-- (src/modules/automations/engine/automation-executor.service.ts: updateAutomationCounters,
-- autoPause).
pub mod Engine
mod Tests
use chat_intelli_api.Base.{
  ℕ, ◌+◌, String, Bool, true, false, not, ◌&&◌, ◌||◌, Option, none, some, List, [], ◌∷◌, ◌++◌, ◌==◌,
  contains, keep, leb, eqb, is_none, any, if◌then◌else◌,
}
use chat_intelli_api.Base.Order.{order_by}
use chat_intelli_api.Base.Table.{find_unique, update_key}
use chat_intelli_api.Base.Exec.{Failure, failed, Result, ok, err, Exec, ◌>>◌, ◌>>=◌, pure}
use chat_intelli_api.Json.{Json, concat, shown_number}
use chat_intelli_api.Events.{Trigger, Payload, trigger_name}
use chat_intelli_api.Conditions.Evaluate.{evaluate}
use chat_intelli_api.Outbox.{Event}
use chat_intelli_api.Outbox.Poller.{Job}
use chat_intelli_api.Redis.{
  Lock, Hit, acquire_contact_lock, release_contact_lock, try_consume_rate_limit,
}
use chat_intelli_api.Automation.{
  Automation, RunStatus, succeeded, failed_status, partial, skipped, Entry, Run, Member, Database,
  ActionDefinition, Context, Registry, parse_actions,
}
use chat_intelli_api.Automation.Loop.{Progress, run_loop, status_of}

abbrev pub max_cascade_depth : ℕ
max_cascade_depth = 4

abbrev pub auto_disable_after_failures : ℕ
auto_disable_after_failures = 5

abbrev current_schema_version : ℕ
current_schema_version = 1

abbrev pub automation_id : Automation → String
automation_id a = a.id

-- `automation.update({ where: { id } })`, which throws if there is no such row.
abbrev update_found :
    String → (Automation → Automation) → Option Automation → Exec Database (Unit {0})
update_found id f none db = (err (failed "Record to update not found"), db)
update_found id f (some _) db =
    (ok tt, record db { automations = update_key automation_id id f db.automations })

-- The update, or the error with which the statement fails.
update : Option String → String → (Automation → Automation) → Exec Database (Unit {0})
update (some m) id f db = (err (failed m), db)
update none id f db = update_found id f (find_unique automation_id id db.automations) db

-- The errors of the update of the counters and of the one of the pause, if they fail.
pub record Faults : Type 0 where
  pub count_fault : Option String
  pub pause_fault : Option String

-- The data of each update.
abbrev pub count_success : ℕ → Automation → Automation
count_success now a = record a {
  run_count = a.run_count + 1;
  success_count = a.success_count + 1;
  consecutive_failures = 0;
  last_run_at = some now;
}

abbrev pub count_failure : ℕ → Automation → Automation
count_failure now a = record a {
  run_count = a.run_count + 1;
  failure_count = a.failure_count + 1;
  consecutive_failures = a.consecutive_failures + 1;
  last_run_at = some now;
}

abbrev pub count_skip : ℕ → Automation → Automation
count_skip now a = record a { run_count = a.run_count + 1; last_run_at = some now }

abbrev pub pause : ℕ → String → Automation → Automation
pause now reason a = record a {
  enabled = false;
  auto_paused_at = some now;
  auto_paused_reason = some reason;
}

-- `autoPause`
auto_pause : Option String → ℕ → String → String → Exec Database (Unit {0})
unfolding update
auto_pause fault now id reason = update fault id (pause now reason)

abbrev failures_of : Option Automation → ℕ
failures_of none = 0
failures_of (some a) = a.consecutive_failures

abbrev in_a_row : ℕ → String
in_a_row failures = concat (shown_number failures ∷ " consecutive failures" ∷ [])

-- The pause behind an update that selects the failures in a row.
pause_at_limit : Option String → ℕ → String → ℕ → Exec Database (Unit {0})
unfolding auto_pause
pause_at_limit fault now id failures db =
    if leb auto_disable_after_failures failures
    then auto_pause fault now id (in_a_row failures) db
    else (ok tt, db)

count_failed_run : Faults → ℕ → String → Exec Database (Unit {0})
unfolding update pause_at_limit
count_failed_run faults now id = update faults.count_fault id (count_failure now) >> λ db.
    pause_at_limit faults.pause_fault now id
      (failures_of (find_unique automation_id id db.automations)) db

-- `updateAutomationCounters`
unfoldable pub update_counters : Faults → ℕ → String → RunStatus → Exec Database (Unit {0})
unfolding update count_failed_run
update_counters faults now id succeeded = update faults.count_fault id (count_success now)
update_counters faults now id failed_status = count_failed_run faults now id
update_counters faults now id partial = count_failed_run faults now id
update_counters faults now id skipped = update faults.count_fault id (count_skip now)
