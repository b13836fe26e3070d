-- ===== src/Executor/Engine.antt =====
-- The run of one event through the automations of its trigger
-- (src/modules/automations/engine/automation-executor.service.ts: execute, runActions, persistRun).
pub mod Counters
pub mod Locks
use chat_intelli_api.Base.{
  ℕ, ◌+◌, String, Bool, true, false, not, ◌&&◌, ◌||◌, Option, none, some, List, [], ◌∷◌, ◌++◌, ◌==◌,
  contains, keep, leb, eqb, is_none, any, if◌then◌else◌,
}
use chat_intelli_api.Base.Order.{order_by}
use chat_intelli_api.Base.Table.{find_unique, update_key}
use chat_intelli_api.Base.Exec.{Failure, failed, Result, ok, err, Exec, ◌>>◌, ◌>>=◌, pure}
use chat_intelli_api.Json.{Json, concat, shown_number}
use chat_intelli_api.Events.{Trigger, Payload, trigger_name}
use chat_intelli_api.Conditions.Evaluate.{evaluate}
use chat_intelli_api.Outbox.{Event}
use chat_intelli_api.Outbox.Poller.{Job}
use chat_intelli_api.Redis.{
  Lock, Hit, acquire_contact_lock, release_contact_lock, try_consume_rate_limit,
}
use chat_intelli_api.Automation.{
  Automation, RunStatus, succeeded, failed_status, partial, skipped, Entry, Run, Member, Database,
  ActionDefinition, Context, Registry, parse_actions,
}
use chat_intelli_api.Automation.Loop.{Progress, run_loop, status_of}
use chat_intelli_api.Executor.{
  Faults, auto_pause, automation_id, current_schema_version, max_cascade_depth, update_counters,
}

-- What the runtime, the database and Redis supply to one job: the time, the tokens of the locks and
-- the members of the windows by automation, the automations whose run row is not written, and the
-- errors of the updates of an automation.
pub record Env : Type 0 where
  pub now : ℕ
  pub token : String → String
  pub member : String → String
  pub run_fault : String → Bool
  pub faults : String → Faults

abbrev run_row : ℕ → Automation → Job → RunStatus → Option String → Option String → List Entry → Run
run_row now a job status code text log = record {
  automation_id = a.id;
  organization_id = a.organization_id;
  outbox_event_id = job.outbox_event_id;
  trace_id = job.trace_id;
  status = status;
  error_code = code;
  error_message = text;
  trigger_payload = job.payload;
  actions_log = log;
  finished_at = now;
}

-- `persistRun`: a failure is logged and swallowed.
abbrev persist_run : Env → Run → Database → Database
persist_run env run db =
    if env.run_fault run.automation_id then db else record db { runs = db.runs ++ run ∷ [] }

abbrev skip : Env → Automation → Job → String → String → Database → Database
skip env a job code text db =
    persist_run env (run_row env.now a job skipped (some code) (some text) []) db

abbrev pub context_of : Automation → Job → Context
context_of a job = record {
  organization_id = a.organization_id;
  payload = job.payload;
  trace_id = job.trace_id;
  cascade_depth = job.cascade_depth + 1;
  visited_automations = job.visited_automations ++ a.id ∷ [];
  actor_id = a.actor_id;
}

module _ (lower : String → String) (registry : Registry) (env : Env) (job : Job) where
  -- The rows behind the loop of `runActions`.
  abbrev record_run : Automation → Progress → Database → Database
  record_run a p db =
      persist_run env (run_row env.now a job (status_of p) none none p.log)
        (record db { outbox = p.outbox })

  -- `runActions`
  run_actions : Automation → Exec Database (Unit {0})
  unfolding update_counters
  run_actions a db =
      let p = run_loop registry (context_of a job) 0 (parse_actions a.actions) db.outbox in
      update_counters (env.faults a.id) env.now a.id (status_of p) (record_run a p db)

  abbrev release : String → Result (Unit {0}) × Database → Result (Unit {0}) × Database
  release token (r, db) =
      (r, record db { locks = release_contact_lock job.payload.contact_id token db.locks })

  abbrev locked : Failure
  locked = failed (concat ("contact " ∷ job.payload.contact_id ∷ " locked — will retry" ∷ []))

  -- The run under the lock of the contact, released in `finally`.
  under_lock : Automation → Option String × List Lock → Exec Database (Unit {0})
  unfolding run_actions
  under_lock a (none, locks) db = (err locked, record db { locks = locks })
  under_lock a (some token, locks) db = release token (run_actions a (record db { locks = locks }))

  try_lock : Automation → Exec Database (Unit {0})
  unfolding under_lock
  try_lock a db =
      under_lock a (acquire_contact_lock env.now (env.token a.id) job.payload.contact_id db.locks)
        db

  abbrev too_fast : Automation → String
  too_fast a =
      concat (">" ∷ shown_number a.rate_limit_per_minute ∷ "/min on this conversation" ∷ [])

  rate_limited : Automation → Bool × List Hit → Exec Database (Unit {0})
  unfolding try_lock
  rate_limited a (false, hits) db =
      (ok tt, skip env a job "rate_limited" (too_fast a) (record db { hits = hits }))
  rate_limited a (true, hits) db = try_lock a (record db { hits = hits })

  -- `checkActor`
  abbrev check_actor : Automation → Database → Bool
  check_actor a db =
      any (λ m. m.user_id == a.actor_id && m.organization_id == a.organization_id) db.members

  -- What follows the conditions, if they hold.
  run_matched : Automation → Result Bool → Exec Database (Unit {0})
  unfolding rate_limited auto_pause
  run_matched a (err e) db = (err e, db)
  run_matched a (ok false) db = (ok tt, db)
  run_matched a (ok true) db =
      if check_actor a db
      then rate_limited a
          (try_consume_rate_limit env.now (env.member a.id) a.id job.payload.conversation_id
            a.rate_limit_per_minute db.hits)
          db
      else auto_pause (env.faults a.id).pause_fault env.now a.id "creator no longer in workspace"
          (skip env a job "actor_unauthorized" "creator no longer in workspace" db)

  abbrev other_version : Automation → String
  other_version a = concat (
      "regra v"
      ∷ shown_number a.schema_version
      ∷ ", runtime v"
      ∷ shown_number current_schema_version
      ∷ [])

  -- One round of the loop of `execute`.
  unfoldable pub execute_one : Automation → Exec Database (Unit {0})
  unfolding run_matched
  execute_one a db =
      if contains job.visited_automations a.id
      then (ok tt, skip env a job "loop_detected" "automation already ran earlier in this trace" db)
      else if not (eqb a.schema_version current_schema_version)
      then (ok tt, skip env a job "schema_version_mismatch" (other_version a) db)
      else run_matched a (evaluate lower job.trigger job.payload a.conditions) db

  -- The loop of `execute`, which a throw ends.
  unfoldable pub execute_all : List Automation → Exec Database (Unit {0})
  execute_all [] = pure tt
  execute_all (a ∷ rest) = execute_one a >> execute_all rest

  abbrev backwards : List Automation → List Automation → List Automation
  backwards [] done = done
  backwards (a ∷ as_read) done = backwards as_read (a ∷ done)

  abbrev matching : Automation → Bool
  matching a =
      a.organization_id == job.organization_id
      && (trigger_name a.trigger == trigger_name job.trigger && (a.enabled && is_none a.deleted_at))

  -- `findMatchingAutomations`: the highest priority first, and of one priority the oldest.
  unfoldable pub find_matching_automations : List Automation → List Automation
  find_matching_automations rows =
      let oldest = order_by (λ a. a.created_at) (keep matching rows) in
      backwards (order_by (λ a. a.priority) (backwards oldest [])) []

  -- `execute`
  unfoldable pub execute : Exec Database (Unit {0})
  unfolding execute_all find_matching_automations
  execute db =
      if leb max_cascade_depth job.cascade_depth
      then (ok tt, db)
      else execute_all (find_matching_automations db.automations) db
