-- ===== src/Watchdog.antt =====
-- The watchdog of conversations without an answer: its configuration, and the scheduling of checks
-- (src/modules/routing/watchdog/watchdog.service.ts, watchdog-config.service.ts, watchdog.types.ts).
-- An error of the queue is modelled where the code expects one: a job that runs cannot be removed.
pub mod Check
pub mod Cron
pub mod Timers
pub mod Guards
pub mod Bounded
mod Tests
use Prim.Native.String
use Prim.Native.Nat.{◌+◌, ◌*◌}
use mathlib.Core.Option
use chat_intelli_api.Base.{
  ℕ, String, Bool, true, false, not, ◌&&◌, ◌||◌, Option, none, some, List, [], ◌∷◌, ◌==◌, any, keep,
  eqb, or_else, if◌then◌else◌,
}
use chat_intelli_api.Base.Table.{find_unique, update_key}
use chat_intelli_api.Conversation.{
  Conversation, Status, pending, bot, open_status, waiting, closed, id_of,
}
use chat_intelli_api.Router.{Organization, WatchdogConfig, Database, forced_off}

pub record Settings : Type 0 where
  pub delay_bot_min : ℕ
  pub delay_pending_min : ℕ
  pub delay_human_idle_min : ℕ
  pub max_attempts : ℕ

abbrev pub default_watchdog_config : Settings
default_watchdog_config = record {
  delay_bot_min = 15;
  delay_pending_min = 15;
  delay_human_idle_min = 60;
  max_attempts = 3;
}

abbrev no_config : WatchdogConfig
no_config = record {
  delay_bot_min = none;
  delay_pending_min = none;
  delay_human_idle_min = none;
  max_attempts = none;
}

-- `resolve`
abbrev pub resolve : Organization → Settings
resolve org =
    let override = or_else org.watchdog_config no_config in
    record {
      delay_bot_min = or_else override.delay_bot_min default_watchdog_config.delay_bot_min;
      delay_pending_min =
          or_else override.delay_pending_min default_watchdog_config.delay_pending_min;
      delay_human_idle_min =
          or_else override.delay_human_idle_min default_watchdog_config.delay_human_idle_min;
      max_attempts = or_else override.max_attempts default_watchdog_config.max_attempts;
    }

pub data Direction : Type 0 where
  inbound outbound : Direction

-- The messages are in the order of `createdAt`.
pub record Message : Type 0 where
  pub id : String
  pub conversation_id : String
  pub direction : Direction

pub record Contact : Type 0 where
  pub id : String
  pub name : Option String
  pub phone : Option String

-- A job of the queue with the time that it is due, whether it waits, runs (is active) or has ended:
-- the last jobs that have ended are kept.
pub record Timer : Type 0 where
  pub job_id : String
  pub conversation_id : String
  pub organization_id : String
  pub scheduled_at_attempts : ℕ
  pub due : ℕ
  pub is_active : Bool

pub data Note : Type 0 where
  stuck_note : String → String → Note
  idle_note : String → String → String → Note

pub record Store : Type 0 where
  pub conversations : List Conversation
  pub messages : List Message
  pub contacts : List Contact
  pub timers : List Timer
  pub notes : List Note
  pub routing : Database

abbrev pub job_id_for : String → String
job_id_for id = String.◌++◌ "watchdog-" id

-- `delayForStatus`, in minutes
abbrev pub delay_for_status : Status → Settings → ℕ
delay_for_status bot cfg = cfg.delay_bot_min
delay_for_status pending cfg = cfg.delay_pending_min
delay_for_status open_status cfg = cfg.delay_human_idle_min
delay_for_status _ cfg = 0

abbrev pub rests : Status → Bool
rests waiting = true
rests closed = true
rests _ = false

-- `cancelByJobId`
unfoldable pub cancel_by_job_id : String → List Timer → List Timer
cancel_by_job_id job timers = keep (λ t. not (t.job_id == job && not t.is_active)) timers

-- `queue.add`, which leaves a job of the same id as it is.
unfoldable pub add_timer : Timer → List Timer → List Timer
add_timer t timers = if any (λ u. u.job_id == t.job_id) timers then timers else t ∷ timers

abbrev pub minute_ms : ℕ
minute_ms = 60000

abbrev pub timer_for : ℕ → ℕ → Conversation → Timer
timer_for now delay c = record {
  job_id = job_id_for c.id;
  conversation_id = c.id;
  organization_id = c.organization_id;
  scheduled_at_attempts = c.stuck_attempts;
  due = now + delay * minute_ms;
  is_active = false;
}

abbrev pub set_job : Option String → String → Store → Store
set_job job id st = record st {
  conversations = update_key id_of id (λ c. record c { watchdog_job_id = job }) st.conversations;
}

unfoldable pub put_timer : ℕ → ℕ → Conversation → Store → Store
unfolding cancel_by_job_id add_timer
put_timer now delay c st = set_job (some (job_id_for c.id)) c.id (record st {
  timers = add_timer (timer_for now delay c) (cancel_by_job_id (job_id_for c.id) st.timers);
})

unfoldable pub schedule_in : ℕ → Conversation → Option Organization → Store → Store
unfolding put_timer
schedule_in now c none st = st
schedule_in now c (some org) st =
    if not org.watchdog_enabled || (forced_off c.ai_enabled || rests c.status)
    then st
    else if eqb (delay_for_status c.status (resolve org)) 0
    then st
    else put_timer now (delay_for_status c.status (resolve org)) c st

unfoldable pub schedule_found : ℕ → Option Conversation → Store → Store
unfolding schedule_in
schedule_found now none st = st
schedule_found now (some c) st =
    schedule_in now c (find_unique (λ o. o.id) c.organization_id st.routing.organizations) st

-- `scheduleCheck`, and `enqueueFromCron`
unfoldable pub schedule_check : ℕ → String → Store → Store
unfolding schedule_found
schedule_check now id st = schedule_found now (find_unique id_of id st.conversations) st

abbrev unstick : Conversation → Conversation
unstick c = record c { watchdog_job_id = none; stuck_attempts = 0; is_stuck = false }

-- `cancelCheck`
unfoldable pub cancel_check : String → Store → Store
unfolding cancel_by_job_id
cancel_check id st = record st {
  timers = cancel_by_job_id (job_id_for id) st.timers;
  conversations = update_key id_of id unstick st.conversations;
}
