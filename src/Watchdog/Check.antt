-- ===== src/Watchdog/Check.antt =====
-- A check of the watchdog (src/modules/routing/watchdog/watchdog-timer.processor.ts). The run of the
-- agent is a parameter, and so is whether a notification fails.
use Prim.Native.String
use Prim.Native.Nat.{◌+◌}
use chat_intelli_api.Base.{
  ℕ, String, Bool, true, false, not, ◌&&◌, ◌||◌, Option, none, some, List, [], ◌∷◌, ◌==◌, ltb,
  is_none, is_empty, or_else, if◌then◌else◌,
}
use chat_intelli_api.Base.Exec.{Failure, failed, message, Result, ok, err}
use chat_intelli_api.Base.Table.{find_unique, update_key}
use chat_intelli_api.Conversation.{
  Conversation, pending, bot, open_status, id_of, status_name, same_status,
}
use chat_intelli_api.Hours.{Clock, is_within_business_hours}
use chat_intelli_api.Router.{Organization, Decision, handle, refuse, forced_off, should_handle}
use chat_intelli_api.Watchdog.{
  resolve, Direction, inbound, outbound, Message, Contact, Note, stuck_note, idle_note, Store,
  set_job, rests,
}

-- `WatchdogJobData`
pub record JobData : Type 0 where
  pub conversation_id : String
  pub scheduled_at_attempts : ℕ

-- What a check meets outside its tables.
pub record Env : Type 0 where
  pub now : ℕ
  pub clock : Clock
  pub start_of_month : ℕ
  pub notify_fails : Option Failure
  pub run : Conversation → Message → Store → Result {0} Unit × Store

-- What the worker returns.
pub data Outcome : Type 0 where
  skipped : String → Outcome
  stuck : ℕ → Outcome
  reactivated : ℕ → Outcome
  run_failed : String → ℕ → Outcome
  scanned : ℕ → ℕ → Outcome

abbrev pub Answer : Type 0
Answer = Result Outcome × Store

abbrev is_inbound : Direction → Bool
is_inbound inbound = true
is_inbound outbound = false

-- The last message that passes a test.
unfoldable pub last_message : (Message → Bool) → List Message → Option Message
last_message p [] = none
last_message p (m ∷ ms) = later (last_message p ms)
  where
    later : Option Message → Option Message
    later (some n) = some n
    later none = if p m then some m else none

abbrev came_in : Option Message → Bool
came_in none = false
came_in (some m) = is_inbound m.direction

-- `!lastMessage || lastMessage.direction !== INBOUND`, negated
unfoldable pub is_unanswered : String → List Message → Bool
unfolding last_message
is_unanswered id messages = came_in (last_message (λ m. m.conversation_id == id) messages)

abbrev name_in : Option Contact → String
name_in none = "Cliente"
name_in (some c) = or_else c.name (or_else c.phone "Cliente")

abbrev pub contact_name : Conversation → Store → String
contact_name c st = name_in (find_unique (λ k. k.id) c.contact_id st.contacts)

abbrev pub add_note : Note → Store → Store
add_note n st = record st { notes = n ∷ st.notes }

abbrev pub notify_to : Option String → Env → Conversation → String → Store → Store
notify_to none env c reason st = st
notify_to (some who) env c reason st =
    if is_empty who || not (is_none env.notify_fails)
    then st
    else add_note (idle_note who (contact_name c st) reason) st

-- `notifyAssignee`, which catches an error.
abbrev pub notify_assignee : Env → Conversation → String → Store → Store
notify_assignee env c reason st = notify_to c.assigned_to_id env c reason st

-- `clearJobId`
abbrev pub clear_job_id : String → Store → Store
clear_job_id id st = set_job none id st

abbrev pub skip : String → String → Store → Answer
skip reason id st = (ok (skipped reason), clear_job_id id st)

abbrev pub change_row : String → (Conversation → Conversation) → Store → Store
change_row id f st = record st { conversations = update_key id_of id f st.conversations }

abbrev pub set_stuck : Conversation → Conversation
set_stuck c = record c { is_stuck = true; status = pending; watchdog_job_id = none }

-- `markStuck`, and the return behind it.
unfoldable pub mark_stuck : Option Failure → Conversation → Store → Answer
mark_stuck (some e) c st = (err e, change_row c.id set_stuck st)
mark_stuck none c st = (
  ok (stuck c.stuck_attempts),
  clear_job_id c.id
      (add_note (stuck_note c.organization_id (contact_name c st)) (change_row c.id set_stuck st)),
)

abbrev pub returned : ℕ → Result {0} Unit × Store → Answer
returned attempts (ok _, st) = (ok (reactivated attempts), st)
returned attempts (err e, st) = (ok (run_failed (message e) attempts), st)

abbrev pub to_bot : Conversation → Store → Store
to_bot c st =
    if same_status c.status pending then change_row c.id (λ r. record r { status = bot }) st else st

unfoldable pub run_agent : Env → Conversation → Conversation → Option Message → Store → Answer
run_agent env c fresh none st = (ok (skipped "no_inbound_trigger"), st)
run_agent env c fresh (some m) st = returned (c.stuck_attempts + 1) (env.run fresh m (to_bot c st))

unfoldable pub on_decision : Env → Conversation → Conversation → Decision → Store → Answer
unfolding run_agent last_message
on_decision env c fresh (refuse reason) st = (ok (skipped (String.◌++◌ "router_" reason)), st)
on_decision env c fresh handle st =
    run_agent env c fresh
      (last_message (λ m. m.conversation_id == c.id && is_inbound m.direction) st.messages) st

unfoldable pub decide : Env → Conversation → Option Conversation → Store → Answer
unfolding on_decision
decide env c none st = (ok (skipped "conversation_vanished"), st)
decide env c (some fresh) st =
    on_decision env c fresh (should_handle env.clock env.start_of_month fresh st.routing) st

abbrev pub count_attempt : ℕ → ℕ → Conversation → Conversation
count_attempt now attempts c = record c {
  stuck_attempts = attempts;
  last_watchdog_check_at = some now;
  watchdog_job_id = none;
}

abbrev pub counted : Env → Conversation → Store → Store
counted env c st = change_row c.id (count_attempt env.now (c.stuck_attempts + 1)) st

abbrev pub warned : Env → Conversation → Store → Store
warned env c st =
    if same_status c.status open_status
    then notify_assignee env c "human_idle_taking_over" st
    else st

unfoldable pub reactivate : Env → Conversation → Store → Answer
unfolding decide
reactivate env c st =
    let st = warned env c (counted env c st) in
    decide env c (find_unique id_of c.id st.conversations) st

unfoldable pub attempt : Env → ℕ → Conversation → Organization → Store → Answer
unfolding mark_stuck reactivate
attempt env scheduled c org st =
    if ltb scheduled c.stuck_attempts
    then skip "attempts_advanced" c.id st
    else if ltb (resolve org).max_attempts (c.stuck_attempts + 1)
    then mark_stuck env.notify_fails c st
    else reactivate env c st

unfoldable pub check : Env → ℕ → Conversation → Organization → Store → Answer
unfolding attempt is_unanswered
check env scheduled c org st =
    if not (is_none c.deleted_at)
    then (ok (skipped "conversation_deleted"), st)
    else if not org.watchdog_enabled
    then skip "watchdog_disabled" c.id st
    else if not (is_within_business_hours env.clock org.watchdog_business_hours)
    then skip "outside_business_hours" c.id st
    else if rests c.status
    then skip (String.◌++◌ "status_" (status_name c.status)) c.id st
    else if forced_off c.ai_enabled
    then skip "ai_disabled_by_human" c.id (notify_assignee env c "ai_disabled_by_human" st)
    else if is_unanswered c.id st.messages
    then attempt env scheduled c org st
    else skip "last_message_outbound" c.id st

-- The organisation is included in the query, which fails without it.
unfoldable pub check_in : Env → ℕ → Conversation → Option Organization → Store → Answer
unfolding check
check_in env scheduled c none st = (
  err (
      failed
        "Inconsistent query result: Field organization is required to return data, got `null` instead."),
  st,
)
check_in env scheduled c (some org) st = check env scheduled c org st

unfoldable pub check_found : Env → ℕ → Option Conversation → Store → Answer
unfolding check_in
check_found env scheduled none st = (ok (skipped "conversation_not_found"), st)
check_found env scheduled (some c) st =
    check_in env scheduled c (find_unique (λ o. o.id) c.organization_id st.routing.organizations) st

-- `process`, for a check
unfoldable pub process : Env → JobData → Store → Answer
unfolding check_found
process env job st =
    check_found env job.scheduled_at_attempts
      (find_unique id_of job.conversation_id st.conversations) st
