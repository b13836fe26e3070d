-- ===== src/Conversation/Fsm.antt =====
-- The conversation state machine
-- (src/modules/messaging/conversations/conversation-fsm.service.ts).
pub mod Outcome
pub mod History
pub mod Stamps
pub mod Trail
pub mod Emits
pub mod Graph
pub mod Tests
use chat_intelli_api.Base.{
  ℕ, ◌+◌, String, Bool, true, false, not, ◌&&◌, Option, none, some, List, [], ◌∷◌, ◌++◌, any,
  is_empty, is_none, or_else, same_id, if◌then◌else◌,
}
use chat_intelli_api.Base.Table.{find_unique, update_key}
use chat_intelli_api.Base.Exec.{
  Failure, not_found, bad_request, failed, Result, ok, err, Exec, pure, throw, transaction, settle,
  resume, ◌>>=◌, ◌>>◌,
}
use chat_intelli_api.Json.{Json, obj, end}
use chat_intelli_api.Events.{Payload, status_changed, assigned}
use chat_intelli_api.Outbox
use chat_intelli_api.Outbox.{Event, Fresh, no_options}
use chat_intelli_api.Conversation.{
  Status, pending, bot, open_status, waiting, closed, same_status, status_name, Conversation, id_of,
  AuditAction, status_change, assignment, AuditLog, Database,
}
use chat_intelli_api.Ratings.{request_rating}

-- VALID_TRANSITIONS
abbrev pub valid_transitions : List (Status × Status)
valid_transitions =
    (pending, open_status)
    ∷ (pending, bot)
    ∷ (pending, closed)
    ∷ (bot, pending)
    ∷ (open_status, waiting)
    ∷ (open_status, closed)
    ∷ (waiting, open_status)
    ∷ (waiting, closed)
    ∷ (closed, open_status)
    ∷ (closed, pending)
    ∷ []

abbrev matches : Status → Status → Status × Status → Bool
matches from to (a, b) = same_status a from && same_status b to

unfoldable pub can_transition : Status → Status → Bool
can_transition from to = any (matches from to) valid_transitions

-- What the runtime supplies to one call: the time, and for each statement of the transaction the
-- error with which it fails, if it does; the outbox rows' ids and UUIDs; the rating's token. The metadata are
-- the last argument of `transition`.
pub record Env : Type 0 where
  pub now : ℕ
  pub update_fault : Option String
  pub audit_fault : Option String
  pub first_event : Fresh
  pub second_event : Fresh
  pub rating_token : String
  pub rating_fault : Option String
  pub metadata : Json

-- A statement that fails with the given error, if any, before it writes.
abbrev pub guarded : Option String → (Database → Database) → Exec Database (Unit {0})
guarded none write db = (ok tt, write db)
guarded (some m) write db = (err (failed m), db)

abbrev pub write_conversation : String → (Conversation → Conversation) → Database → Database
write_conversation id f db = record db { conversations = update_key id_of id f db.conversations }

abbrev pub write_audit : AuditLog → Database → Database
write_audit a db = record db { audit_logs = db.audit_logs ++ a ∷ [] }

-- These events have no key, so that their inserts abort no transaction.
abbrev pub after_enqueue : Result (List Event) → Database → Result (Unit {0}) × Database
after_enqueue (ok es) db = (ok tt, record db { outbox = es })
after_enqueue (err e) db = (err e, db)

unfoldable pub emit : Payload → Fresh → Exec Database (Unit {0})
emit p fresh db = after_enqueue (Outbox.enqueue p no_options fresh db.outbox) db

-- `conversation.findUniqueOrThrow`
abbrev row_or_throw : String → Option Conversation → Exec Database Conversation
row_or_throw id none db = (err (not_found id), db)
row_or_throw id (some c) db = (ok c, db)

abbrev load : String → Exec Database Conversation
load id db = row_or_throw id (find_unique id_of id db.conversations) db

-- The `updateData` of `transition`.
abbrev stamp_close : ℕ → Status → Conversation → Conversation
stamp_close now closed c = record c { closed_at = some now }
stamp_close now _ c = c

abbrev is_closed : Status → Bool
is_closed closed = true
is_closed _ = false

abbrev stamp_reopen : ℕ → Status → Conversation → Conversation
stamp_reopen now to c =
    if is_closed c.status && not (is_closed to)
    then record c {
      closed_at = none;
      reopened_at = some now;
      reopened_count = c.reopened_count + 1;
    }
    else c

abbrev set_status : Status → Conversation → Conversation
set_status to c = record c { status = to }

abbrev pub moved : ℕ → Status → Conversation → Conversation
moved now to c = set_status to (stamp_reopen now to (stamp_close now to c))

abbrev pub change_log : Option String → Conversation → Status → AuditLog
change_log actor c to = record {
  conversation_id = c.id;
  actor_id = actor;
  action = status_change;
  from_value = some (status_name c.status);
  to_value = some (status_name to);
  metadata = obj end;
}

-- `metadata: metadata || {}`
abbrev pub move_log : Env → Option String → Conversation → Status → AuditLog
move_log env actor c to = record (change_log actor c to) { metadata = env.metadata }

abbrev pub change_event : Option String → Conversation → Status → Payload
change_event actor c to = record {
  organization_id = c.organization_id;
  contact_id = c.contact_id;
  conversation_id = some c.id;
  channel_id = some c.channel_id;
  actor_id = actor;
  details = status_changed (status_name c.status) (status_name to);
}

-- `requestRating` runs behind the transaction, and its failure is only logged.
abbrev ask_rating : Env → String → Status → Database → Database
ask_rating env id closed db = elim env.rating_fault [
  | none ↦ request_rating id env.rating_token db
  | some _ ↦ db
]
ask_rating env id _ db = db

-- The transaction of `transition`.
move_tx : Env → Conversation → Status → Option String → Exec Database (Unit {0})
unfolding emit
move_tx env c to actor =
    guarded env.update_fault (write_conversation c.id (moved env.now to))
    >> guarded env.audit_fault (write_audit (move_log env actor c to))
    >> emit (change_event actor c to) env.first_event

abbrev invalid : Status → Status → Failure
invalid from to =
    bad_request
      (Outbox.join ("Invalid transition: " ∷ status_name from ∷ " → " ∷ status_name to ∷ []))

move_checked : Env → Status → Option String → Conversation → Exec Database (Unit {0})
unfolding move_tx
move_checked env to actor c db =
    if can_transition c.status to
    then (transaction (move_tx env c to actor) >>= λ _ after. (ok tt, ask_rating env c.id to after))
        db
    else (err (invalid c.status to), db)

unfoldable pub transition : Env → String → Status → Option String → Exec Database (Unit {0})
unfolding move_checked
transition env id to actor = load id >>= move_checked env to actor

-- `assign`
abbrev pub will_open : Conversation → Bool
will_open c = same_status c.status pending

abbrev pub assigned_to : ℕ → String → Conversation → Conversation
assigned_to now agent c =
    if same_status c.status pending
    then record c {
      assigned_to_id = some agent;
      status = open_status;
      first_response_at = some (or_else c.first_response_at now);
    }
    else record c { assigned_to_id = some agent }

-- `actorId || agentId`
abbrev pub actor_or : Option String → String → String
actor_or none agent = agent
actor_or (some a) agent = if is_empty a then agent else a

abbrev pub assign_log : String → Conversation → String → AuditLog
assign_log actor c agent = record {
  conversation_id = c.id;
  actor_id = some actor;
  action = assignment;
  from_value = c.assigned_to_id;
  to_value = some agent;
  metadata = obj end;
}

abbrev pub assign_event : String → Conversation → String → Payload
assign_event actor c agent = record {
  organization_id = c.organization_id;
  contact_id = c.contact_id;
  conversation_id = some c.id;
  channel_id = some c.channel_id;
  actor_id = some actor;
  details = assigned c.assigned_to_id agent;
}

-- A statement that the transaction makes only under a test.
abbrev pub when : Bool → Exec Database (Unit {0}) → Exec Database (Unit {0})
when true m = m
when false m = pure tt

-- The writes of the transaction of `assign`, and its events.
unfoldable pub assign_writes : Env → Conversation → String → String → Exec Database (Unit {0})
assign_writes env c agent by =
    guarded env.update_fault (write_conversation c.id (assigned_to env.now agent))
    >> guarded env.audit_fault (write_audit (assign_log by c agent))
    >> when (will_open c)
        (guarded env.audit_fault (write_audit (change_log (some by) c open_status)))

unfoldable pub assign_emits : Env → Conversation → String → String → Exec Database (Unit {0})
unfolding emit
assign_emits env c agent by =
    when (not (same_id c.assigned_to_id (some agent)))
      (emit (assign_event by c agent) env.first_event)
    >> when (will_open c) (emit (change_event (some by) c open_status) env.second_event)

unfoldable pub assign_tx : Env → Conversation → String → String → Exec Database (Unit {0})
unfolding assign_writes assign_emits
assign_tx env c agent by = assign_writes env c agent by >> assign_emits env c agent by

unfoldable pub assign : Env → String → String → Option String → Exec Database (Unit {0})
unfolding assign_tx
assign env id agent actor =
    load id >>= λ c. transaction (assign_tx env c agent (actor_or actor agent))
