-- ===== src/Conversation/Fsm/Tests.antt =====
-- Calls on a database of one pending conversation.
use chat_intelli_api.Base.{String, true, false, ◌≡◌, ◌⊎◌, refl, none, some, List, [], ◌∷◌, arith}
use chat_intelli_api.Base.Table.{find_unique}
use chat_intelli_api.Base.Exec.{Failure, ok, err}
use chat_intelli_api.Json.{obj, end}
use chat_intelli_api.Outbox
use chat_intelli_api.Outbox.{Event, Fresh, derive_dedup_key}
use chat_intelli_api.Conversation.{
  pending, open_status, waiting, closed, Conversation, Database, id_of,
}
use chat_intelli_api.Conversation.Fsm.{
  Env, can_transition, transition, assign, ask_rating, emit, assign_tx, assign_writes, assign_emits,
}
use chat_intelli_api.Conversation.Fsm.Outcome.{after_move, Emits, transition_outcome}
use chat_intelli_api.Conversation.Fsm.History.{Call, move, give, run}
use chat_intelli_api.Conversation.Fsm.Stamps.{AreStamped, run-AreStamped}
use chat_intelli_api.Conversation.Fsm.Trail.{HasTrail, replay, run-HasTrail}

abbrev pub talk : Conversation
talk = record {
  id = "c1";
  organization_id = "org";
  channel_id = "ch";
  contact_id = "ana";
  assigned_to_id = none;
  status = pending;
  last_message_at = none;
  first_response_at = none;
  closed_at = none;
  reopened_at = none;
  reopened_count = 0;
  deleted_at = none;
  ai_enabled = none;
  active_agent_id = none;
  stuck_attempts = 0;
  last_watchdog_check_at = none;
  watchdog_job_id = none;
  is_stuck = false;
  department_id = none;
}

abbrev pub database : Database
database = record { conversations = talk ∷ []; audit_logs = []; outbox = []; ratings = [] }

abbrev pub env : Env
env = record {
  now = 100;
  update_fault = none;
  audit_fault = none;
  first_event = record { id = "e1"; now = 100; uuid = "u1"; fault = none };
  second_event = record { id = "e2"; now = 100; uuid = "u2"; fault = none };
  rating_token = "t1";
  rating_fault = none;
  metadata = obj end;
}

abbrev calls : List Call
calls =
    give env "c1" "bia" none
    ∷ move env "c1" closed (some "bia")
    ∷ move env "c1" waiting none
    ∷ move env "c1" open_status none
    ∷ []

abbrev from_pending : String → String
from_pending id = "PENDING"

found : find_unique id_of "c1" database.conversations ≡ some talk
unfolding find_unique
found = refl

assigned_database : Database
assigned_database = (assign env "c1" "bia" none database).1

assigns : assign env "c1" "bia" none database ≡ (ok tt, assigned_database)
unfolding assign assign_tx assign_writes assign_emits emit find_unique assigned_database
    Outbox.enqueue derive_dedup_key
assigns = refl

transition_outcome_example :
    ((e : Failure) × (transition env "c1" closed none database ≡ (err e, database)))
    ⊎ ((c : Conversation) × (es : List Event) × (find_unique id_of "c1" database.conversations
          ≡ some c)
        × (can_transition c.status closed ≡ true)
        × Emits env c closed none database es
        × (transition env "c1" closed none database
            ≡ (ok tt, ask_rating env c.id closed (after_move env c closed none es database))))
transition_outcome_example = transition_outcome env "c1" closed none database

run-AreStamped_example : AreStamped (run calls database)
run-AreStamped_example = run-AreStamped calls database ((refl, λ h. absurd (omega arith)), tt)

at_start : HasTrail from_pending database
unfolding find_unique replay
at_start j c h = ground arith

run-HasTrail_example : HasTrail from_pending (run calls database)
run-HasTrail_example = run-HasTrail from_pending calls database at_start
