-- ===== src/Outbox/Poller.antt =====
-- The outbox poller (src/modules/automations/outbox/outbox-poller.service.ts) and the worker that
-- settles its rows (src/modules/automations/workers/automation-event.processor.ts).
pub mod Lease
pub mod Fate
pub mod Settle
mod Tests
use Prim.Native.String
use chat_intelli_api.Base.{
  any, ℕ, zero, suc, ◌+◌, String, Bool, false, true, not, ◌&&◌, ◌||◌, Option, none, some, List, [],
  ◌∷◌, ◌++◌, map, ◌==◌, ltb, take, keep, contains, same_id, if◌then◌else◌,
}
use chat_intelli_api.Base.Table.{update_many, update_key, find_unique}
use chat_intelli_api.Base.Order.{order_by}
use chat_intelli_api.Base.Exec.{Failure, not_found, message, Result, ok, err, Exec, ◌>>=◌, ◌>>◌}
use chat_intelli_api.Events.{Trigger, Payload}
use chat_intelli_api.Outbox.{Event, Status, pending, processing, processed}

abbrev pub batch_size : ℕ
batch_size = 50

abbrev pub lease_ttl_ms : ℕ
lease_ttl_ms = 60000

-- `AutomationJobData`
pub record Job : Type 0 where
  pub outbox_event_id : String
  pub organization_id : String
  pub trigger : Trigger
  pub payload : Payload
  pub trace_id : String
  pub cascade_depth : ℕ
  pub visited_automations : List String

-- The rows, and the jobs that the queue keeps: the waiting ones, and those that completed or failed
-- until they are removed.
pub record Engine : Type 0 where
  pub outbox : List Event
  pub jobs : List Job

abbrev expired : Option ℕ → ℕ → Bool
expired none now = false
expired (some until) now = ltb until now

abbrev is_pending : Status → Bool
is_pending pending = true
is_pending _ = false

abbrev is_processing : Status → Bool
is_processing processing = true
is_processing _ = false

-- The WHERE clause of `claimBatch`, on rows that no other transaction has locked.
abbrev pub claimable : (String → Bool) → ℕ → Event → Bool
claimable locked now e =
    not (locked e.id)
    && (is_pending e.status || (is_processing e.status && expired e.leased_until now))

abbrev lease : String → ℕ → Event → Event
lease worker now e = record e {
  status = processing;
  leased_by = some worker;
  leased_until = some (now + lease_ttl_ms);
  attempt_count = e.attempt_count + 1;
}

abbrev candidates : (String → Bool) → ℕ → List Event → List Event
candidates locked now es =
    take batch_size (order_by (λ e. e.created_at) (keep (claimable locked now) es))

pub claimed_ids : (String → Bool) → ℕ → List Event → List String
claimed_ids locked now es = map (λ e. e.id) (candidates locked now es)

abbrev pub in_ids : List String → Event → Bool
in_ids ids e = contains ids e.id

-- `claimBatch`: the rows after it, and the rows that it returns.
pub claim_batch : String → (String → Bool) → ℕ → List Event → List Event × List Event
unfolding claimed_ids
claim_batch worker locked now es =
    let ids = claimed_ids locked now es in
    let rows = update_many (in_ids ids) (lease worker now) es in (rows, keep (in_ids ids) rows)

-- `text.slice(0, n)`
clip : ℕ → String → String
clip zero s = ""
clip (suc n) String.[] = ""
clip (suc n) (String.◌∷◌ c s) = String.◌∷◌ c (clip n s)

abbrev release : String → Event → Event
release message e = record e {
  status = pending;
  leased_by = none;
  leased_until = none;
  attempt_count = e.attempt_count + 1;
  last_error = some (clip 500 message);
}

abbrev pub is_lease_of : String → String → Event → Bool
is_lease_of worker id e = e.id == id && same_id e.leased_by (some worker)

abbrev pub job_of : Event → Job
job_of e = record {
  outbox_event_id = e.id;
  organization_id = e.organization_id;
  trigger = e.trigger;
  payload = e.payload;
  trace_id = e.trace_id;
  cascade_depth = e.cascade_depth;
  visited_automations = [];
}

-- `queue.add` under `jobId: event.id`, which leaves a job of that id as it is.
abbrev pub add_job : Job → List Job → List Job
add_job j jobs =
    if any (λ k. k.outbox_event_id == j.outbox_event_id) jobs then jobs else jobs ++ j ∷ []

-- One round of the loop over the claimed rows, by the error of `queue.add`, if it throws.
pub push_one : String → Option String → Event → Engine → Engine
push_one worker none e s = record s { jobs = add_job (job_of e) s.jobs }
push_one worker (some message) e s = record s {
  outbox = update_many (is_lease_of worker e.id) (release message) s.outbox;
}

pub push_all : String → (Event → Option String) → List Event → Engine → Engine
push_all worker push [] s = s
push_all worker push (e ∷ es) s = push_all worker push es (push_one worker (push e) e s)

abbrev drain : ℕ → Event → Event
drain now e = record e {
  status = processed;
  processed_at = some now;
  last_error = some "kill_switch_disabled";
}

-- `tick` behind the claim: with the kill switch off the claimed rows are drained.
after_claim :
    Bool → String → (Event → Option String) → ℕ → Engine → List Event × List Event → Engine
unfolding push_all
after_claim true worker push now s (rows, claimed) =
    push_all worker push claimed (record s { outbox = rows })
after_claim false worker push now s (rows, claimed) = record s {
  outbox = update_many (in_ids (map (λ e. e.id) claimed)) (drain now) rows;
}

pub tick : Bool → String → (String → Bool) → (Event → Option String) → ℕ → Engine → Engine
unfolding claim_batch after_claim
tick enabled worker locked push now s =
    after_claim enabled worker push now s (claim_batch worker locked now s.outbox)

abbrev mark : ℕ → Option String → Event → Event
mark now remark e = record e { status = processed; processed_at = some now; last_error = remark }

-- `markProcessed`; `update` throws if the row is not there.
mark_processed : ℕ → String → Option String → Exec (List Event) (Unit {0})
mark_processed now id remark es = elim (find_unique (λ e. e.id) id es) [
  | none ↦ (err (not_found id), es)
  | some _ ↦ (ok tt, update_key (λ e. e.id) id (mark now remark) es)
]

-- The `catch` of `process`: the row keeps its status and notes the error, which is thrown again.
note_failure : String → Result (Unit {0}) × List Event → Result (Unit {0}) × List Event
note_failure id (ok a, es) = (ok a, es)
note_failure id (err e, es) = (
  err e,
  update_many (λ r. r.id == id) (λ r. record r { last_error = some (clip 500 (message e)) }) es,
)

-- `process` of the worker; `execute` is the executor at the job.
pub process : Bool → Exec (List Event) (Unit {0}) → ℕ → String → Exec (List Event) (Unit {0})
unfolding mark_processed note_failure
process enabled execute now id es =
    if enabled
    then note_failure id ((execute >> mark_processed now id none) es)
    else mark_processed now id (some "kill_switch_disabled") es
