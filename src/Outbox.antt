-- ===== src/Outbox.antt =====
-- The transactional outbox: its rows and `enqueue`
-- (src/modules/automations/outbox/outbox.service.ts, model OutboxEvent of prisma/schema.prisma).
pub mod Keys
pub mod Dedup
pub mod Poller
mod Tests
use Prim.Native.String
use chat_intelli_api.Base.{
  ℕ, String, Bool, false, true, ◌||◌, Option, none, some, List, [], ◌∷◌, ◌++◌, ◌==◌, any, is_empty,
  or_else, if◌then◌else◌,
}
use chat_intelli_api.Base.Exec.{Failure, failed, Result, ok, err}
use chat_intelli_api.Events.{
  Trigger, TagTarget, Details, Payload, conversation, contact, tagged, untagged, received,
  status_changed, assigned, trigger_of, trigger_name, target_name,
}

pub data Status : Type 0 where
  pending processing processed failed_status dlq : Status

pub record Event : Type 0 where
  pub id : String
  pub organization_id : String
  pub trigger : Trigger
  pub payload : Payload
  pub dedup_key : Option String
  pub trace_id : String
  pub cascade_depth : ℕ
  pub actor_id : Option String
  pub status : Status
  pub attempt_count : ℕ
  pub last_error : Option String
  pub leased_by : Option String
  pub leased_until : Option ℕ
  pub created_at : ℕ
  pub processed_at : Option ℕ

-- `EnqueueOptions`; `undefined`, `null` and a text are told apart in `dedupKey`.
pub data DedupOption : Type 0 where
  derived : DedupOption
  given : Option String → DedupOption

pub record EnqueueOptions : Type 0 where
  pub trace_id : Option String
  pub cascade_depth : Option ℕ
  pub dedup_key : DedupOption

abbrev pub no_options : EnqueueOptions
no_options = record { trace_id = none; cascade_depth = none; dedup_key = derived }

-- What the database and the runtime supply to one call: the new row's id and time, a random UUID,
-- and the error of the insert, if it fails for another reason than the unique index.
pub record Fresh : Type 0 where
  pub id : String
  pub now : ℕ
  pub uuid : String
  pub fault : Option String

abbrev pub join : List String → String
join [] = ""
join (s ∷ ss) = String.◌++◌ s (join ss)

-- `undefined` in a template text
abbrev pub shown : Option String → String
shown none = "undefined"
shown (some s) = s

abbrev pub target_id : TagTarget → Payload → String
target_id conversation p = shown p.conversation_id
target_id contact p = p.contact_id

abbrev pub tag_key : Trigger → TagTarget → String → Payload → String
tag_key trigger target tag p =
    join
      (trigger_name trigger ∷ ":" ∷ target_name target ∷ ":" ∷ target_id target p ∷ ":" ∷ tag ∷ [])

abbrev pub key_of : Details → Payload → Option String
key_of (tagged tag target) p = some (tag_key Trigger.tag_added target tag p)
key_of (untagged tag target) p = some (tag_key Trigger.tag_removed target tag p)
key_of (received message _ _ _) p = some (join ("MESSAGE_RECEIVED" ∷ ":" ∷ message ∷ []))
key_of (status_changed _ _) p = none
key_of (assigned _ _) p = none

-- `deriveDedupKey`
unfoldable pub derive_dedup_key : Payload → Option String
derive_dedup_key p = key_of p.details p

abbrev pub chosen_key : DedupOption → Payload → Option String
chosen_key derived p = derive_dedup_key p
chosen_key (given k) p = k

-- Whether the unique index on `dedup_key` refuses a row: NULL is never a duplicate.
abbrev pub has_key : String → Event → Bool
has_key k e = elim e.dedup_key [ none ↦ false | some j ↦ j == k ]

abbrev pub taken : Option String → List Event → Bool
taken none es = false
taken (some k) es = any (has_key k) es

abbrev pub new_event : Payload → EnqueueOptions → Fresh → Event
new_event p o fresh = record {
  id = fresh.id;
  organization_id = p.organization_id;
  trigger = trigger_of p.details;
  payload = p;
  dedup_key = chosen_key o.dedup_key p;
  trace_id = or_else o.trace_id fresh.uuid;
  cascade_depth = or_else o.cascade_depth 0;
  actor_id = p.actor_id;
  status = pending;
  attempt_count = 0;
  last_error = none;
  leased_by = none;
  leased_until = none;
  created_at = fresh.now;
  processed_at = none;
}

-- Whether the insert breaks the unique index. The error is caught, but PostgreSQL has aborted the
-- transaction that the insert stands in, and its `COMMIT` rolls back what else was written in it.
abbrev pub aborts : Payload → EnqueueOptions → List Event → Bool
aborts p o es = taken (chosen_key o.dedup_key p) es

abbrev pub missing_organization : Trigger → String
missing_organization t = join ("Outbox payload missing organizationId for " ∷ trigger_name t ∷ [])

abbrev pub missing_contact : Trigger → String
missing_contact t = join (
    "Outbox payload missing contactId for "
    ∷ trigger_name t
    ∷ " — every event MUST resolve to a contact"
    ∷ [])

-- `outboxEvent.create` with the `catch` behind it: a duplicate is skipped, any other error is
-- thrown again.
insert_event : Event → Option String → List Event → Result (List Event)
insert_event e (some message) es = err (failed message)
insert_event e none es = if taken e.dedup_key es then ok es else ok (es ++ e ∷ [])

unfoldable pub enqueue : Payload → EnqueueOptions → Fresh → List Event → Result (List Event)
unfolding insert_event derive_dedup_key
enqueue p o fresh es =
    if is_empty p.organization_id
    then err (failed (missing_organization (trigger_of p.details)))
    else if is_empty p.contact_id
    then err (failed (missing_contact (trigger_of p.details)))
    else insert_event (new_event p o fresh) fresh.fault es
