-- ===== src/Outbox/Poller/Tests.antt =====
-- A tick and a job over two rows.
use chat_intelli_api.Base.{
  String, Bool, true, false, ◌≡◌, ◌⊎◌, refl, Option, none, some, List, [], ◌∷◌, arith, All,
  contains,
}
use chat_intelli_api.Base.Table.{update_key, find_unique}
use chat_intelli_api.Base.Exec.{failed, ok, err, Exec}
use chat_intelli_api.Events.{Payload, contact, tagged}
use chat_intelli_api.Outbox.{Event, no_options, new_event}
use chat_intelli_api.Outbox.Poller.{
  Engine, claimed_ids, claim_batch, tick, process, mark, mark_processed, note_failure,
}
use chat_intelli_api.Outbox.Poller.Lease.{claim_batch_exclusive}
use chat_intelli_api.Outbox.Poller.Fate.{IsReleased, IsQueued, tick-loses_none}
use chat_intelli_api.Outbox.Poller.Settle.{id_of}

abbrev payload : Payload
payload = record {
  organization_id = "org";
  contact_id = "ana";
  conversation_id = none;
  channel_id = none;
  actor_id = none;
  details = tagged "vip" contact;
}

abbrev row : String → Event
row id = new_event payload no_options (record { id = id; now = 10; uuid = "u"; fault = none })

abbrev two_rows : List Event
two_rows = row "e1" ∷ row "e2" ∷ []

abbrev unlocked : String → Bool
unlocked id = false

abbrev engine : Engine
engine = record { outbox = two_rows; jobs = [] }

abbrev queue_down : Event → Option String
queue_down e = some "queue is down"

abbrev quiet : Exec (List Event) (Unit {0})
quiet es = (ok tt, es)

abbrev locked_contact : Exec (List Event) (Unit {0})
locked_contact es = (err (failed "contact ana locked — will retry"), es)

abbrev settled_rows : List Event
settled_rows = update_key id_of "e1" (mark 30 none) two_rows

settles : process true quiet 30 "e1" two_rows ≡ (ok tt, settled_rows)
unfolding process mark_processed note_failure find_unique
settles = refl

abbrev noted_rows : List Event
noted_rows = (process true locked_contact 30 "e1" two_rows).1

throws :
    process true locked_contact 30 "e1" two_rows
    ≡ (err (failed "contact ana locked — will retry"), noted_rows)
unfolding process note_failure
throws = refl

claim_batch_exclusive_example :
    All
      (λ id. contains (claimed_ids unlocked 20 two_rows) id ≡ false)
      (claimed_ids unlocked 60020 (claim_batch "w1" unlocked 20 two_rows).0)
claim_batch_exclusive_example =
    claim_batch_exclusive "w1" unlocked unlocked 20 60020 two_rows (omega arith)

tick-loses_none_example :
    All
      (λ e.
        contains (claimed_ids unlocked 20 two_rows) e.id ≡ true
        → IsReleased e ⊎ IsQueued (tick true "w1" unlocked queue_down 20 engine).jobs e)
      (tick true "w1" unlocked queue_down 20 engine).outbox
tick-loses_none_example = tick-loses_none "w1" unlocked queue_down 20 engine
