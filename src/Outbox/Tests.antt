-- ===== src/Outbox/Tests.antt =====
-- Runs of `enqueue` on concrete payloads.
use chat_intelli_api.Base.{◌≡◌, ◌↔◌, refl, none, some, List, [], ◌∷◌, ◌++◌, arith}
use chat_intelli_api.Base.Exec.{ok}
use chat_intelli_api.Events.{Payload, conversation, contact, tagged}
use chat_intelli_api.Outbox.{
  Event, Fresh, no_options, derived, enqueue, new_event, chosen_key, derive_dedup_key, insert_event,
}
use chat_intelli_api.Outbox.Keys.{SameOccurrence, derive_dedup_key_iff}
use chat_intelli_api.Outbox.Dedup.{HasUniqueKeys, enqueue_again}

abbrev tag_of_contact : Payload
tag_of_contact = record {
  organization_id = "org";
  contact_id = "ana";
  conversation_id = none;
  channel_id = none;
  actor_id = none;
  details = tagged "vip" contact;
}

abbrev tag_of_conversation : Payload
tag_of_conversation = record tag_of_contact {
  conversation_id = some "c1";
  details = tagged "vip" conversation;
}

abbrev first_row : Fresh
first_row = record { id = "e1"; now = 10; uuid = "u1"; fault = none }

abbrev second_row : Fresh
second_row = record { id = "e2"; now = 20; uuid = "u2"; fault = none }

abbrev rows_before : List Event
rows_before = new_event tag_of_conversation no_options second_row ∷ []

abbrev rows_after : List Event
rows_after = rows_before ++ new_event tag_of_contact no_options first_row ∷ []

added : enqueue tag_of_contact no_options first_row rows_before ≡ ok rows_after
unfolding enqueue insert_event derive_dedup_key
added = refl

its_key : chosen_key derived tag_of_contact ≡ some "TAG_ADDED:contact:ana:vip"
unfolding derive_dedup_key
its_key = refl

one_row : HasUniqueKeys rows_before
unfolding derive_dedup_key
one_row = (refl, tt)

derive_dedup_key_iff_example :
    (derive_dedup_key tag_of_contact ≡ derive_dedup_key tag_of_conversation)
    ↔ SameOccurrence
        (tagged "vip" contact)
        tag_of_contact
        (tagged "vip" conversation)
        tag_of_conversation
derive_dedup_key_iff_example =
    derive_dedup_key_iff tag_of_contact tag_of_conversation tt (ground arith) (ground arith)

enqueue_again_example : enqueue tag_of_contact no_options second_row rows_after ≡ ok rows_after
enqueue_again_example =
    enqueue_again tag_of_contact tag_of_contact no_options no_options first_row second_row
      rows_before rows_after "TAG_ADDED:contact:ana:vip" its_key its_key refl refl refl added
