-- ===== src/Actions/Tags/Tests.antt =====
-- A tag that a rule puts on a conversation, twice, and takes away again.
use chat_intelli_api.Base.{false, none, some, [], ◌∷◌, ◌≡◌, refl}
use chat_intelli_api.Base.Exec.{ok}
use chat_intelli_api.Base.Table.{find_first}
use chat_intelli_api.Json.{Json, str, field, end, get}
use chat_intelli_api.Events.{conversation, tagged, untagged}
use chat_intelli_api.Outbox
use chat_intelli_api.Outbox.{Fresh, Event, derive_dedup_key, new_event}
use chat_intelli_api.Automation.{Context, done}
use chat_intelli_api.Actions.{chained}
use chat_intelli_api.Actions.Tags.{
  Tables, Env, Params, Link, validate_params, event_for, output, add_tag, remove_tag,
}
use chat_intelli_api.Actions.Tags.Applied.{aborted}
use chat_intelli_api.Actions.Tags.Again.{SameLinks, add_tag_again, remove_tag-add_tag}

abbrev pub context : Context
context = record {
  organization_id = "org";
  payload = record {
    organization_id = "org";
    contact_id = "ana";
    conversation_id = some "c1";
    channel_id = some "ch";
    actor_id = none;
    details = tagged "cold" conversation;
  };
  trace_id = "trace";
  cascade_depth = 1;
  visited_automations = [];
  actor_id = "bia";
}

abbrev hot : Params
hot = record { tag_id = "hot"; target = none }

abbrev env : Env
env = record {
  write_fault = none;
  event = record { id = "e1"; now = 7; uuid = "u1"; fault = none };
}

abbrev next : Env
next = record {
  write_fault = none;
  event = record { id = "e2"; now = 9; uuid = "u2"; fault = none };
}

abbrev before : Tables
before = record {
  tags = record { id = "hot"; organization_id = "org" } ∷ [];
  conversation_tags = record { owner_id = "c2"; tag_id = "hot" } ∷ [];
  contact_tags = [];
  outbox = [];
}

abbrev link : Link
link = record { owner_id = "c1"; tag_id = "hot" }

added : Event
added =
    new_event (event_for conversation (tagged "hot" conversation) context) (chained context)
      (env.event)

removed : Event
removed =
    new_event (event_for conversation (untagged "hot" conversation) context) (chained context)
      (next.event)

with_tag : Tables
with_tag = record before {
  conversation_tags = record { owner_id = "c2"; tag_id = "hot" } ∷ link ∷ [];
  outbox = added ∷ [];
}

without : Tables
without = record before { outbox = added ∷ removed ∷ [] }

adds : add_tag env hot context before ≡ (done (output conversation "hot" end), with_tag)
unfolding add_tag find_first Outbox.enqueue derive_dedup_key with_tag added
adds = refl

removes : remove_tag next hot context with_tag ≡ (done (output conversation "hot" end), without)
unfolding remove_tag Outbox.enqueue derive_dedup_key with_tag added without removed
removes = refl

reads :
    validate_params "add_tag" (field "tagId" (str "hot") (field "target" (str "conversation") end))
    ≡ ok (record { tag_id = "hot"; target = some conversation })
unfolding validate_params get
reads = refl

add_tag_again_example :
    (again : Json) × (add_tag next hot context with_tag ≡ (done again, with_tag))
add_tag_again_example =
    add_tag_again env next hot context before with_tag (output conversation "hot" end) refl refl
      adds

free : aborted context conversation (untagged "hot" conversation) with_tag ≡ false
unfolding with_tag added derive_dedup_key
free = refl

remove_tag-add_tag_example : SameLinks before without
remove_tag-add_tag_example =
    remove_tag-add_tag env next hot context before with_tag without "c1"
      (output conversation "hot" end) (output conversation "hot" end) refl refl free adds removes
