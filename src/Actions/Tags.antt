-- ===== src/Actions/Tags.antt =====
-- The handlers of tags (src/modules/automations/actions/handlers/add-tag.handler.ts,
-- remove-tag.handler.ts).
pub mod Applied
pub mod Again
pub mod Tests
use Prim.Native.String
use chat_intelli_api.Base.{
  String, Bool, true, false, not, ◌&&◌, Option, none, some, List, [], ◌∷◌, ◌++◌, ◌==◌, any, keep,
  or_else, is_empty, if◌then◌else◌,
}
use chat_intelli_api.Base.Exec
use chat_intelli_api.Base.Exec.{Failure, failed, Result, ok, err}
use chat_intelli_api.Base.Table.{find_first}
use chat_intelli_api.Json.{Json, Fields, undefined, bool, str, obj, field, end, get, concat}
use chat_intelli_api.Events.{
  TagTarget, conversation, contact, Details, tagged, untagged, Payload, target_name,
}
use chat_intelli_api.Outbox
use chat_intelli_api.Outbox.{Event, Fresh}
use chat_intelli_api.Automation.{Context, Reply, done}
use chat_intelli_api.Actions.{
  Fault, duplicate, missing, other, Attempt, made, fails, refusal, unexpected, truthy, chained,
}

pub record Tag : Type 0 where
  pub id : String
  pub organization_id : String

-- A row of `conversation_tags` or `contact_tags`, one of each conversation or contact and tag.
pub record Link : Type 0 where
  pub owner_id : String
  pub tag_id : String

pub record Tables : Type 0 where
  pub tags : List Tag
  pub conversation_tags : List Link
  pub contact_tags : List Link
  pub outbox : List Event

-- The error of the write of the link, if it fails for another reason than its key, and what the
-- event gets.
pub record Env : Type 0 where
  pub write_fault : Option String
  pub event : Fresh

-- `AddTagParams`, `RemoveTagParams`
pub record Params : Type 0 where
  pub tag_id : String
  pub target : Option TagTarget

abbrev required : String → Failure
required action = failed (concat (action ∷ ": param \"tagId\" is required (string)" ∷ []))

abbrev bad_target : String → Failure
bad_target action = failed (concat (action ∷ ": \"target\" must be conversation | contact" ∷ []))

-- The targets that are let through, the absent one included.
abbrev target_of : Json → Option (Option TagTarget)
target_of undefined = some none
target_of (str s) =
    if s == "conversation"
    then some (some conversation)
    else if s == "contact"
    then some (some contact)
    else none
target_of _ = none

abbrev with_target : String → String → Option (Option TagTarget) → Result Params
with_target action tag none = err (bad_target action)
with_target action tag (some target) = ok (record { tag_id = tag; target = target })

abbrev with_tag : String → Json → Json → Result Params
with_tag action (str tag) target =
    if is_empty tag then err (required action) else with_target action tag (target_of target)
with_tag action _ target = err (required action)

-- `validateParams`, with the parameters as `execute` casts them.
unfoldable pub validate_params : String → Fields → Result Params
validate_params action params = with_tag action (get "tagId" params) (get "target" params)

abbrev pub same_link : Link → Link → Bool
same_link a b = a.owner_id == b.owner_id && a.tag_id == b.tag_id

abbrev pub has_link : Link → List Link → Bool
has_link l ls = any (same_link l) ls

abbrev pub links_of : TagTarget → Tables → List Link
links_of conversation t = t.conversation_tags
links_of contact t = t.contact_tags

abbrev pub set_links : TagTarget → List Link → Tables → Tables
set_links conversation ls t = record t { conversation_tags = ls }
set_links contact ls t = record t { contact_tags = ls }

-- `conversationTag.create`, `contactTag.create`
abbrev pub insert_link : Option String → Link → List Link → Attempt (List Link)
insert_link (some m) l ls = fails (other m)
insert_link none l ls = if has_link l ls then fails duplicate else made (ls ++ l ∷ [])

-- `conversationTag.delete`, `contactTag.delete`
abbrev pub delete_link : Option String → Link → List Link → Attempt (List Link)
delete_link (some m) l ls = fails (other m)
delete_link none l ls =
    if has_link l ls then made (keep (λ k. not (same_link l k)) ls) else fails missing

abbrev target_for : Option TagTarget → Option String → TagTarget
target_for (some t) conversation_id = t
target_for none none = contact
target_for none (some c) = conversation

-- `p.target ?? (payload.conversationId ? 'conversation' : 'contact')`
abbrev pub target_in : Params → Context → TagTarget
target_in p ctx = target_for p.target (truthy (ctx.payload).conversation_id)

-- The conversation or contact of the event, if it has one.
abbrev pub owner_in : TagTarget → Context → Option String
owner_in conversation ctx = truthy (ctx.payload).conversation_id
owner_in contact ctx = some (ctx.payload).contact_id

abbrev pub event_for : TagTarget → Details → Context → Payload
event_for conversation details ctx = record {
  organization_id = ctx.organization_id;
  contact_id = (ctx.payload).contact_id;
  conversation_id = (ctx.payload).conversation_id;
  channel_id = (ctx.payload).channel_id;
  actor_id = some ctx.actor_id;
  details = details;
}
event_for contact details ctx = record {
  organization_id = ctx.organization_id;
  contact_id = (ctx.payload).contact_id;
  conversation_id = none;
  channel_id = none;
  actor_id = some ctx.actor_id;
  details = details;
}

abbrev pub with_event : TagTarget → List Link → Tables → Bool → Result (List Event) → Attempt Tables
with_event target ls t aborted (err e) = fails (other (Exec.message e))
with_event target ls t true (ok es) = made t
with_event target ls t false (ok es) = made (record (set_links target ls t) { outbox = es })

-- The transaction: the links and the event are written together, or nothing is where the key of the
-- event is taken, which is no error.
abbrev pub with_links :
    Fresh → Context → TagTarget → Details → Tables → Attempt (List Link) → Attempt Tables
with_links fresh ctx target details t (fails f) = fails f
with_links fresh ctx target details t (made ls) =
    let event = event_for target details ctx in
    with_event target ls t (Outbox.aborts event (chained ctx) t.outbox)
      (Outbox.enqueue event (chained ctx) fresh t.outbox)

abbrev pub output : TagTarget → String → Fields → Json
output target tag more =
    obj (field "target" (str (target_name target)) (field "tagId" (str tag) more))

abbrev no_conversation : String → Reply
no_conversation action =
    refusal "invalid_params"
      (concat (action ∷ " target=conversation but event has no conversationId" ∷ []))

abbrev pub already_applied : Fields
already_applied = field "alreadyApplied" (bool true) end

abbrev pub not_present : Fields
not_present = field "notPresent" (bool true) end

-- A tag that is there already counts as added.
abbrev pub add_reply : TagTarget → String → Tables → Attempt Tables → Reply × Tables
add_reply target tag t (made after) = (done (output target tag end), after)
add_reply target tag t (fails duplicate) = (done (output target tag already_applied), t)
add_reply target tag t (fails f) = (unexpected f, t)

-- A tag that is not there counts as removed.
abbrev pub remove_reply : TagTarget → String → Tables → Attempt Tables → Reply × Tables
remove_reply target tag t (made after) = (done (output target tag end), after)
remove_reply target tag t (fails missing) = (done (output target tag not_present), t)
remove_reply target tag t (fails f) = (unexpected f, t)

module _ (env : Env) (p : Params) (ctx : Context) where
  abbrev pub add_to : TagTarget → Option String → Tables → Reply × Tables
  add_to target none t = (no_conversation "add_tag", t)
  add_to target (some owner) t = add_reply target p.tag_id t (
      with_links env.event ctx target (tagged p.tag_id target) t (
        insert_link env.write_fault (record { owner_id = owner; tag_id = p.tag_id })
          (links_of target t)))

  abbrev pub add_found : Option Tag → Tables → Reply × Tables
  add_found none t =
      (refusal "invalid_ref" (concat ("tag " ∷ p.tag_id ∷ " not found in org" ∷ [])), t)
  add_found (some tag) t = add_to (target_in p ctx) (owner_in (target_in p ctx) ctx) t

  -- `AddTagHandler.execute`
  unfoldable pub add_tag : Tables → Reply × Tables
  add_tag t =
      add_found
        (find_first (λ g. g.id == p.tag_id && g.organization_id == ctx.organization_id) t.tags) t

  abbrev pub remove_from : TagTarget → Option String → Tables → Reply × Tables
  remove_from target none t = (no_conversation "remove_tag", t)
  remove_from target (some owner) t = remove_reply target p.tag_id t (
      with_links env.event ctx target (untagged p.tag_id target) t (
        delete_link env.write_fault (record { owner_id = owner; tag_id = p.tag_id })
          (links_of target t)))

  -- `RemoveTagHandler.execute`
  unfoldable pub remove_tag : Tables → Reply × Tables
  remove_tag t = remove_from (target_in p ctx) (owner_in (target_in p ctx) ctx) t
