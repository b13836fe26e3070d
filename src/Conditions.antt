-- ===== src/Conditions.antt =====
-- The conditions of an automation: operators, and the fields of a trigger
-- (src/modules/automations/engine/conditions-evaluator.ts).
pub mod Operators
pub mod Validator
pub mod Evaluate
use Prim.Native.Char.{code}
use Prim.Native.String
use chat_intelli_api.Base.{
  ℕ, String, Bool, true, false, not, ◌&&◌, ◌||◌, Option, none, some, List, [], ◌∷◌, ◌==◌, eqb, any,
  all, if◌then◌else◌,
}
use chat_intelli_api.Base.Texts.{includes}
use chat_intelli_api.Base.Exec.{Failure, failed, Result, ok, err}
use chat_intelli_api.Json.{
  Json, Items, Fields, undefined, null, bool, num, str, arr, obj, nil, cons, end, field, items, get,
  strict_equal, is_falsy, key_of,
}
use chat_intelli_api.Events.{
  Trigger, TagTarget, Details, Payload, tagged, untagged, received, status_changed, assigned,
  target_name,
}

-- ConditionOperator
pub data Operator : Type 0 where
  equals not_equals contains_text not_contains in_list not_in is_set is_not_set : Operator

abbrev pub operator_of : String → Option Operator
operator_of s =
    if s == "equals"
    then some equals
    else if s == "not_equals"
    then some not_equals
    else if s == "contains"
    then some contains_text
    else if s == "not_contains"
    then some not_contains
    else if s == "in"
    then some in_list
    else if s == "not_in"
    then some not_in
    else if s == "is_set"
    then some is_set
    else if s == "is_not_set"
    then some is_not_set
    else none

-- The value is null, undefined or the empty text.
abbrev pub is_blank : Json → Bool
is_blank undefined = true
is_blank null = true
is_blank (str s) = s == ""
is_blank _ = false

module _ (lower : String → String) where
  unfoldable pub text_contains : Json → Json → Bool
  unfolding includes
  text_contains (str a) (str b) = includes (lower a) (lower b)
  text_contains _ _ = false

  unfoldable pub text_not_contains : Json → Json → Bool
  unfolding includes
  text_not_contains (str a) (str b) = not (includes (lower a) (lower b))
  text_not_contains _ _ = true

unfoldable pub list_has : Json → Json → Bool
list_has actual (arr xs) = any (λ x. strict_equal x actual) (items xs)
list_has actual _ = false

unfoldable pub list_lacks : Json → Json → Bool
list_lacks actual (arr xs) = not (any (λ x. strict_equal x actual) (items xs))
list_lacks actual _ = true

-- `applyOperator`
unfoldable pub apply_operator : (String → String) → Operator → Json → Json → Bool
unfolding text_contains text_not_contains list_has list_lacks
apply_operator lower equals actual expected = strict_equal actual expected
apply_operator lower not_equals actual expected = not (strict_equal actual expected)
apply_operator lower contains_text actual expected = text_contains lower actual expected
apply_operator lower not_contains actual expected = text_not_contains lower actual expected
apply_operator lower in_list actual expected = list_has actual expected
apply_operator lower not_in actual expected = list_lacks actual expected
apply_operator lower is_set actual expected = not (is_blank actual)
apply_operator lower is_not_set actual expected = is_blank actual

-- The `switch` has no default: an operator that it does not know is as good as false.
unfoldable pub apply_named : (String → String) → Option Operator → Json → Json → Bool
unfolding apply_operator
apply_named lower none actual expected = false
apply_named lower (some op) actual expected = apply_operator lower op actual expected

-- An optional id that is left out, and one that is null.
abbrev or_undefined : Option String → Json
or_undefined none = undefined
or_undefined (some s) = str s

abbrev or_null : Option String → Json
or_null none = null
or_null (some s) = str s

-- The property of the details with a name, `undefined` for the payloads of other triggers.
abbrev detail : String → Details → Json
detail name (tagged tag target) =
    if name == "tagId"
    then str tag
    else if name == "target"
    then str (target_name target)
    else undefined
detail name (untagged tag target) =
    if name == "tagId"
    then str tag
    else if name == "target"
    then str (target_name target)
    else undefined
detail name (received message body type attached) =
    if name == "body"
    then or_null body
    else if name == "type"
    then str type
    else if name == "hasAttachment"
    then bool attached
    else undefined
detail name (status_changed from to) =
    if name == "fromStatus" then str from else if name == "toStatus" then str to else undefined
detail name (assigned from to) =
    if name == "fromAssigneeId"
    then or_null from
    else if name == "toAssigneeId"
    then str to
    else undefined

-- The names that a trigger has fields for, beside those of every trigger.
abbrev own_names : Trigger → List String
own_names Trigger.tag_added = "tagId" ∷ "target" ∷ []
own_names Trigger.tag_removed = "tagId" ∷ "target" ∷ []
own_names Trigger.message_received = "body" ∷ "type" ∷ "hasAttachment" ∷ []
own_names Trigger.conversation_status_changed = "fromStatus" ∷ "toStatus" ∷ []
own_names Trigger.conversation_assigned = "fromAssigneeId" ∷ "toAssigneeId" ∷ []

-- FIELDS_BY_TRIGGER: the value of a field that is registered.
unfoldable pub own_field : Trigger → String → Option (Payload → Json)
own_field trigger name =
    if name == "contactId"
    then some (λ p. str p.contact_id)
    else if name == "conversationId"
    then some (λ p. or_undefined p.conversation_id)
    else if name == "channelId"
    then some (λ p. or_undefined p.channel_id)
    else if any (λ n. n == name) (own_names trigger)
    then some (λ p. detail name p.details)
    else none

-- A `TypeError`, whose text is left to the runtime.
abbrev pub type_error : {A : Type 0} → Result A
type_error = err (failed "TypeError")

-- What a plain object inherits from `Object.prototype`, and what a bare call of it with an object
-- for an argument gives, `this` being undefined: `constructor` returns an object, `toString` a
-- text; the other methods throw, and `__proto__` is no function.
abbrev throwing : List String
throwing =
    "valueOf" ∷ "toLocaleString" ∷ "hasOwnProperty" ∷ "isPrototypeOf" ∷ "propertyIsEnumerable"
    ∷ "__defineGetter__" ∷ "__defineSetter__" ∷ "__lookupGetter__" ∷ "__lookupSetter__"
    ∷ "__proto__" ∷ []

unfoldable pub inherited : String → Option (Result Json)
inherited name =
    if name == "constructor"
    then some (ok (obj end))
    else if name == "toString"
    then some (ok (str "[object Undefined]"))
    else if any (λ n. n == name) throwing
    then some type_error
    else none

abbrev pub own_or : Option (Payload → Json) → Option (Result Json) → Payload → Option (Result Json)
own_or (some f) inherits p = some (ok (f p))
own_or none inherits p = inherits

-- `fields[name]`, called on the payload: `none` if there is nothing of the name.
unfoldable pub resolve : Trigger → String → Payload → Option (Result Json)
unfolding own_field inherited
resolve trigger name p = own_or (own_field trigger name) (inherited name) p
