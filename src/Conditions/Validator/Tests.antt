-- ===== src/Conditions/Validator/Tests.antt =====
-- Conditions on the event of a tag.
use chat_intelli_api.Base.{String, ◌≡◌, refl, none, some}
use chat_intelli_api.Base.Exec.{failed, ok, err}
use chat_intelli_api.Json.{Json, str, arr, obj, nil, cons, end, field, get, has}
use chat_intelli_api.Events.{Trigger, Payload, contact, tagged}
use chat_intelli_api.Conditions.{own_field, inherited}
use chat_intelli_api.Conditions.Evaluate.{evaluate}
use chat_intelli_api.Conditions.Validator.{
  is_field, check_op, check_value, check_fields, validate_rule, validate_rules, check_list,
  check_rules, validate_group, validate_groups, check_groups, validate_conditions,
}
use chat_intelli_api.Conditions.Validator.Accepted.{IsPlainRoot, holds, validated_evaluates}
use chat_intelli_api.Conditions.Validator.Inherited.{one_rule, inherited-throws}

abbrev same_case : String → String
same_case s = s

abbrev payload : Payload
payload = record {
  organization_id = "org";
  contact_id = "ana";
  conversation_id = none;
  channel_id = none;
  actor_id = none;
  details = tagged "vip" contact;
}

abbrev tag_is_vip : Json
tag_is_vip =
    let rule =
      obj
        (field "field" (str "tagId") (field "op" (str "equals") (field "value" (str "vip") end))) in
    let group = obj (field "match" (str "AND") (field "rules" (arr (cons rule nil)) end)) in
    obj (field "match" (str "OR") (field "groups" (arr (cons group nil)) end))

accepted : validate_conditions Trigger.tag_added tag_is_vip ≡ ok tag_is_vip
unfolding validate_conditions check_groups validate_groups validate_group check_rules check_list
    validate_rules validate_rule check_fields is_field check_op check_value get has own_field
accepted = refl

plain : IsPlainRoot tag_is_vip
unfolding get inherited
plain = ((refl, tt), tt)

foreign : own_field Trigger.tag_added "valueOf" ≡ none
unfolding own_field
foreign = refl

method : inherited "valueOf" ≡ some (err (failed "TypeError"))
unfolding inherited
method = refl

validated_evaluates_example :
    evaluate same_case Trigger.tag_added payload tag_is_vip
    ≡ ok (holds same_case Trigger.tag_added payload tag_is_vip)
validated_evaluates_example =
    validated_evaluates same_case Trigger.tag_added payload tag_is_vip tag_is_vip plain accepted

inherited-throws_example :
    (validate_conditions Trigger.tag_added (one_rule "valueOf") ≡ ok (one_rule "valueOf"))
    × (evaluate same_case Trigger.tag_added payload (one_rule "valueOf") ≡ err (failed "TypeError"))
inherited-throws_example =
    inherited-throws same_case Trigger.tag_added payload "valueOf" (failed "TypeError") foreign
      method
