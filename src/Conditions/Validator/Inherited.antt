-- ===== src/Conditions/Validator/Inherited.antt =====
-- Rules that name what every object inherits, such as `valueOf`.
use chat_intelli_api.Base.{String, true, ◌≡◌, refl, none, some}
use chat_intelli_api.Base.Exec.{Failure, ok, err}
use chat_intelli_api.Json.{Json, str, arr, obj, nil, cons, end, field, get, has}
use chat_intelli_api.Events.{Trigger, Payload}
use chat_intelli_api.Conditions.{own_field, inherited, resolve}
use chat_intelli_api.Conditions.Evaluate.{
  compare_rule, evaluate_rule, map_rules, evaluate_list, evaluate_rules, evaluate_group, map_groups,
  evaluate_groups, evaluate_root, evaluate,
}
use chat_intelli_api.Conditions.Validator.{
  is_field, check_op, check_value, check_fields, validate_rule, validate_rules, check_list,
  check_rules, validate_group, validate_groups, check_groups, rule_name, validate_conditions,
}

abbrev one_of : String → Json → Json
one_of name entry = obj (field "match" (str "AND") (field name (arr (cons entry nil)) end))

abbrev rule_on : String → Json
rule_on name = obj (field "field" (str name) (field "op" (str "is_set") end))

-- Conditions of one group with one rule, that a field is set.
abbrev pub one_rule : String → Json
one_rule name = one_of "groups" (one_of "rules" (rule_on name))

module _ (lower : String → String) (trigger : Trigger) (payload : Payload) (name : String)
    (e : Failure) (foreign : own_field trigger name ≡ none)
    (throws : inherited name ≡ some (err e)) where
  named : is_field trigger name ≡ true
  unfolding is_field
  named = rw (foreign, throws) refl

  rule_accepted : (at : String) → validate_rule trigger at (rule_on name) ≡ ok tt
  unfolding validate_rule check_fields check_op check_value get
  rule_accepted at = rw named refl

  accepted : validate_conditions trigger (one_rule name) ≡ ok (one_rule name)
  unfolding validate_conditions check_groups validate_groups validate_group check_rules check_list
      validate_rules get has
  accepted = rw (rule_accepted (rule_name 0 0)) refl

  looked_up : resolve trigger name payload ≡ some (err e)
  unfolding resolve
  looked_up = rw (foreign, throws) refl

  rule_throws : evaluate_rule lower trigger payload (rule_on name) ≡ err e
  unfolding evaluate_rule compare_rule get
  rule_throws = rw looked_up refl

  throws_later : evaluate lower trigger payload (one_rule name) ≡ err e
  unfolding evaluate evaluate_root evaluate_groups map_groups evaluate_group evaluate_rules
      evaluate_list map_rules get
  throws_later = rw rule_throws refl

  -- Conditions with a rule that names an inherited method, which throws when called, pass the
  -- validator as they are, and their evaluation throws on every payload.
  pub inherited-throws :
      (validate_conditions trigger (one_rule name) ≡ ok (one_rule name))
      × (evaluate lower trigger payload (one_rule name) ≡ err e)
  inherited-throws = (accepted, throws_later)
