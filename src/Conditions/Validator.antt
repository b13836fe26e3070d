-- ===== src/Conditions/Validator.antt =====
-- The check of conditions when an automation is saved
-- (src/modules/automations/automations.validator.ts).
pub mod Accepted
pub mod Inherited
mod Tests
use Prim.Native.Nat.{suc}
use chat_intelli_api.Base.{
  ℕ, String, Bool, true, false, not, ◌&&◌, ◌||◌, Option, none, some, List, [], ◌∷◌, ◌==◌, ltb,
  is_none, if◌then◌else◌,
}
use chat_intelli_api.Base.Exec.{Failure, bad_request, Result, ok, err}
use chat_intelli_api.Json.{
  Json, Items, nil, cons, Fields, undefined, null, bool, num, str, arr, obj, end, items, get, has,
  is_falsy, concat, shown_number, shown_value,
}
use chat_intelli_api.Events.{Trigger}
use chat_intelli_api.Conditions.{
  Operator, is_set, is_not_set, in_list, not_in, operator_of, own_field, inherited,
}
use chat_intelli_api.Conditions.Evaluate.{is_match}

-- `groups[i]` and `groups[i].rules[k]`
pub group_name : ℕ → String
group_name i = concat ("groups[" ∷ shown_number i ∷ "]" ∷ [])

pub rule_name : ℕ → ℕ → String
unfolding group_name
rule_name i k = concat (group_name i ∷ ".rules[" ∷ shown_number k ∷ "]" ∷ [])

abbrev refuse : List String → Result {0} Unit
refuse parts = err (bad_request (concat parts))

-- What follows a check, which a throw ends.
abbrev pub unless_thrown : {A : Type 0} → Result {0} Unit → Result A → Result A
unless_thrown (err e) rest = err e
unless_thrown (ok _) rest = rest

-- `name in fields`, which the prototype's names pass too.
unfoldable pub is_field : Trigger → String → Bool
unfolding own_field inherited
is_field trigger name = not (is_none (own_field trigger name)) || not (is_none (inherited name))

-- The checks of `op` and `value`.
unfoldable pub check_value : String → Operator → String → Json → Result {0} Unit
check_value at is_set op value = ok tt
check_value at is_not_set op value = ok tt
check_value at _ op undefined = refuse (at ∷ ": value required for op \"" ∷ op ∷ "\"" ∷ [])
check_value at in_list op (arr xs) = ok tt
check_value at not_in op (arr xs) = ok tt
check_value at in_list op _ = refuse (at ∷ ": op \"" ∷ op ∷ "\" requires array value" ∷ [])
check_value at not_in op _ = refuse (at ∷ ": op \"" ∷ op ∷ "\" requires array value" ∷ [])
check_value at _ op _ = ok tt

unfoldable pub check_op : String → Json → Json → Result {0} Unit
unfolding check_value
check_op at (str op) value = elim (operator_of op) [
  | none ↦ refuse (at ∷ ": unknown op \"" ∷ op ∷ "\"" ∷ [])
  | some o ↦ check_value at o op value
]
check_op at op value = refuse (at ∷ ": unknown op \"" ∷ shown_value op ∷ "\"" ∷ [])

module _ (trigger : Trigger) where
  unfoldable pub check_fields : String → Json → Json → Json → Result {0} Unit
  unfolding is_field check_op
  check_fields at (str name) op value =
      if is_field trigger name
      then check_op at op value
      else refuse (at ∷ ": unknown field \"" ∷ name ∷ "\"" ∷ [])
  check_fields at name op value = refuse (at ∷ ": unknown field \"" ∷ shown_value name ∷ "\"" ∷ [])

  -- The callback of `g.rules.forEach`; an array is an object without a field.
  unfoldable pub validate_rule : String → Json → Result {0} Unit
  unfolding check_fields
  validate_rule at (obj rule) =
      check_fields at (get "field" rule) (get "op" rule) (get "value" rule)
  validate_rule at (arr _) = check_fields at undefined undefined undefined
  validate_rule at _ = refuse (at ∷ " must be an object" ∷ [])

  unfoldable pub validate_rules : ℕ → ℕ → List Json → Result {0} Unit
  unfolding validate_rule
  validate_rules i k [] = ok tt
  validate_rules i k (r ∷ rs) =
      unless_thrown (validate_rule (rule_name i k) r) (validate_rules i (suc k) rs)

  unfoldable pub check_list : ℕ → List Json → Result {0} Unit
  unfolding validate_rules
  check_list i [] = refuse (group_name i ∷ ".rules cannot be empty" ∷ [])
  check_list i (r ∷ rs) = validate_rules i 0 (r ∷ rs)

  unfoldable pub check_rules : ℕ → Json → Result {0} Unit
  unfolding check_list
  check_rules i (arr rules) = check_list i (items rules)
  check_rules i _ = refuse (group_name i ∷ ".rules must be an array" ∷ [])

  -- `validateGroup`
  unfoldable pub validate_group : ℕ → Json → Result {0} Unit
  unfolding check_rules
  validate_group i (obj group) =
      if is_match (get "match" group)
      then check_rules i (get "rules" group)
      else refuse (group_name i ∷ ".match must be AND | OR" ∷ [])
  validate_group i (arr _) = refuse (group_name i ∷ ".match must be AND | OR" ∷ [])
  validate_group i _ = refuse (group_name i ∷ " must be an object" ∷ [])

  unfoldable pub validate_groups : ℕ → List Json → Result {0} Unit
  unfolding validate_group
  validate_groups i [] = ok tt
  validate_groups i (g ∷ gs) = unless_thrown (validate_group i g) (validate_groups (suc i) gs)

  -- The checks behind `c.match`, with the conditions that are returned if they pass.
  unfoldable pub check_groups : Fields → Json → Result Json
  unfolding validate_groups
  check_groups c (arr groups) = unless_thrown (validate_groups 0 (items groups)) (ok (obj c))
  check_groups c _ = err (bad_request "conditions.groups must be an array")

  -- `validateConditions`
  unfoldable pub validate_conditions : Json → Result Json
  unfolding check_groups
  validate_conditions undefined = ok (obj end)
  validate_conditions null = ok (obj end)
  validate_conditions (arr _) = ok (obj end)
  validate_conditions (obj c) =
      if not (has "match" c) && not (has "groups" c)
      then ok (obj end)
      else if is_match (get "match" c)
      then check_groups c (get "groups" c)
      else err (bad_request "conditions.match must be AND | OR")
  validate_conditions _ = err (bad_request "conditions must be an object")
