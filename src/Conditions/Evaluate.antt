-- ===== src/Conditions/Evaluate.antt =====
-- The evaluation of conditions on a payload
-- (src/modules/automations/engine/conditions-evaluator.ts).
use chat_intelli_api.Base.{
  String, Bool, true, false, ◌||◌, Option, none, some, List, [], ◌∷◌, ◌==◌, any, all, if◌then◌else◌,
}
use chat_intelli_api.Base.Exec.{Result, ok, err}
use chat_intelli_api.Json.{
  Json, undefined, null, num, str, arr, obj, items, get, strict_equal, is_falsy, key_of,
}
use chat_intelli_api.Events.{Trigger, Payload}
use chat_intelli_api.Conditions.{apply_named, operator_of, resolve, type_error}

abbrev pub after : Result Bool → Result (List Bool) → Result (List Bool)
after (err e) rest = err e
after (ok b) (err e) = err e
after (ok b) (ok bs) = ok (b ∷ bs)

-- `results.every(Boolean)` or `results.some(Boolean)`
abbrev pub combine : Json → List Bool → Bool
combine (str m) bs = if m == "AND" then all (λ b. b) bs else any (λ b. b) bs
combine _ bs = any (λ b. b) bs

abbrev pub then_combine : Json → Result (List Bool) → Result Bool
then_combine match (err e) = err e
then_combine match (ok bs) = ok (combine match bs)

-- `match === 'AND' || match === 'OR'`
abbrev pub is_match : Json → Bool
is_match (str m) = m == "AND" || m == "OR"
is_match _ = false

module _ (lower : String → String) (trigger : Trigger) (payload : Payload) where
  -- The `switch`: an operator that is no text is as one that is not known.
  unfoldable pub compare_op : Json → Json → Json → Result Bool
  unfolding apply_named
  compare_op actual (str op) value = ok (apply_named lower (operator_of op) actual value)
  compare_op actual _ value = ok false

  -- `evaluateRule` behind the look-up.
  unfoldable pub compare_rule : Option (Result Json) → Json → Json → Result Bool
  unfolding compare_op
  compare_rule none op value = ok false
  compare_rule (some (err e)) op value = err e
  compare_rule (some (ok actual)) op value = compare_op actual op value

  -- The look-up is by the text of `rule.field`; a property of null or undefined throws, and
  -- another value has none.
  unfoldable pub evaluate_rule : Json → Result Bool
  unfolding compare_rule resolve
  evaluate_rule undefined = type_error
  evaluate_rule null = type_error
  evaluate_rule (obj rule) =
      compare_rule (resolve trigger (key_of (get "field" rule)) payload) (get "op" rule)
        (get "value" rule)
  evaluate_rule _ = ok false

  -- `map` with a callback that may throw: the first throw ends it.
  unfoldable pub map_rules : List Json → Result (List Bool)
  unfolding evaluate_rule
  map_rules [] = ok []
  map_rules (r ∷ rs) = after (evaluate_rule r) (map_rules rs)

  unfoldable pub evaluate_list : Json → List Json → Result Bool
  unfolding map_rules
  evaluate_list match [] = ok true
  evaluate_list match (r ∷ rs) = then_combine match (map_rules (r ∷ rs))

  -- `!rules || rules.length === 0`, and else `rules.map`, which only an array has.
  unfoldable pub evaluate_rules : Json → Json → Result Bool
  unfolding evaluate_list
  evaluate_rules match (arr rules) = evaluate_list match (items rules)
  evaluate_rules match (obj rules) =
      if strict_equal (get "length" rules) (num 0) then ok true else type_error
  evaluate_rules match rules = if is_falsy rules then ok true else type_error

  -- `evaluateGroup`
  unfoldable pub evaluate_group : Json → Result Bool
  unfolding evaluate_rules
  evaluate_group undefined = type_error
  evaluate_group null = type_error
  evaluate_group (obj group) = evaluate_rules (get "match" group) (get "rules" group)
  evaluate_group _ = ok true

  unfoldable pub map_groups : List Json → Result (List Bool)
  unfolding evaluate_group
  map_groups [] = ok []
  map_groups (g ∷ gs) = after (evaluate_group g) (map_groups gs)

  unfoldable pub evaluate_groups : Json → List Json → Result Bool
  unfolding map_groups
  evaluate_groups match [] = ok true
  evaluate_groups match (g ∷ gs) = then_combine match (map_groups (g ∷ gs))

  -- `isRoot` of an object, from its two fields, and `evaluate` behind it.
  unfoldable pub evaluate_root : Json → Json → Result Bool
  unfolding evaluate_groups
  evaluate_root match (arr gs) =
      if is_match match then evaluate_groups match (items gs) else ok true
  evaluate_root match _ = ok true

  -- `evaluate`: what is no root, or a root without groups, matches every event.
  unfoldable pub evaluate : Json → Result Bool
  unfolding evaluate_root
  evaluate (obj root) = evaluate_root (get "match" root) (get "groups" root)
  evaluate _ = ok true
