-- ===== src/Conditions/Validator/Accepted.antt =====
-- What the evaluator does on conditions that the validator has accepted.
use chat_intelli_api.Base.{
  ℕ, suc, String, Bool, true, false, not, ◌&&◌, ◌≡◌, refl, Option, none, some, List, [], ◌∷◌, arith,
  inl, inr, All, map, Bool-cases, Option-cases,
}
use chat_intelli_api.Base.Exec.{ok, Result-cases}
use chat_intelli_api.Json.{
  Json, Fields, undefined, null, bool, num, str, arr, obj, end, items, get, has, key_of,
}
use chat_intelli_api.Events.{Trigger, Payload}
use chat_intelli_api.Conditions.{
  Operator, operator_of, own_field, inherited, resolve, apply_operator, apply_named,
}
use chat_intelli_api.Conditions.Evaluate.{
  combine, is_match, compare_op, compare_rule, evaluate_list, evaluate_groups, evaluate_root,
  evaluate_rule, map_rules, evaluate_rules, evaluate_group, map_groups, evaluate,
}
use chat_intelli_api.Conditions.Validator.{
  is_field, check_op, check_fields, validate_rule, validate_rules, check_rules, check_list,
  validate_group, validate_groups, check_groups, validate_conditions, rule_name,
}

-- A name is not one that every object inherits.
abbrev IsPlain : Json → Type 0
IsPlain (str name) = inherited name ≡ none
IsPlain _ = Unit

abbrev RuleIsPlain : Json → Type 0
RuleIsPlain (obj rule) = IsPlain (get "field" rule)
RuleIsPlain _ = Unit

abbrev RulesArePlain : Json → Type 0
RulesArePlain (arr rules) = All RuleIsPlain (items rules)
RulesArePlain _ = Unit

abbrev GroupIsPlain : Json → Type 0
GroupIsPlain (obj group) = RulesArePlain (get "rules" group)
GroupIsPlain _ = Unit

abbrev GroupsArePlain : Json → Type 0
GroupsArePlain (arr groups) = All GroupIsPlain (items groups)
GroupsArePlain _ = Unit

-- No rule of the conditions names what every object inherits.
abbrev pub IsPlainRoot : Json → Type 0
IsPlainRoot (obj root) = GroupsArePlain (get "groups" root)
IsPlainRoot _ = Unit

module _ (lower : String → String) (trigger : Trigger) (payload : Payload) where
  -- What a rule says of the payload: its operator holds between the field and the value.
  abbrev compares : Option (Payload → Json) → Option Operator → Json → Bool
  compares (some f) (some o) value = apply_operator lower o (f payload) value
  compares _ _ value = false

  abbrev text_rule : Json → Json → Json → Bool
  text_rule (str name) (str op) value = compares (own_field trigger name) (operator_of op) value
  text_rule _ _ value = false

  abbrev rule_holds : Json → Bool
  rule_holds (obj rule) = text_rule (get "field" rule) (get "op" rule) (get "value" rule)
  rule_holds _ = false

  abbrev rules_hold : Json → Json → Bool
  rules_hold match (arr rules) = combine match (map rule_holds (items rules))
  rules_hold match _ = false

  abbrev group_holds : Json → Bool
  group_holds (obj group) = rules_hold (get "match" group) (get "rules" group)
  group_holds _ = false

  -- What the conditions say of the payload: all or one of the groups, each all or one of its
  -- rules, where no groups are no restriction.
  abbrev list_holds : Json → List Json → Bool
  list_holds match [] = true
  list_holds match (g ∷ gs) = combine match (map group_holds (g ∷ gs))

  abbrev groups_hold : Json → Json → Bool
  groups_hold match (arr groups) = list_holds match (items groups)
  groups_hold match _ = true

  abbrev pub holds : Json → Bool
  holds (obj root) = groups_hold (get "match" root) (get "groups" root)
  holds _ = true

  checked_op :
      (name : String) (op value : Json) (f : Payload → Json) (at : String)
      → own_field trigger name ≡ some f
      → check_op at op value ≡ ok tt
      → compare_op lower trigger payload (f payload) op value ≡ ok (text_rule (str name) op value)
  unfolding check_op compare_op apply_named
  checked_op name (str op) value f at own h = elim (Option-cases (operator_of op)) [
    | inl unknown ↦ absurd (ground arith)
    | inr (o, known) ↦ rw (known, own) refl
  ]
  checked_op name undefined value f at own h = absurd (ground arith)
  checked_op name null value f at own h = absurd (ground arith)
  checked_op name (bool b) value f at own h = absurd (ground arith)
  checked_op name (num n) value f at own h = absurd (ground arith)
  checked_op name (arr xs) value f at own h = absurd (ground arith)
  checked_op name (obj fs) value f at own h = absurd (ground arith)

  checked_fields :
      (name op value : Json) (at : String)
      → IsPlain name
      → check_fields trigger at name op value ≡ ok tt
      → compare_rule lower trigger payload (resolve trigger (key_of name) payload) op value
        ≡ ok (text_rule name op value)
  unfolding check_fields compare_rule is_field resolve
  checked_fields (str name) op value at plain h = elim (Option-cases (own_field trigger name)) [
    | inl foreign ↦ absurd (ground arith)
    | inr (f, own) ↦ rw (own, compare_rule) (checked_op name op value f at own (rw own at h))
  ]
  checked_fields undefined op value at plain h = absurd (ground arith)
  checked_fields null op value at plain h = absurd (ground arith)
  checked_fields (bool b) op value at plain h = absurd (ground arith)
  checked_fields (num n) op value at plain h = absurd (ground arith)
  checked_fields (arr xs) op value at plain h = absurd (ground arith)
  checked_fields (obj fs) op value at plain h = absurd (ground arith)

  checked_rule :
      (rule : Json) (at : String)
      → RuleIsPlain rule
      → validate_rule trigger at rule ≡ ok tt
      → evaluate_rule lower trigger payload rule ≡ ok (rule_holds rule)
  unfolding validate_rule evaluate_rule
  checked_rule (obj rule) at plain h =
      checked_fields (get "field" rule) (get "op" rule) (get "value" rule) at plain h
  checked_rule (arr xs) at plain h = absurd (ground (arith, check_fields))
  checked_rule undefined at plain h = absurd (ground arith)
  checked_rule null at plain h = absurd (ground arith)
  checked_rule (bool b) at plain h = absurd (ground arith)
  checked_rule (num n) at plain h = absurd (ground arith)
  checked_rule (str s) at plain h = absurd (ground arith)

  checked_rules :
      (i k : ℕ) (rules : List Json)
      → All RuleIsPlain rules
      → validate_rules trigger i k rules ≡ ok tt
      → map_rules lower trigger payload rules ≡ ok (map rule_holds rules)
  unfolding validate_rules map_rules
  checked_rules i k [] plain h = refl
  checked_rules i k (r ∷ rs) plain h =
      elim (Result-cases (validate_rule trigger (rule_name i k) r)) [
        | inl (e, bad) ↦ absurd (ground arith)
        | inr (u, fine) ↦
            rw
              (
                checked_rule r (rule_name i k) plain.0 fine,
                checked_rules i (suc k) rs plain.1 (rw (fine, validate_rules) at h),
              )
              refl
      ]

  checked_list :
      (match : Json) (i : ℕ) (rules : List Json)
      → All RuleIsPlain rules
      → check_list trigger i rules ≡ ok tt
      → evaluate_list lower trigger payload match rules ≡ ok (combine match (map rule_holds rules))
  unfolding check_list evaluate_list
  checked_list match i [] plain h = absurd (ground arith)
  checked_list match i (r ∷ rs) plain h = rw (checked_rules i 0 (r ∷ rs) plain h) refl

  checked_group_fields :
      (match rules : Json) (i : ℕ)
      → RulesArePlain rules
      → check_rules trigger i rules ≡ ok tt
      → evaluate_rules lower trigger payload match rules ≡ ok (rules_hold match rules)
  unfolding check_rules evaluate_rules
  checked_group_fields match (arr rules) i plain h = checked_list match i (items rules) plain h
  checked_group_fields match (obj fs) i plain h = absurd (ground arith)
  checked_group_fields match undefined i plain h = absurd (ground arith)
  checked_group_fields match null i plain h = absurd (ground arith)
  checked_group_fields match (bool b) i plain h = absurd (ground arith)
  checked_group_fields match (num n) i plain h = absurd (ground arith)
  checked_group_fields match (str s) i plain h = absurd (ground arith)

  checked_group :
      (group : Json) (i : ℕ)
      → GroupIsPlain group
      → validate_group trigger i group ≡ ok tt
      → evaluate_group lower trigger payload group ≡ ok (group_holds group)
  unfolding validate_group evaluate_group
  checked_group (obj group) i plain h = elim (Bool-cases (is_match (get "match" group))) [
    | inr bad ↦ absurd (ground arith)
    | inl fine ↦
        checked_group_fields (get "match" group) (get "rules" group) i plain
          (rw (fine, validate_group) at h)
  ]
  checked_group (arr xs) i plain h = absurd (ground arith)
  checked_group undefined i plain h = absurd (ground arith)
  checked_group null i plain h = absurd (ground arith)
  checked_group (bool b) i plain h = absurd (ground arith)
  checked_group (num n) i plain h = absurd (ground arith)
  checked_group (str s) i plain h = absurd (ground arith)

  checked_groups :
      (i : ℕ) (groups : List Json)
      → All GroupIsPlain groups
      → validate_groups trigger i groups ≡ ok tt
      → map_groups lower trigger payload groups ≡ ok (map group_holds groups)
  unfolding validate_groups map_groups
  checked_groups i [] plain h = refl
  checked_groups i (g ∷ gs) plain h = elim (Result-cases (validate_group trigger i g)) [
    | inl (e, bad) ↦ absurd (ground arith)
    | inr (u, fine) ↦
        rw
          (
            checked_group g i plain.0 fine,
            checked_groups (suc i) gs plain.1 (rw (fine, validate_groups) at h),
          )
          refl
  ]

  checked_root :
      (match : Json) (groups : List Json)
      → All GroupIsPlain groups
      → validate_groups trigger 0 groups ≡ ok tt
      → evaluate_groups lower trigger payload match groups ≡ ok (list_holds match groups)
  unfolding evaluate_groups
  checked_root match [] plain h = refl
  checked_root match (g ∷ gs) plain h = rw (checked_groups 0 (g ∷ gs) plain h) refl

  checked_root_fields :
      (match groups : Json) (c : Fields) (saved : Json)
      → GroupsArePlain groups
      → is_match match ≡ true
      → check_groups trigger c groups ≡ ok saved
      → evaluate_root lower trigger payload match groups ≡ ok (groups_hold match groups)
        × (saved ≡ obj c)
  unfolding check_groups evaluate_root
  checked_root_fields match (arr groups) c saved plain m h =
      elim (Result-cases (validate_groups trigger 0 (items groups))) [
        | inl (e, bad) ↦ absurd (ground arith)
        | inr (u, fine) ↦ (rw (m) (checked_root match (items groups) plain fine), ground arith)
      ]
  checked_root_fields match (obj fs) c saved plain m h = absurd (ground arith)
  checked_root_fields match undefined c saved plain m h = absurd (ground arith)
  checked_root_fields match null c saved plain m h = absurd (ground arith)
  checked_root_fields match (bool b) c saved plain m h = absurd (ground arith)
  checked_root_fields match (num n) c saved plain m h = absurd (ground arith)
  checked_root_fields match (str s) c saved plain m h = absurd (ground arith)

  nothing_saved :
      (saved : Json) → saved ≡ obj end → evaluate lower trigger payload saved ≡ ok (holds saved)
  unfolding evaluate evaluate_root get
  nothing_saved saved e = rw e refl

  -- Conditions that the validator has accepted, no rule of which names what every object inherits,
  -- are evaluated without a throw on every payload, and give what they say: all or one of the
  -- groups, each all or one of its rules, each rule its operator between the field that the
  -- trigger has under its name and its value. No groups, or no conditions, hold.
  pub validated_evaluates :
      (raw saved : Json)
      → IsPlainRoot raw
      → validate_conditions trigger raw ≡ ok saved
      → evaluate lower trigger payload saved ≡ ok (holds saved)
  unfolding validate_conditions evaluate
  validated_evaluates (obj c) saved plain h =
      elim (Bool-cases (not (has "match" c) && not (has "groups" c))) [
        | inl empty ↦ nothing_saved saved (ground arith)
        | inr full ↦ elim (Bool-cases (is_match (get "match" c))) [
          | inr bad ↦ absurd (ground arith)
          | inl fine ↦
              let root =
                checked_root_fields (get "match" c) (get "groups" c) c saved plain fine
                  (rw (full, fine, validate_conditions) at h) in
              rw (root.1) root.0
        ]
      ]
  validated_evaluates (arr xs) saved plain h = nothing_saved saved (ground arith)
  validated_evaluates undefined saved plain h = nothing_saved saved (ground arith)
  validated_evaluates null saved plain h = nothing_saved saved (ground arith)
  validated_evaluates (bool b) saved plain h = absurd (ground arith)
  validated_evaluates (num n) saved plain h = absurd (ground arith)
  validated_evaluates (str s) saved plain h = absurd (ground arith)
