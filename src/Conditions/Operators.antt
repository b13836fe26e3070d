-- ===== src/Conditions/Operators.antt =====
-- Each operator of a rule and the one that negates it.
use chat_intelli_api.Base.{String, Bool, true, false, not, ◌≡◌, refl, arith}
use chat_intelli_api.Json.{Json, undefined, null, bool, num, str, arr, obj, strict_equal}
use chat_intelli_api.Conditions.{
  Operator, equals, not_equals, contains_text, not_contains, in_list, not_in, is_set, is_not_set,
  apply_operator, text_contains, text_not_contains, list_has, list_lacks,
}

-- The operator that the editor offers as the opposite.
abbrev pub opposite : Operator → Operator
opposite equals = not_equals
opposite not_equals = equals
opposite contains_text = not_contains
opposite not_contains = contains_text
opposite in_list = not_in
opposite not_in = in_list
opposite is_set = is_not_set
opposite is_not_set = is_set

not-not : (b : Bool) → b ≡ not (not b)
not-not true = refl
not-not false = refl

text_opposite :
    (lower : String → String) (a e : Json)
    → text_not_contains lower a e ≡ not (text_contains lower a e)
unfolding text_contains text_not_contains
text_opposite lower (str a) (str b) = refl
text_opposite lower (str a) undefined = refl
text_opposite lower (str a) null = refl
text_opposite lower (str a) (bool b) = refl
text_opposite lower (str a) (num n) = refl
text_opposite lower (str a) (arr xs) = refl
text_opposite lower (str a) (obj fs) = refl
text_opposite lower undefined e = refl
text_opposite lower null e = refl
text_opposite lower (bool b) e = refl
text_opposite lower (num n) e = refl
text_opposite lower (arr xs) e = refl
text_opposite lower (obj fs) e = refl

list_opposite : (a e : Json) → list_lacks a e ≡ not (list_has a e)
unfolding list_has list_lacks
list_opposite a (arr xs) = refl
list_opposite a undefined = refl
list_opposite a null = refl
list_opposite a (bool b) = refl
list_opposite a (num n) = refl
list_opposite a (str s) = refl
list_opposite a (obj fs) = refl

-- For every operator, any actual and any expected value, whatever their types, exactly one of a
-- rule and the rule with the opposite operator holds.
pub apply_operator-opposite :
    (lower : String → String) (op : Operator) (actual expected : Json)
    → apply_operator lower (opposite op) actual expected
      ≡ not (apply_operator lower op actual expected)
unfolding apply_operator
apply_operator-opposite lower equals a e = refl
apply_operator-opposite lower not_equals a e = not-not (strict_equal a e)
apply_operator-opposite lower contains_text a e = text_opposite lower a e
apply_operator-opposite lower not_contains a e = ground (arith, text_opposite lower a e)
apply_operator-opposite lower in_list a e = list_opposite a e
apply_operator-opposite lower not_in a e = ground (arith, list_opposite a e)
apply_operator-opposite lower is_set a e = not-not _
apply_operator-opposite lower is_not_set a e = refl
