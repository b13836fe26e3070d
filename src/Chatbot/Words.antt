-- ===== src/Chatbot/Words.antt =====
-- Texts that the chatbot reads and writes: the number that a contact enters at a menu, and the
-- variables in a message (src/modules/chatbot/engine/node-executors/menu-node.executor.ts,
-- message-node.executor.ts).
use Prim.Native.String
use Prim.Native.Char.{code}
use Prim.Native.Nat.{zero, suc, ◌+◌}
use mathlib.Core.Option
use chat_intelli_api.Base.{
  ℕ, String, Bool, false, ◌&&◌, ◌||◌, Option, none, some, List, [], ◌∷◌, ◌==◌, eqb, leb, is_empty,
  if◌then◌else◌,
}
use chat_intelli_api.Base.Texts.{size}
use chat_intelli_api.Chatbot.{Variable}

-- `\w`
is_word : ℕ → Bool
is_word c = (leb 48 c && leb c 57) || (leb 65 c && leb c 90) || (leb 97 c && leb c 122) || eqb c 95

starts_with : ℕ → String → Bool
starts_with d String.[] = false
starts_with d (String.◌∷◌ c t) = eqb (code c) d

-- The letters of `\w*` up to `}}`.
read_key : String → Option String
unfolding is_word starts_with
read_key String.[] = none
read_key (String.◌∷◌ c t) =
    let rest = read_key t in
    if is_word (code c)
    then Option.map (λ k. String.◌∷◌ c k) rest
    else if eqb (code c) 125 && starts_with 125 t
    then some ""
    else none

not_empty : Option String → Option String
not_empty none = none
not_empty (some k) = if is_empty k then none else some k

-- `/\{\{(\w+)\}\}/` at the front of a text: the key.
key_at : String → Option String
unfolding read_key not_empty starts_with
key_at (String.◌∷◌ c (String.◌∷◌ d t)) =
    if eqb (code c) 123 && eqb (code d) 123 then not_empty (read_key t) else none
key_at _ = none

-- What every object inherits, as `replace` writes it.
inherited : String → Option String
inherited key =
    if key == "__proto__"
    then some "[object Object]"
    else if key == "constructor"
    then some "function Object() { [native code] }"
    else if is_method key
    then some (String.◌++◌ "function " (String.◌++◌ key "() { [native code] }"))
    else none
  where
    any_of : String → List String → Bool
    any_of k [] = false
    any_of k (n ∷ ns) = n == k || any_of k ns

    is_method : String → Bool
    is_method k = any_of k (
        "toString" ∷ "toLocaleString" ∷ "valueOf" ∷ "hasOwnProperty" ∷ "isPrototypeOf"
        ∷ "propertyIsEnumerable" ∷ "__defineGetter__" ∷ "__defineSetter__" ∷ "__lookupGetter__"
        ∷ "__lookupSetter__" ∷ [])

own_variable : String → List Variable → Option String
own_variable key [] = none
own_variable key (v ∷ vs) = if v.name == key then some v.value else own_variable key vs

or_inherited : Option String → String → Option String
unfolding inherited
or_inherited (some v) key = some v
or_inherited none key = inherited key

-- `String(variables[key])`, where there is one.
unfoldable pub variable_of : String → List Variable → Option String
unfolding own_variable or_inherited
variable_of key vs = or_inherited (own_variable key vs) key

-- `variables[key] ?? '{{key}}'`
value_of : Option String → String → String
value_of (some v) key = v
value_of none key = String.◌++◌ "{{" (String.◌++◌ key "}}")

module _ (variables : List Variable) where
  -- A key is written as its value and its letters are skipped; any other letter is kept.
  put : Option String → (ℕ → String) → (String → String) → String
  unfolding value_of size variable_of
  put (some key) rest letter =
      String.◌++◌ (value_of (variable_of key variables) key) (rest (size key + 3))
  put none rest letter = letter (rest 0)

  replace_keys : ℕ → String → String
  unfolding put key_at
  replace_keys n String.[] = ""
  replace_keys (suc n) (String.◌∷◌ c t) = replace_keys n t
  replace_keys zero (String.◌∷◌ c t) =
      put (key_at (String.◌∷◌ c t)) (λ n. replace_keys n t) (λ s. String.◌∷◌ c s)

  unfoldable pub interpolate : String → String
  unfolding replace_keys
  interpolate template = replace_keys 0 template
