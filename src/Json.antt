-- ===== src/Json.antt =====
-- JSON values as JavaScript reads them, `undefined` included. A number is a natural number: the
-- fields that conditions are evaluated on hold none, and the validator tells no numbers apart.
use Prim.Native.String
pub use chat_intelli_api.Base.Numerals.{shown_number}
use chat_intelli_api.Base.{
  ℕ, String, Bool, true, false, ◌||◌, List, [], ◌∷◌, ◌==◌, eqb, is_empty, if◌then◌else◌,
}

mutual
  pub data Json : Type 0 where
    undefined null : Json
    bool : Bool → Json
    num : ℕ → Json
    str : String → Json
    arr : Items → Json
    obj : Fields → Json

  pub data Items : Type 0 where
    nil : Items
    cons : Json → Items → Items

  pub data Fields : Type 0 where
    end : Fields
    field : String → Json → Fields → Fields

abbrev pub items : Items → List Json
items nil = []
items (cons j js) = j ∷ items js

-- `o.k`
unfoldable pub get : String → Fields → Json
get k end = undefined
get k (field j v fs) = if j == k then v else get k fs

-- `k in o`, for a name that no prototype has.
unfoldable pub has : String → Fields → Bool
has k end = false
has k (field j v fs) = j == k || has k fs

-- `a === b`; two objects of different origin are never the same.
abbrev pub strict_equal : Json → Json → Bool
strict_equal undefined undefined = true
strict_equal null null = true
strict_equal (bool true) (bool true) = true
strict_equal (bool false) (bool false) = true
strict_equal (num a) (num b) = eqb a b
strict_equal (str a) (str b) = a == b
strict_equal _ _ = false

-- `!j`
abbrev pub is_falsy : Json → Bool
is_falsy undefined = true
is_falsy null = true
is_falsy (bool false) = true
is_falsy (num n) = eqb n 0
is_falsy (str s) = is_empty s
is_falsy _ = false

abbrev pub concat : List String → String
concat [] = ""
concat (s ∷ ss) = String.◌++◌ s (concat ss)

-- A value in a template text: `String(value)`, where an array shows its items between commas.
mutual
  pub shown_value : Json → String
  shown_value undefined = "undefined"
  shown_value null = "null"
  shown_value (bool true) = "true"
  shown_value (bool false) = "false"
  shown_value (num n) = shown_number n
  shown_value (str s) = s
  shown_value (arr xs) = shown_items xs
  shown_value (obj _) = "[object Object]"

  shown_items : Items → String
  shown_items nil = ""
  shown_items (cons j nil) = shown_item j
  shown_items (cons j (cons k js)) = concat (shown_item j ∷ "," ∷ shown_items (cons k js) ∷ [])

  shown_item : Json → String
  shown_item undefined = ""
  shown_item null = ""
  shown_item (bool true) = "true"
  shown_item (bool false) = "false"
  shown_item (num n) = shown_number n
  shown_item (str s) = s
  shown_item (arr xs) = shown_items xs
  shown_item (obj _) = "[object Object]"

-- The name of the property that `o[j]` is.
abbrev pub key_of : Json → String
key_of (str s) = s
key_of j = shown_value j
