-- ===== src/Base/Numerals.antt =====
-- Numbers in texts: the numeral of a number, and `parseInt`.
pub mod Laws
use Prim.Native.String
use Prim.Native.Char.{code}
use Prim.Native.Nat.{ℕ, zero, suc, ◌+◌, ◌-◌, ◌*◌, ◌/◌, ◌%◌}
use Prim.Native.String.{String}
use mathlib.Core.Bool.{Bool, true, false, ◌&&◌}
use mathlib.Core.List.{List, [], ◌∷◌}
use chat_intelli_api.Base.Tests.{eqb, leb, ltb, if◌then◌else◌}

unfoldable pub nth_text : ℕ → List String → String
nth_text n [] = ""
nth_text zero (s ∷ ss) = s
nth_text (suc n) (s ∷ ss) = nth_text n ss

unfoldable pub digit : ℕ → String
unfolding nth_text
digit n = nth_text n ("0" ∷ "1" ∷ "2" ∷ "3" ∷ "4" ∷ "5" ∷ "6" ∷ "7" ∷ "8" ∷ "9" ∷ [])

-- A number in a template text, on fuel; a number has no more digits than its value.
unfoldable pub digits : ℕ → ℕ → String
unfolding digit
digits zero n = digit n
digits (suc fuel) n =
    let rest = digits fuel (n / 10) in
    if ltb n 10 then digit n else String.◌++◌ rest (digit (n % 10))

unfoldable pub shown_number : ℕ → String
unfolding digits
shown_number n = digits n n

abbrev pub is_digit : ℕ → Bool
is_digit c = leb 48 c && leb c 57

-- The digits at the front of a text, behind the number that was read before them.
unfoldable pub read_digits : ℕ → String → ℕ
read_digits n String.[] = n
read_digits n (String.◌∷◌ c t) = elim (is_digit (code c)) [
  | true ↦ read_digits (n * 10 + (code c - 48)) t
  | false ↦ n
]

-- `parseInt(input, 10)` of a text without white space in front, with 0 in place of a negative number and of NaN, none of
-- which stands for an option of a menu or a time of day.
unfoldable pub parse_int : String → ℕ
unfolding read_digits
parse_int String.[] = 0
parse_int (String.◌∷◌ c t) =
    if eqb (code c) 43 then read_digits 0 t else read_digits 0 (String.◌∷◌ c t)
