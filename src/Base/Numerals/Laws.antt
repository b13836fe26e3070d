-- ===== src/Base/Numerals/Laws.antt =====
-- A number that is shown is read again.
use Prim.Native.String
use text.Mathlib.TextLemmas.{nil-append, cons-append, cons-ne-nil}
use text.Mathlib.TextEquality.{eq_iff}
use native.Mathlib.Omega.{arith}
use Prim.Native.Char.{Char, code}
use Prim.Native.Nat.{ℕ, zero, suc, ◌+◌, ◌-◌, ◌*◌, ◌/◌, ◌%◌, ◌<◌, ◌≤◌}
use Prim.Native.String.{String}
use mathlib.Core.Path.{◌≡◌, refl, sym, ap, ◌∙◌}
use mathlib.Core.Logic.{inl, inr}
use mathlib.Core.Bool.{true, false}
use chat_intelli_api.Base.Tests.{ltb, is_empty, Bool-cases}
use chat_intelli_api.Base.Texts.{is_space, trim, trim_start, trim_end}
use chat_intelli_api.Base.Numerals.{
  nth_text, digit, digits, shown_number, is_digit, read_digits, parse_int,
}

-- A text of digits.
unfoldable pub Digits : String → Type 0
Digits String.[] = Unit
Digits (String.◌∷◌ c t) = (is_digit (code c) ≡ true) × Digits t

digit-Digits : (d : ℕ) → d < 10 → Digits (digit d) × (is_empty (digit d) ≡ false)
unfolding digit Digits nth_text
digit-Digits zero lt = ((refl, tt), refl)
digit-Digits (suc zero) lt = ((refl, tt), refl)
digit-Digits (suc (suc zero)) lt = ((refl, tt), refl)
digit-Digits (suc (suc (suc zero))) lt = ((refl, tt), refl)
digit-Digits (suc (suc (suc (suc zero)))) lt = ((refl, tt), refl)
digit-Digits (suc (suc (suc (suc (suc zero))))) lt = ((refl, tt), refl)
digit-Digits (suc (suc (suc (suc (suc (suc zero)))))) lt = ((refl, tt), refl)
digit-Digits (suc (suc (suc (suc (suc (suc (suc zero))))))) lt = ((refl, tt), refl)
digit-Digits (suc (suc (suc (suc (suc (suc (suc (suc zero)))))))) lt = ((refl, tt), refl)
digit-Digits (suc (suc (suc (suc (suc (suc (suc (suc (suc zero))))))))) lt = ((refl, tt), refl)
digit-Digits (suc (suc (suc (suc (suc (suc (suc (suc (suc (suc d)))))))))) lt = absurd (omega arith)

read-digit : (a d : ℕ) → d < 10 → read_digits a (digit d) ≡ a * 10 + d
unfolding digit read_digits nth_text
read-digit a zero lt = refl
read-digit a (suc zero) lt = refl
read-digit a (suc (suc zero)) lt = refl
read-digit a (suc (suc (suc zero))) lt = refl
read-digit a (suc (suc (suc (suc zero)))) lt = refl
read-digit a (suc (suc (suc (suc (suc zero))))) lt = refl
read-digit a (suc (suc (suc (suc (suc (suc zero)))))) lt = refl
read-digit a (suc (suc (suc (suc (suc (suc (suc zero))))))) lt = refl
read-digit a (suc (suc (suc (suc (suc (suc (suc (suc zero)))))))) lt = refl
read-digit a (suc (suc (suc (suc (suc (suc (suc (suc (suc zero))))))))) lt = refl
read-digit a (suc (suc (suc (suc (suc (suc (suc (suc (suc (suc d)))))))))) lt = absurd (omega arith)

pub read_digits-digit :
    (a : ℕ) (c : Char) (t : String)
    → is_digit (code c) ≡ true
    → read_digits a (String.◌∷◌ c t) ≡ read_digits (a * 10 + (code c - 48)) t
unfolding read_digits
read_digits-digit a c t h = ground arith

pub is_empty-append : (s t : String) → is_empty s ≡ false → is_empty (String.◌++◌ s t) ≡ false
is_empty-append String.[] t h = absurd (ground arith)
is_empty-append (String.◌∷◌ c s) t h =
    rw (cons-append c s t)
      (ground (arith, eq_iff (String.◌∷◌ c (String.◌++◌ s t)) "", cons-ne-nil c (String.◌++◌ s t)))

pub read-append :
    (a : ℕ) (s t : String)
    → Digits s
    → read_digits a (String.◌++◌ s t) ≡ read_digits (read_digits a s) t
unfolding read_digits Digits
read-append a String.[] t h = rw (nil-append t) refl
read-append a (String.◌∷◌ c s) t h =
    ap (read_digits a) (cons-append c s t)
    ∙ read_digits-digit a c (String.◌++◌ s t) h.0
    ∙ read-append (a * 10 + (code c - 48)) s t h.1
    ∙ ap (λ n. read_digits n t) (sym (read_digits-digit a c s h.0))

pub Digits-append : (s t : String) → Digits s → Digits t → Digits (String.◌++◌ s t)
unfolding Digits
Digits-append String.[] t hs ht = rw (nil-append t) ht
Digits-append (String.◌∷◌ c s) t hs ht = rw (cons-append c s t) (hs.0, Digits-append s t hs.1 ht)

pub digit_space : (c : ℕ) → is_digit c ≡ true → is_space c ≡ false
unfolding is_space
digit_space c h = ground arith

pub trim_end-Digits : (s : String) → Digits s → trim_end s ≡ s
unfolding trim_end Digits
trim_end-Digits String.[] h = refl
trim_end-Digits (String.◌∷◌ c s) h =
    rw (trim_end-Digits s h.1) (ground (arith, digit_space (code c) h.0))

pub trim-Digits : (s : String) → Digits s → trim s ≡ s
unfolding trim trim_start Digits
trim-Digits String.[] h = refl
trim-Digits (String.◌∷◌ c s) h = rw (digit_space (code c) h.0) (trim_end-Digits (String.◌∷◌ c s) h)

pub parse_int-Digits : (s : String) → Digits s → parse_int s ≡ read_digits 0 s
unfolding parse_int Digits read_digits
parse_int-Digits String.[] h = refl
parse_int-Digits (String.◌∷◌ c s) h = ground arith

-- The number that is read is the one that is shown.
abbrev pub Shown : ℕ → String → Type 0
Shown n s = Digits s × (is_empty s ≡ false) × (read_digits 0 s ≡ n)

digit-Shown : (n : ℕ) → n < 10 → Shown n (digit n)
digit-Shown n lt =
    let (all, some_digit) = digit-Digits n lt in (all, some_digit, read-digit 0 n lt ∙ omega arith)

append-Shown : (n : ℕ) (s : String) → Shown (n / 10) s → Shown n (String.◌++◌ s (digit (n % 10)))
append-Shown n s (all, filled, value) =
    let lt : n % 10 < 10 = omega arith in
    (
      Digits-append s (digit (n % 10)) all ((digit-Digits (n % 10) lt).0),
      is_empty-append s (digit (n % 10)) filled,
      read-append 0 s (digit (n % 10)) all
          ∙ read-digit (read_digits 0 s) (n % 10) lt
          ∙ omega (arith, value),
    )

digits-Shown : (fuel n : ℕ) → n ≤ fuel → Shown n (digits fuel n)
unfolding digits
digits-Shown zero n few = digit-Shown n (omega arith)
digits-Shown (suc fuel) n few = elim (Bool-cases (ltb n 10)) [
  | inl small ↦ rw small (digit-Shown n (ground arith))
  | inr large ↦ rw large (append-Shown n _ (digits-Shown fuel (n / 10) (ground arith)))
]

pub shown_number-Shown : (n : ℕ) → Shown n (shown_number n)
unfolding shown_number
shown_number-Shown n = digits-Shown n n (omega arith)

pub parse_int-shown_number : (n : ℕ) → parse_int (trim (shown_number n)) ≡ n
parse_int-shown_number n =
    let (all, filled, value) = shown_number-Shown n in
    ap parse_int (trim-Digits (shown_number n) all) ∙ parse_int-Digits (shown_number n) all ∙ value
