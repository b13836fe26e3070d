-- ===== src/Hours/Laws.antt =====
-- Hours as they are written, `09:00`.
use Prim.Native.String
use Prim.Native.Char.{Char, code}
use Prim.Native.Nat.{◌+◌, ◌*◌, ◌≤◌, ◌<◌}
use text.Mathlib.TextLemmas.{nil-append, cons-append}
use chat_intelli_api.Base.{
  ℕ, String, true, ◌≡◌, ◌↔◌, ◌∙◌, ap, refl, inl, inr, arith, ltb, Bool-cases, if◌then◌else◌,
}
use chat_intelli_api.Base.Texts.{trim_start}
use chat_intelli_api.Base.Numerals.{shown_number, is_digit, read_digits, parse_int}
use chat_intelli_api.Base.Numerals.Laws.{
  Digits, Shown, Digits-append, is_empty-append, read-append, shown_number-Shown, parse_int-Digits,
  digit_space,
}
use chat_intelli_api.Hours.{hour_text, behind_colon, part, parse_hour_to_minutes, in_time}

-- A number of two digits or more.
abbrev pub padded : ℕ → String
padded n = if ltb n 10 then String.◌++◌ "0" (shown_number n) else shown_number n

-- `HH:MM`
abbrev pub clock_text : ℕ → ℕ → String
clock_text h m = String.◌++◌ (padded h) (String.◌++◌ ":" (padded m))

padded-Shown : (n : ℕ) → Shown n (padded n)
unfolding Digits read_digits
padded-Shown n = elim (Bool-cases (ltb n 10)) [
  | inl small ↦ rw small (zero_before (shown_number n) (shown_number-Shown n))
  | inr large ↦ rw large (shown_number-Shown n)
]
  where
    zero_before : (s : String) → Shown n s → Shown n (String.◌++◌ "0" s)
    zero_before s (all, filled, value) = (
      Digits-append "0" s (refl, tt) all,
      is_empty-append "0" s refl,
      read-append 0 "0" s (refl, tt) ∙ value,
    )

-- A text behind a colon.
abbrev behind : String → String
behind t = String.◌++◌ ":" t

behind-cons : (t : String) → behind t ≡ String.◌∷◌ ":" t
behind-cons t = cons-append ":" "" t ∙ ap (λ u. String.◌∷◌ ":" u) (nil-append t)

hour_text-cons :
    (c : Char) (t : String)
    → is_digit (code c) ≡ true
    → hour_text (String.◌∷◌ c t) ≡ String.◌∷◌ c (hour_text t)
unfolding hour_text
hour_text-cons c t h = ground arith

behind_colon-cons :
    (c : Char) (t : String)
    → is_digit (code c) ≡ true
    → behind_colon (String.◌∷◌ c t) ≡ behind_colon t
unfolding behind_colon
behind_colon-cons c t h = ground arith

hour_text-append : (s t : String) → Digits s → hour_text (String.◌++◌ s (behind t)) ≡ s
unfolding hour_text Digits
hour_text-append String.[] t h = ap hour_text (nil-append (behind t) ∙ behind-cons t)
hour_text-append (String.◌∷◌ c s) t h =
    ap hour_text (cons-append c s (behind t))
    ∙ hour_text-cons c (String.◌++◌ s (behind t)) h.0
    ∙ ap (λ u. String.◌∷◌ c u) (hour_text-append s t h.1)

behind_colon-append : (s t : String) → Digits s → behind_colon (String.◌++◌ s (behind t)) ≡ t
unfolding behind_colon Digits
behind_colon-append String.[] t h = ap behind_colon (nil-append (behind t) ∙ behind-cons t)
behind_colon-append (String.◌∷◌ c s) t h =
    ap behind_colon (cons-append c s (behind t))
    ∙ behind_colon-cons c (String.◌++◌ s (behind t)) h.0
    ∙ behind_colon-append s t h.1

hour_text-Digits : (s : String) → Digits s → hour_text s ≡ s
unfolding hour_text Digits
hour_text-Digits String.[] h = refl
hour_text-Digits (String.◌∷◌ c s) h =
    hour_text-cons c s h.0 ∙ ap (λ u. String.◌∷◌ c u) (hour_text-Digits s h.1)

trim_start-Digits : (s : String) → Digits s → trim_start s ≡ s
unfolding trim_start Digits
trim_start-Digits String.[] h = refl
trim_start-Digits (String.◌∷◌ c s) h = rw (digit_space (code c) h.0) refl

part-Shown : (n : ℕ) (s : String) → Shown n s → part s ≡ n
part-Shown n s (all, filled, value) =
    ap parse_int (trim_start-Digits s all) ∙ parse_int-Digits s all ∙ value

parse-clock_text : (h m : ℕ) → parse_hour_to_minutes (clock_text h m) ≡ h * 60 + m
unfolding parse_hour_to_minutes
parse-clock_text h m =
    let hour = padded-Shown h in
    let minute = padded-Shown m in
    let first =
      ap part (hour_text-append (padded h) (padded m) hour.0) ∙ part-Shown h (padded h) hour in
    let second =
      ap (λ t. part (hour_text t)) (behind_colon-append (padded h) (padded m) hour.0)
      ∙ ap part (hour_text-Digits (padded m) minute.0)
      ∙ part-Shown m (padded m) minute in
    ap (λ n. n * 60 + part (hour_text (behind_colon (clock_text h m)))) first
    ∙ ap (λ n. h * 60 + n) second

-- Hours that are written as `HH:MM` are read back: a window is open from its first minute up to
-- its last, that one excluded; so one that ends before it begins, past midnight, is never open.
pub in_time-clock_text :
    (now h m h' m' : ℕ)
    → (in_time now (record { from = clock_text h m; to = clock_text h' m' }) ≡ true)
      ↔ ((h * 60 + m ≤ now) × (now < h' * 60 + m'))
unfolding in_time
in_time-clock_text now h m h' m' =
    rw (parse-clock_text h m, parse-clock_text h' m') (λ e. ground arith, λ e. ground arith)
