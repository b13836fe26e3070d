-- ===== src/Hours/Tests.antt =====
-- The hours from nine to six.
use Prim.Native.Nat.{◌+◌, ◌*◌, ◌≤◌, ◌<◌}
use chat_intelli_api.Base.{true, some, [], ◌∷◌, ◌≡◌, ◌↔◌, refl}
use chat_intelli_api.Base.Numerals.{shown_number}
use chat_intelli_api.Base.Texts.{trim_start}
use chat_intelli_api.Hours.{in_time, is_within_business_hours}
use chat_intelli_api.Hours.Laws.{clock_text, in_time-clock_text}

written : clock_text 9 5 ≡ "09:05"
unfolding shown_number
written = refl

open_monday :
    is_within_business_hours
      (record { weekday = "monday"; now_minutes = 1079 })
      (some (
        record {
          name = "monday";
          enabled = true;
          windows = record { from = "09:00"; to = "18:00" } ∷ [];
        }
        ∷ []))
    ≡ true
unfolding is_within_business_hours trim_start
open_monday = refl

in_time-clock_text_example :
    (in_time 60 (record { from = clock_text 22 0; to = clock_text 2 0 }) ≡ true)
    ↔ ((22 * 60 + 0 ≤ 60) × (60 < 2 * 60 + 0))
in_time-clock_text_example = in_time-clock_text 60 22 0 2 0
