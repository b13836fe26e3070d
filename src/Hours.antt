-- ===== src/Hours.antt =====
-- Business hours, as the agent router and the watchdog read them: isWithinBusinessHours and
-- parseHourToMinutes (src/modules/ai-agents/router/agent-router.service.ts,
-- src/modules/routing/watchdog/watchdog-config.service.ts). The weekday and the minute of the day in
-- the organisation's time zone, which Intl gives, are inputs.
mod Laws
mod Tests
use Prim.Native.String
use Prim.Native.Char.{code}
use Prim.Native.Nat.{◌+◌, ◌*◌}
use mathlib.Core.Option
use chat_intelli_api.Base.{
  ℕ, String, Bool, true, false, not, ◌&&◌, ◌||◌, Option, none, some, List, [], ◌∷◌, ◌==◌, any, eqb,
  leb, ltb, contains, if◌then◌else◌,
}
use chat_intelli_api.Base.Texts.{trim_start}
use chat_intelli_api.Base.Numerals.{parse_int}

pub record Window : Type 0 where
  pub from : String
  pub to : String

pub record Day : Type 0 where
  pub name : String
  pub enabled : Bool
  pub windows : List Window

-- The clock of an organisation: the name of the day in lower case, and the minutes since midnight.
pub record Clock : Type 0 where
  pub weekday : String
  pub now_minutes : ℕ

abbrev day_keys : List String
day_keys = "sunday" ∷ "monday" ∷ "tuesday" ∷ "wednesday" ∷ "thursday" ∷ "friday" ∷ "saturday" ∷ []

-- The first part of `hhmm.split(':')`, and what is behind its colon.
unfoldable pub hour_text : String → String
hour_text String.[] = ""
hour_text (String.◌∷◌ c t) =
    let rest = hour_text t in if eqb (code c) 58 then "" else String.◌∷◌ c rest

unfoldable pub behind_colon : String → String
behind_colon String.[] = ""
behind_colon (String.◌∷◌ c t) = let rest = behind_colon t in if eqb (code c) 58 then t else rest

-- `parseInt(v, 10) || 0`; a number with a minus sign, which is no hour, is read as 0.
abbrev pub part : String → ℕ
part t = parse_int (trim_start t)

unfoldable pub parse_hour_to_minutes : String → ℕ
unfolding hour_text behind_colon parse_int
parse_hour_to_minutes hhmm = part (hour_text hhmm) * 60 + part (hour_text (behind_colon hhmm))

unfoldable pub in_time : ℕ → Window → Bool
unfolding parse_hour_to_minutes
in_time now w = leb (parse_hour_to_minutes w.from) now && ltb now (parse_hour_to_minutes w.to)

unfoldable pub day_of : String → List Day → Option Day
day_of name [] = none
day_of name (d ∷ ds) = if d.name == name then some d else day_of name ds

unfoldable pub in_windows : ℕ → List Window → Bool
unfolding in_time
in_windows now [] = true
in_windows now (w ∷ ws) = any (in_time now) (w ∷ ws)

unfoldable pub in_day : ℕ → Option Day → Bool
unfolding in_windows
in_day now none = false
in_day now (some d) = d.enabled && in_windows now d.windows

-- No hours stand for all day, every day.
unfoldable pub is_within_business_hours : Clock → Option (List Day) → Bool
unfolding in_day day_of
is_within_business_hours clock none = true
is_within_business_hours clock (some days) =
    if contains day_keys clock.weekday
    then in_day clock.now_minutes (day_of clock.weekday days)
    else true
