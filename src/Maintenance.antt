-- ===== src/Maintenance.antt =====
-- harness/maintenance.py: `is_in_maintenance`. Times are in seconds. The reading of times and of time
-- zones, the cron triggers of APScheduler, `strip` and `lower` of a text (`clean`) and `lower` alone are
-- arguments. The days of a window of the configuration are a list.
pub mod Starts
pub mod Cron
pub mod Weekly
pub mod Effect
use testharness.Prelude.{
  ℕ, zero, suc, ◌+◌, ◌-◌, ◌*◌, ◌/◌, ◌%◌, String, ◌=s=◌, Bool, true, false, not, ◌&&◌, ◌||◌, Option,
  none, some, List, [], ◌∷◌, ◌++◌, ltb, leb, ◌==◌, if◌then◌else◌, is_none,
}
use testharness.Db.{Db, Day, number, day_name, Window}
use testharness.Db.Windows.{
  filled, or_text, has_text, is_positive, has_days, list_maintenance_windows,
}

-- `fire cron` gives the first firing at or behind a time, and is none where the expression is not one.
-- `local tz` are the seconds that a clock of the zone shows since 1970, UTC where the zone is unknown.
pub record Calendar : Type 0 where
  pub parse_iso : String → Option ℕ
  pub parse_time : String → Option ℕ
  pub local : String → ℕ → ℕ
  pub fire : String → Option (ℕ → Option ℕ)
  pub clean : String → String
  pub lower : String → String

module _ (fire : ℕ → Option ℕ) (duration now : ℕ) where
  -- The loop of `_cron_window_active`, which makes two turns at most.
  unfoldable pub cron_from : ℕ → Option ℕ → Bool
  cron_from turns none = false
  cron_from zero (some candidate) = false
  cron_from (suc turns) (some candidate) =
      let more = cron_from turns (fire (suc candidate)) in
      if leb candidate now then if ltb now (candidate + duration) then true else more else false

-- `duration` in seconds
unfoldable pub cron_window_active : (ℕ → Option ℕ) → ℕ → ℕ → Bool
unfolding cron_from
cron_window_active fire duration now = cron_from fire duration now 2 (fire (now - duration))

-- Days are numbered from 1 January 1970, a Thursday; Monday is 0.
abbrev pub weekday : ℕ → ℕ
weekday day = (day + 3) % 7

-- DAY_NAME_TO_WEEKDAY
unfoldable pub weekday_of_name : String → Option ℕ
weekday_of_name name =
    if name =s= "mon" || name =s= "monday"
    then some 0
    else if name =s= "tue" || name =s= "tuesday"
    then some 1
    else if name =s= "wed" || name =s= "wednesday"
    then some 2
    else if name =s= "thu" || name =s= "thursday"
    then some 3
    else if name =s= "fri" || name =s= "friday"
    then some 4
    else if name =s= "sat" || name =s= "saturday"
    then some 5
    else if name =s= "sun" || name =s= "sunday"
    then some 6
    else none

abbrev pub is_weekday : ℕ → Option ℕ → Bool
is_weekday w none = false
is_weekday w (some d) = d == w

-- test_weekday in target_days
unfoldable pub is_target_day : (String → String) → List Day → ℕ → Bool
unfolding weekday_of_name
is_target_day clean [] w = false
is_target_day clean (number n ∷ days) w = n % 7 == w || is_target_day clean days w
is_target_day clean (day_name s ∷ days) w =
    is_weekday w (weekday_of_name (clean s)) || is_target_day clean days w

-- How long the window is open that starts at second `st` of a day, if it is open at all: the minutes, or
-- until the second `et`, of the next day if that is not later than `st`.
abbrev until : ℕ → Option ℕ → Option ℕ
until st none = none
until st (some et) = if leb et st then some ((et + 86400) - st) else some (et - st)

abbrev end_of : (String → Option ℕ) → Option String → Option ℕ
end_of parse_time none = none
end_of parse_time (some s) = parse_time s

unfoldable pub window_span : (String → Option ℕ) → ℕ → Option ℕ → Option String → Option ℕ
window_span parse_time st none end_time = until st (end_of parse_time (filled end_time))
window_span parse_time st (some minutes) end_time =
    if ltb 0 minutes then some (minutes * 60) else until st (end_of parse_time (filled end_time))

abbrev pub is_inside : ℕ → Option ℕ → ℕ → Bool
is_inside start none t = false
is_inside start (some span) t = leb start t && ltb t (start + span)

-- The window that starts on the day is open.
abbrev pub open_on : (ℕ → Bool) → ℕ → Option ℕ → ℕ → ℕ → Bool
open_on is_target st span t day = is_target (weekday day) && is_inside (day * 86400 + st) span t

-- The loop of `_weekly_window_active`, over today and yesterday.
unfoldable pub weekly_open : (ℕ → Bool) → ℕ → Option ℕ → ℕ → Bool
weekly_open is_target st span t =
    let today = t / 86400 in
    open_on is_target st span t today || open_on is_target st span t (today - 1)

abbrev pub or_utc : Option String → String
or_utc tz = elim (filled tz) [ none ↦ "UTC" | some s ↦ s ]

module _ (calendar : Calendar) where
  abbrev weekly_from : Window → ℕ → Option ℕ → Bool
  weekly_from w now none = false
  weekly_from w now (some st) =
      weekly_open (is_target_day calendar.clean w.days_of_week) st
        (window_span calendar.parse_time st w.duration_minutes (or_text w.end_time w.end))
        (calendar.local (or_utc w.timezone) now)

  unfoldable pub weekly_window_active : Window → ℕ → Bool
  unfolding weekly_open is_target_day window_span
  weekly_window_active w now =
      has_days w.days_of_week
      && weekly_from w now (end_of calendar.parse_time (filled (or_text w.start_time w.start)))

  abbrev is_type : String → Option String → Bool
  is_type t none = false
  is_type t (some s) = calendar.lower s =s= t

  abbrev between : ℕ → Option ℕ → Option ℕ → Bool
  between now none end = false
  between now (some start) none = false
  between now (some start) (some end) = leb start now && leb now end

  -- A fixed range. A window of the type `range` does not look at `start` and `end`.
  unfoldable pub range_active : Window → ℕ → Bool
  range_active w now =
      if is_type "range" w.window_type
      then between now (end_of calendar.parse_iso w.start_time)
          (end_of calendar.parse_iso w.end_time)
      else between now (end_of calendar.parse_iso (or_text w.start w.start_time))
          (end_of calendar.parse_iso (or_text w.end w.end_time))

  abbrev fires : Option (ℕ → Option ℕ) → Option ℕ → ℕ → Bool
  fires none duration_minutes now = false
  fires (some fire) none now = false
  fires (some fire) (some minutes) now = ltb 0 minutes && cron_window_active fire (minutes * 60) now

  abbrev trigger : Option String → Option (ℕ → Option ℕ)
  trigger none = none
  trigger (some cron) = calendar.fire cron

  unfoldable pub window_active : Window → ℕ → Bool
  unfolding weekly_window_active range_active cron_window_active
  window_active w now =
      ((is_type "weekly" w.window_type || has_days w.days_of_week) && weekly_window_active w now)
      || (range_active w now || fires (trigger (filled w.cron)) w.duration_minutes now)

  -- One line of `_matches_target`: what the window names, and what is asked for.
  abbrev pub matches : Option String → Option String → Bool
  matches none asked = true
  matches (some wanted) none = false
  matches (some wanted) (some value) = calendar.clean wanted =s= calendar.clean value

  unfoldable pub matches_target : Window → Option String → Option String → Bool
  matches_target w app environment =
      matches (filled w.app) (filled app) && matches (filled w.environment) (filled environment)

  -- What the loop of `is_in_maintenance` asks of a window.
  abbrev pub suppresses : ℕ → Option String → Option String → Window → Bool
  suppresses now app environment w =
      w.enabled && (matches_target w app environment && window_active w now)

  abbrev pub or_unnamed : Option String → String
  or_unnamed name = elim (filled name) [ none ↦ "(unnamed)" | some s ↦ s ]

  unfoldable pub first_suppressing : ℕ → Option String → Option String → List Window → Option String
  unfolding window_active matches_target
  first_suppressing now app environment [] = none
  first_suppressing now app environment (w ∷ windows) =
      let rest = first_suppressing now app environment windows in
      if suppresses now app environment w then some (or_unnamed w.name) else rest

  -- `configured` are the windows of the configuration.
  unfoldable pub is_in_maintenance :
      List Window → Db → ℕ → Option String → Option String → Option String
  unfolding first_suppressing list_maintenance_windows
  is_in_maintenance configured db now app environment =
      first_suppressing now app environment
        (configured ++ list_maintenance_windows db true app environment)
