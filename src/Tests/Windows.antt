-- ===== src/Tests/Windows.antt =====
-- Runs of the maintenance windows.
use testharness.Prelude.{
  ℕ, ◌+◌, ◌*◌, ◌/◌, ◌%◌, ◌=s=◌, ◌≡◌, refl, ap, Bool, true, false, Option, none, some, [], ◌∷◌, ◌==◌,
  if◌then◌else◌, length, arith, select_one,
}
use testharness.Db.{Db, Window}
use testharness.Db.Runs.{get_run}
use testharness.Db.RunnerJobs.{get_runner_job}
use testharness.Db.Windows.{list_maintenance_windows}
use testharness.Dispatch.Ingest.{Report, Ingested, ok, ingest_runner_results}
use testharness.Maintenance.{Calendar, cron_window_active, weekly_open, is_in_maintenance}
use testharness.Maintenance.Starts.{started_within}
use testharness.Maintenance.Cron.{IsTrigger, cron_window_active_lem}
use testharness.Maintenance.Weekly.{is_weekly_start, weekly_open_lem}
use testharness.Maintenance.Effect.{maintenance_silences}
use testharness.Tests.{sample, held, a_run}

-- A trigger that fires every hour.
abbrev hourly : ℕ → Option ℕ
hourly t = some ((t + 3599) / 3600 * 3600)

abbrev on_the_hour : ℕ → Bool
on_the_hour u = u % 3600 == 0

abbrev second_of : Option ℕ → ℕ
second_of none = 0
second_of (some t) = t

next_hour : (t c : ℕ) → hourly t ≡ some c → (t + 3599) / 3600 * 3600 ≡ c
next_hour t c e = ap second_of e

hourly-IsTrigger : IsTrigger on_the_hour hourly
hourly-IsTrigger = record {
  behind = λ t c e. omega (arith, next_hour t c e);
  firing = λ t c e. ground (arith, next_hour t c e);
  first = λ t c u e p h.
      let whole : u % 3600 ≡ 0 = ground (arith, h) in omega (arith, next_hour t c e, p, whole);
  complete = λ t u e p. cc e;
}

cron_window_active_example :
    cron_window_active hourly 1800 9000 ≡ started_within on_the_hour 9000 1800
cron_window_active_example = cron_window_active_lem on_the_hour hourly 1800 9000 hourly-IsTrigger

-- From 22:00 to 02:00 on Sundays, early on a Monday.
weekly_open_example :
    weekly_open (λ d. d == 6) 79200 (some 14400) 349200
    ≡ started_within (is_weekly_start (λ d. d == 6) 79200) 349200 14400
weekly_open_example = weekly_open_lem (λ d. d == 6) 79200 14400 349200 (omega arith) (omega arith)

abbrev calendar : Calendar
calendar = record {
  parse_iso = λ s. if s =s= "2026-12-23T00:00:00Z" then some 0 else some 100;
  parse_time = λ s. none;
  local = λ tz t. t;
  fire = λ cron. none;
  clean = λ s. s;
  lower = λ s. s;
}

abbrev upgrade : Window
upgrade = record {
  id = "m1";
  name = some "upgrade";
  app = some "shop";
  environment = none;
  window_type = some "range";
  cron = none;
  duration_minutes = none;
  start = none;
  end = none;
  start_time = some "2026-12-23T00:00:00Z";
  end_time = some "2026-12-27T23:59:59Z";
  days_of_week = [];
  timezone = some "UTC";
  enabled = true;
  created_at = 0;
}

abbrev planned : Db
planned = record sample { maintenance_windows = upgrade ∷ [] }

abbrev failure : Report
failure = record {
  result_id = "t1";
  test_name = "login";
  status = some "fail";
  error_msg = none;
  duration_ms = some 120;
  finished_at = some 34;
  screenshot = none;
  step_log = [];
}

in_window :
    is_in_maintenance calendar [] planned 50 (some "shop") (some "production") ≡ some "upgrade"
unfolding is_in_maintenance list_maintenance_windows
in_window = refl

maintenance_silences_example :
    (i : Ingested) × (ingest_runner_results
        (λ d app environment. is_in_maintenance calendar [] d 50 (some app) (some environment))
        true
        planned
        "j3"
        (failure ∷ [])
        none
        []
        35
      ≡ ok i)
    × (length i.db.test_results ≡ 1)
    × (i.alerts ≡ [])
    × (i.webhook ≡ false)
maintenance_silences_example =
    maintenance_silences calendar [] 50 true planned "j3" (failure ∷ []) none [] 35 held
      (a_run "j3") "upgrade" (unfold get_runner_job select_one in refl)
      (unfold get_run select_one in refl) in_window
