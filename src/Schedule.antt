-- ===== src/Schedule.antt =====
-- harness/auto_scheduler.py: the jobs of the scheduler. Python's `strip`, `split` at blanks, `int` and `str` of a number
-- are arguments, and so are the triggers of APScheduler (`from_crontab`, none where it raises ValueError or
-- KeyError). A job that is added with an id that is taken replaces the other one.
pub mod Jobs
use Prim.Native.Char.{code}
use testharness.Prelude.{
  ℕ, zero, suc, String, ◌=s=◌, Bool, true, false, not, ◌&&◌, ◌||◌, Option, none, some, List, [],
  ◌∷◌, ◌==◌, leb, if◌then◌else◌, codes, has_code, map, starts_with,
}
use testharness.VersionSkew.{ℤ, pos, negsuc}
use testharness.Config.Refs.{append}

-- Cron has 0 and 7 for Sunday, APScheduler counts from 0 for Monday.
unfoldable pub translate_dow_digit : ℤ → ℤ
translate_dow_digit (pos zero) = pos 6
translate_dow_digit (pos (suc n)) = if n == 6 then pos 6 else pos n
translate_dow_digit (negsuc n) = negsuc (suc n)

-- text.split(c)
abbrev split_parts : ℕ → String → String × List String
split_parts sep String.[] = ("", [])
split_parts sep (String.◌∷◌ c s) =
    let (part, parts) = split_parts sep s in
    if code c == sep then ("", part ∷ parts) else (String.◌∷◌ c part, parts)

abbrev split_at : ℕ → String → List String
split_at sep s = let (part, parts) = split_parts sep s in part ∷ parts

-- part.partition(c), of a text that has the character
abbrev partition : ℕ → String → String × String
partition sep String.[] = ("", "")
partition sep (String.◌∷◌ c s) =
    let (front, back) = partition sep s in
    if code c == sep then ("", s) else (String.◌∷◌ c front, back)

-- sep.join(parts)
abbrev join : String → List String → String
join sep [] = ""
join sep (p ∷ []) = p
join sep (p ∷ q ∷ parts) = append p (append sep (join sep (q ∷ parts)))

pub record AppSchedule : Type 0 where
  pub app : String
  pub environments : List String
  pub schedule : String

-- The schedule is the empty text where there is none.
pub record EnvSchedule : Type 0 where
  pub name : String
  pub schedule : String

abbrev pub defines : AppSchedule → String → Bool
defines app_def env_name = in_names app_def.environments
  where
    in_names : List String → Bool
    in_names [] = false
    in_names (n ∷ names) = n =s= env_name || in_names names

unfoldable pub resolve_cron : AppSchedule → EnvSchedule → String
resolve_cron app_def env = if app_def.schedule =s= "" then env.schedule else app_def.schedule

-- What a job calls: a run of an app in an environment, or one of the callbacks of the server.
pub data Call : Type 0 where
  run : AppSchedule → String → Call
  prune stale_check analytics_export cert_check : Call

pub record Job {ℓ} (Trigger : Type ℓ) : Type ℓ where
  pub id : String
  pub trigger : Trigger
  pub call : Call

abbrev pub job_id : AppSchedule → EnvSchedule → String
job_id app_def env = append "run::" (append app_def.app (append "::" env.name))

module _ {Trigger : Type 0} (strip : String → String) (split : String → List String)
    (int : String → Option ℤ) (str : ℤ → String) (from_crontab : String → Option Trigger) where
  abbrev number_or : String → Option ℤ → String
  number_or part none = part
  number_or part (some n) = str (translate_dow_digit n)

  abbrev range_or : String → Option ℤ → Option ℤ → String
  range_or part (some a) (some b) =
      append (str (translate_dow_digit a)) (append "-" (str (translate_dow_digit b)))
  range_or part _ _ = number_or part (int part)

  abbrev translated : String → String
  translated part =
      let (a, b) = partition b'-' part in
      if has_code b'-' (codes part) && not (starts_with part "-")
      then range_or part (int a) (int b)
      else number_or part (int part)

  unfoldable pub normalize_dow_field : String → String
  unfolding translate_dow_digit starts_with
  normalize_dow_field field =
      if field =s= "*" || has_code b'/' (codes field)
      then field
      else join "," (map translated (split_at b',' field))

  abbrev with_dow : List String → List String
  with_dow (a ∷ b ∷ c ∷ d ∷ dow ∷ []) = a ∷ b ∷ c ∷ d ∷ normalize_dow_field dow ∷ []
  with_dow fields = fields

  unfoldable pub cron_trigger : String → Option Trigger
  unfolding normalize_dow_field
  cron_trigger expr = from_crontab (join " " (with_dow (split (strip expr))))

  abbrev pub add_job : Job Trigger → List (Job Trigger) → List (Job Trigger)
  add_job job [] = job ∷ []
  add_job job (j ∷ jobs) =
      let rest = add_job job jobs in if j.id =s= job.id then job ∷ jobs else j ∷ rest

  abbrev pub add_triggered :
      AppSchedule → EnvSchedule → Option Trigger → List (Job Trigger) → List (Job Trigger)
  add_triggered app_def env none jobs = jobs
  add_triggered app_def env (some trigger) jobs =
      add_job (record { id = job_id app_def env; trigger = trigger; call = run app_def env.name })
        jobs

  -- An app without the environment or a schedule is passed over, and so is a schedule that is invalid.
  unfoldable pub schedule_app : EnvSchedule → AppSchedule → List (Job Trigger) → List (Job Trigger)
  unfolding resolve_cron cron_trigger
  schedule_app env app_def jobs =
      if not (defines app_def env.name) || resolve_cron app_def env =s= ""
      then jobs
      else add_triggered app_def env (cron_trigger (resolve_cron app_def env)) jobs

  abbrev pub schedule_apps :
      EnvSchedule → List AppSchedule → List (Job Trigger) → List (Job Trigger)
  schedule_apps env [] jobs = jobs
  schedule_apps env (app_def ∷ apps) jobs = schedule_apps env apps (schedule_app env app_def jobs)

  abbrev pub schedule_envs :
      List EnvSchedule → List AppSchedule → List (Job Trigger) → List (Job Trigger)
  schedule_envs [] apps jobs = jobs
  schedule_envs (env ∷ envs) apps jobs = schedule_envs envs apps (schedule_apps env apps jobs)

  unfoldable pub build_scheduler : List EnvSchedule → List AppSchedule → List (Job Trigger)
  unfolding schedule_app
  build_scheduler envs apps = schedule_envs envs apps []

  abbrev added : String → Call → Option Trigger → List (Job Trigger) → Option (List (Job Trigger))
  added id call none jobs = none
  added id call (some trigger) jobs =
      some (add_job (record { id = id; trigger = trigger; call = call }) jobs)

  -- None is the exception of an invalid expression.
  unfoldable pub add_retention_job : ℕ → String → List (Job Trigger) → Option (List (Job Trigger))
  unfolding cron_trigger
  add_retention_job retention_days cron jobs =
      if retention_days == 0
      then some jobs
      else added "retention::prune" prune (cron_trigger cron) jobs

  unfoldable pub add_stale_check_job : String → List (Job Trigger) → Option (List (Job Trigger))
  unfolding cron_trigger
  add_stale_check_job cron jobs = added "staleness::check" stale_check (cron_trigger cron) jobs

  unfoldable pub add_analytics_export_job :
      String → List (Job Trigger) → Option (List (Job Trigger))
  unfolding cron_trigger
  add_analytics_export_job cron jobs =
      added "analytics::export" analytics_export (cron_trigger cron) jobs

  unfoldable pub add_cert_check_job : String → List (Job Trigger) → Option (List (Job Trigger))
  unfolding cron_trigger
  add_cert_check_job cron jobs = added "tls::cert_check" cert_check (cron_trigger cron) jobs

-- Enabled where the setting is left out.
unfoldable pub is_enabled : Option Bool → Bool
is_enabled none = true
is_enabled (some enabled) = enabled
