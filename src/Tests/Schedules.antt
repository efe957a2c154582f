-- ===== src/Tests/Schedules.antt =====
-- Runs of the scheduler.
use testharness.Prelude.{
  String, ◌=s=◌, ◌≡◌, refl, Option, none, some, List, [], ◌∷◌, In, if◌then◌else◌, starts_with, ◌==◌,
}
use testharness.VersionSkew.{ℤ, pos, negsuc}
use testharness.Schedule.{
  AppSchedule, EnvSchedule, Job, job_id, translate_dow_digit, normalize_dow_field, build_scheduler,
}
use testharness.Schedule.Jobs.{IsReady, HasId, the_job, build_scheduler_lem}

abbrev same : String → String
same s = s

abbrev one_word : String → List String
one_word s = s ∷ []

abbrev digit : String → Option ℤ
digit s = if s =s= "0" then some (pos 0) else if s =s= "5" then some (pos 5) else none

abbrev shown : ℤ → String
shown (pos n) = if n == 6 then "6" else "4"
shown (negsuc n) = "?"

abbrev crontab : String → Option String
crontab s = some s

abbrev shop : AppSchedule
shop = record { app = "shop"; environments = "production" ∷ []; schedule = "" }

abbrev production : EnvSchedule
production = record { name = "production"; schedule = "@daily" }

-- From Sunday to Friday becomes a range from 6 to 4.
dow_range : normalize_dow_field same one_word digit shown crontab "0-5" ≡ "6-4"
unfolding normalize_dow_field translate_dow_digit starts_with
dow_range = refl

build_scheduler_example :
    ((j : Job String)
      → In j (build_scheduler same one_word digit shown crontab (production ∷ []) (shop ∷ []))
      → (env : EnvSchedule) × (app_def : AppSchedule) × In env (production ∷ [])
        × In app_def (shop ∷ [])
        × ((t : String) × IsReady same one_word digit shown crontab env app_def t
            × (j ≡ the_job same one_word digit shown crontab env app_def t)))
    × ((env : EnvSchedule) (app_def : AppSchedule) (t : String)
        → In env (production ∷ [])
        → In app_def (shop ∷ [])
        → IsReady same one_word digit shown crontab env app_def t
        → HasId same one_word digit shown crontab
            (job_id app_def env)
            (build_scheduler same one_word digit shown crontab (production ∷ []) (shop ∷ [])))
build_scheduler_example =
    build_scheduler_lem same one_word digit shown crontab (production ∷ []) (shop ∷ [])
