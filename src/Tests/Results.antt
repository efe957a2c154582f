-- ===== src/Tests/Results.antt =====
-- Runs of the ingestion of results and of the search for stale apps.
use testharness.Prelude.{
  Bool, false, ◌+◌, String, ◌≡◌, ◌⊎◌, refl, none, some, List, [], ◌∷◌, length, false, true, Option,
  is_none, select_one, select_where,
}
use testharness.Db.{Db, RunStatus, empty}
use testharness.Db.Runs.{get_run}
use testharness.Db.RunnerJobs.{get_runner_job, complete}
use testharness.Db.AppStates.Upserts.{state_at}
use testharness.Dispatch.Ingest.{Report, record_each, Ingested, ok, ingest_runner_results}
use testharness.Dispatch.Ingest.Track.{Alternates, alerts_of, record_each-Alternates}
use testharness.Dispatch.Ingest.Recorded.{finished_run, ingest_runner_results_lem}
use testharness.Staleness.{StalenessConfig, StaleApp}
use testharness.Tests.{sample, held, a_run}

abbrev report : String → String → String → Report
report id test_name status = record {
  result_id = id;
  test_name = test_name;
  status = some status;
  error_msg = none;
  duration_ms = some 120;
  finished_at = some 34;
  screenshot = none;
  step_log = [];
}

abbrev reports : List Report
reports = report "t1" "login" "fail" ∷ report "t2" "search" "pass" ∷ report "t3" "login" "pass" ∷ []

-- `login` fails and recovers.
record_each-Alternates_example : Alternates (state_at empty "shop" "production" "login") (
    alerts_of "j3" "shop" "production" [] 35 "login"
      (record_each "j3" "shop" "production" [] 35 reports empty).0)
record_each-Alternates_example =
    record_each-Alternates "j3" "shop" "production" [] 35 "login" reports empty
      (unfold select_where in (refl, (refl, tt)))

abbrev no_window : Db → String → String → Option String
no_window db app environment = none

ingest_runner_results_example :
    (i : Ingested) × (ingest_runner_results no_window true sample "j3" reports none [] 35 ≡ ok i)
    × (get_runner_job i.db "j3" ≡ some (complete none 35 held))
    × (get_run i.db "j3" ≡ some (finished_run none 35 (a_run "j3")))
    × (length i.db.test_results ≡ 0 + 3)
    × ((is_none (no_window i.db "shop" "production") ≡ true)
        ⊎ ((i.alerts ≡ []) × (i.webhook ≡ false)))
ingest_runner_results_example =
    ingest_runner_results_lem no_window true sample "j3" reports none [] 35 held (a_run "j3")
      (unfold get_runner_job select_one in refl) (unfold get_run select_one in refl)

-- The last run of the shop finished at 0; an hour is allowed.
abbrev idle : Db
idle = record empty {
  runs = record (a_run "j1") { status = RunStatus.complete; finished_at = some 0 } ∷ [];
}

abbrev daily : StalenessConfig
daily = record { threshold_min = 60; realert_hours = 24; enabled = true }

abbrev always_open : Option (String × String) → Bool
always_open target = false

abbrev shop_is_stale : StaleApp
shop_is_stale = record { app = "shop"; environment = "production"; last_finished = 0 }
