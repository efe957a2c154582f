-- ===== src/Tests/Workers.antt =====
-- Runs of the tests of an app, in the server and in a worker.
use testharness.Prelude.{
  zero, suc, inr, String, ◌≡◌, refl, false, none, some, List, [], ◌∷◌, map, arith, Option, ◌=s=◌,
  if◌then◌else◌,
}
use testharness.Db.{empty, TestResult}
use testharness.Db.RunnerJobs.{claim_runner_jobs}
use testharness.Db.RunnerJobs.Claims.{HasDistinctJobs, job_id_of}
use testharness.Dispatch.Ingest.{record_each}
use testharness.Execution.{
  TestDef, finished, raised, SloTexts, checked, is_failed, apply_slo_threshold,
}
use testharness.Execution.RunApp.{Captures, Certs, record_attempts}
use testharness.Execution.Mirror.{
  Entry, as_attempt, as_report, SameStates, record_attempts-record_each,
}
use testharness.Worker.Jobs.{
  WorkerTest, WorkerAttempts, execute_job, run_one, execute_one, attempts_from, worker_executor_of,
}
use testharness.Worker.Jobs.Reported.{Reports, execute_job_lem}
use testharness.Worker.Loops.{Pool, idle, start, step, polled}
use testharness.Worker.Loops.Capacity.{IsBounded, Reach-IsBounded}
use testharness.VersionSkew.{ℤ, pos, negsuc}
use testharness.Web.RunnerApi.{clamp_capacity}
use testharness.Tests.{sample}

abbrev a_test : String → String → TestDef
a_test name test_type = record {
  name = some name;
  test_type = test_type;
  retry = 1;
  max_duration_ms = some 500;
  extract = [];
}

abbrev a_result : String → String → String → TestResult
a_result id name status = record {
  id = id;
  run_id = "j3";
  app = "shop";
  environment = "production";
  test_name = name;
  status = status;
  error_msg = none;
  step_log = [];
  screenshot = some "login.png";
  duration_ms = some 600;
  finished_at = some 34;
  screenshot_path = none;
}

abbrev entries : List Entry
entries =
    (a_test "login" "browser", a_result "t1" "login" "fail", [])
    ∷ (a_test "search" "api", a_result "t2" "search" "pass", [])
    ∷ (a_test "login" "browser", a_result "t3" "login" "pass", [])
    ∷ []

abbrev no_certs : Certs
no_certs = record {
  of_steps = λ steps status. none;
  latest = λ db app environment test_name. none;
  renewal_text = λ days. "renewed";
}

record_attempts-record_each_example :
    ((record_attempts no_certs "j3" "shop" "production" 35 (map as_attempt entries) empty).0
      ≡ (record_each "j3" "shop" "production" [] 35 (map as_report entries) empty).0)
    × SameStates
        (record_attempts no_certs "j3" "shop" "production" 35 (map as_attempt entries) empty).1
        (record_each "j3" "shop" "production" [] 35 (map as_report entries) empty).1
record_attempts-record_each_example =
    record_attempts-record_each no_certs "j3" "shop" "production" [] 35 entries empty
      (refl, (refl, (refl, tt)))

abbrev texts : SloTexts
texts duration_ms max_ms = ("SLO check", "SLO violation")

-- Every first attempt raises, and every second one passes, takes too long and captures a token.
abbrev attempts : WorkerAttempts
attempts executor td zero = raised "Worker exception" "e1"
attempts executor td (suc i) = finished (a_result "t1" "login" "pass") (("TOKEN", "x") ∷ [])

abbrev a_job_test : String → String → ℤ → WorkerTest
a_job_test name test_type retry = record {
  name = some name;
  test_type = test_type;
  retry = retry;
  max_duration_ms = some 500;
}

-- A test of the type `$TOKEN` has no value before the token is captured.
abbrev with_token : Captures → WorkerTest → Option WorkerTest
with_token [] td = if td.test_type =s= "$TOKEN" then none else some td
with_token (c ∷ captures) td =
    if td.test_type =s= "$TOKEN" then some (record td { test_type = "api" }) else some td

abbrev login : WorkerTest
login = a_job_test "login" "browser" (pos 1)

abbrev skipped : WorkerTest
skipped = a_job_test "skipped" "api" (negsuc 0)

abbrev search : WorkerTest
search = a_job_test "search" "$TOKEN" (pos 0)

abbrev found : WorkerTest
found = a_job_test "search" "api" (pos 0)

execute_job_example :
    (results : List TestResult) × (run_one (
        execute_job "j3" "shop" "production" 35 texts attempts with_token none
          (login ∷ skipped ∷ search ∷ []))
      ≡ some results)
    × Reports "j3" "shop" "production" 35 texts attempts (login ∷ skipped ∷ found ∷ []) results
unfolding execute_one attempts_from worker_executor_of checked is_failed apply_slo_threshold
execute_job_example =
    execute_job_lem "j3" "shop" "production" 35 texts attempts with_token
      (login ∷ skipped ∷ search ∷ []) (login ∷ skipped ∷ found ∷ [])
      (
        login,
        skipped ∷ found ∷ [],
        refl,
        refl,
        (skipped, found ∷ [], refl, refl, (found, [], refl, refl, refl)),
      )

sample-Distinct : HasDistinctJobs sample
sample-Distinct = ((refl, (refl, tt)), ((refl, tt), (tt, tt)))

abbrev claimed : List String
claimed = map job_id_of (claim_runner_jobs sample "w1" ("gpu" ∷ []) (clamp_capacity 2) 30).0

abbrev busy : Pool
busy = record { running = []; waiting = claimed; shut_down = false }

Reach-IsBounded_example : IsBounded 2 busy
Reach-IsBounded_example = Reach-IsBounded 2 busy (
    step start (
      polled {p = idle} 2 claimed (omega arith) (omega arith)
        (inr (sample, "w1", "gpu" ∷ [], 30, sample-Distinct, refl))))
