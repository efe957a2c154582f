-- ===== src/Tests.antt =====
-- A small database that the examples run on: one runner `w1` with the tag `gpu` and the key `k1`, a
-- second one `w2`, two queued jobs and one that is assigned.
mod Queue
mod Registry
mod Limits
mod Results
mod Access
mod Outbox
mod Workers
mod Windows
mod SignIns
mod Admin
mod Groups
mod Settings
mod Schedules
use testharness.Prelude.{ℕ, String, none, some, List, [], ◌∷◌, false, Option}
use testharness.Db.{Db, empty, Job, JobState, Run, RunStatus, Runner, RunnerStatus, online}

abbrev pub a_job : String → JobState → Option String → Option ℕ → ℕ → Job
a_job id state worker at queued_at = record {
  id = id;
  run_id = id;
  runner_name = none;
  target_tag = some "gpu";
  app_def_json = "{}";
  environment = "production";
  state = state;
  queued_at = queued_at;
  assigned_to = worker;
  assigned_at = at;
  completed_at = none;
  error = none;
  retry_count = 0;
}

abbrev pub a_run : String → Run
a_run id = record {
  id = id;
  app = "shop";
  environment = "production";
  triggered_by = "scheduler";
  status = RunStatus.queued;
  started_at = none;
  finished_at = none;
}

abbrev pub a_runner : String → String → String → Runner
a_runner id name key = record {
  id = id;
  name = name;
  tags = "gpu" ∷ [];
  capabilities = "browser" ∷ [];
  version = some "2.4.0";
  api_key_id = some key;
  first_seen_at = 0;
  last_seen_at = some 0;
  status = online;
  version_stale = false;
  health = none;
}

abbrev pub waiting : Job
waiting = a_job "j1" JobState.queued none none 20

abbrev pub waiting_first : Job
waiting_first = a_job "j2" JobState.queued none none 10

abbrev pub held : Job
held = a_job "j3" JobState.assigned (some "w1") (some 5) 5

abbrev pub worker : Runner
worker = a_runner "r1" "w1" "k1"

abbrev pub sample : Db
sample = record empty {
  runs = a_run "j1" ∷ a_run "j2" ∷ a_run "j3" ∷ [];
  runner_jobs = waiting ∷ waiting_first ∷ held ∷ [];
  runners = worker ∷ a_runner "r2" "w2" "k2" ∷ [];
}
