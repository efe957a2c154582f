-- ===== src/Tests/Registry.antt =====
-- Runs of the registry and of the workers' endpoints.
use testharness.Prelude.{
  ◌≡◌, refl, none, some, [], ◌∷◌, select_one, update_where, count_where, select_where, order_by,
  insert_by,
}
use testharness.Db.{Db, Runner, draining}
use testharness.Db.RunnerJobs.{
  assign, is_claimable, claim_candidates, claim_each, claim_runner_jobs,
}
use testharness.Db.Runners.{
  get_runner_by_name, err, bind_conflict, Registration, checked, upsert_write, check_runner_binding,
  touch_runner_heartbeat, update_runner,
}
use testharness.Db.Runners.Registry.{HasDistinctRunners, upsert_keeps_binding, registered}
use testharness.Db.RunnerJobs.Claims.{HasDistinctJobs}
use testharness.VersionSkew.{is_major_incompatible, classify_skew, parse_version}
use testharness.Web.RunnerApi.{Reply, poll_runner, runner_poll}
use testharness.Web.RunnerApi.Polling.{MayWork, poll-MayWork}
use testharness.Tests.{sample, waiting_first, worker, a_runner}

sample-Distinct : HasDistinctRunners sample
sample-Distinct = ((refl, tt), (tt, tt))

-- Somebody who saw the name unbound registers under it with the key `k2`; it is bound to `k1` by now.
abbrev takeover : Registration
takeover = record {
  name = "w1";
  tags = "gpu" ∷ [];
  capabilities = [];
  version = some "2.4.0";
  api_key_id = some "k2";
  version_stale = none;
  expected = checked none;
}

abbrev renewal : Registration
renewal = record takeover { api_key_id = some "k1"; expected = checked (some "k1") }

abbrev renewed : Db
renewed = record sample {
  runners = registered (some worker) "r9" renewal 50 ∷ a_runner "r2" "w2" "k2" ∷ [];
}

-- An admin has set `w1` to draining.
abbrev drained : Db
drained = record sample { runners = record worker { status = draining } ∷ [] }

jobs-Distinct : HasDistinctJobs sample
jobs-Distinct = ((refl, (refl, tt)), ((refl, tt), (tt, tt)))

w1_found : get_runner_by_name sample "w1" ≡ some worker
unfolding get_runner_by_name select_one
w1_found = refl

upsert_keeps_binding_example : upsert_write none sample "r9" takeover 50 ≡ err bind_conflict
upsert_keeps_binding_example =
    upsert_keeps_binding none sample "r9" takeover 50 none worker "k1" sample-Distinct refl w1_found
      refl (λ q. cc)

-- `w1` polls for one job.
polled :
    (runner_poll "2.4.1" sample "w1" "k1" 1 30).0 ≡ Reply.ok (assign "w1" 30 waiting_first ∷ [])
unfolding runner_poll poll_runner get_runner_by_name select_one check_runner_binding
    touch_runner_heartbeat update_runner update_where claim_runner_jobs claim_candidates claim_each
    select_where order_by insert_by is_claimable count_where is_major_incompatible classify_skew
    parse_version
polled = refl

poll-MayWork_example : (runner : Runner) × MayWork "2.4.1" sample "w1" "k1" runner
poll-MayWork_example =
    poll-MayWork "2.4.1" sample "w1" "k1" 1 30 (assign "w1" 30 waiting_first) [] polled
