-- ===== src/Dispatch/Remote.antt =====
-- `parse_run_on`, `should_dispatch_remotely` and `queue_remote_run` of harness/worker_dispatch.py.
-- What `resolve_app_def_for_dispatch` and `resolve_safe_base_url` give is an argument, the resolved
-- app or `none` where they raise. The ids are new uuids.
pub mod Routing
use testharness.Prelude.{
  ℕ, String, ◌=s=◌, Bool, true, false, not, ◌||◌, Option, none, some, List, is_none, if◌then◌else◌,
}
use testharness.Db.{Db, Run, RunStatus}
use testharness.Db.Runs.{insert_run, update_run_status}
use testharness.Db.RunnerJobs.{queue_runner_job}

-- The value of `run_on`: a text, a mapping with the texts of its `tag` and `name`, or anything else,
-- also nothing.
pub data RunOn : Type 0 where
  text : String → RunOn
  mapping : Option String → Option String → RunOn
  other : RunOn

-- tag and isinstance(tag, str)
abbrev pub filled : Option String → Option String
filled none = none
filled (some s) = if s =s= "" then none else some s

abbrev pub by_name : Option String → Option String × Option String
by_name name = (filled name, none)

abbrev by_tag : Option String → Option String → Option String × Option String
by_tag none name = by_name name
by_tag (some tag) name = (none, some tag)

-- (runner_name, target_tag)
unfoldable pub parse_run_on : RunOn → Option String × Option String
parse_run_on (text name) = by_name (some name)
parse_run_on (mapping tag name) = by_tag (filled tag) name
parse_run_on other = (none, none)

unfoldable pub should_dispatch_remotely : RunOn → Bool
unfolding parse_run_on
should_dispatch_remotely spec =
    let (name, tag) = parse_run_on spec in not (is_none name) || not (is_none tag)

pub record ResolvedApp : Type 0 where
  pub app : String
  pub run_on : RunOn
  pub app_def_json : String

abbrev pub new_run : String → ResolvedApp → String → String → Run
new_run run_id resolved environment triggered_by = record {
  id = run_id;
  app = resolved.app;
  environment = environment;
  triggered_by = triggered_by;
  status = RunStatus.queued;
  started_at = none;
  finished_at = none;
}

abbrev pub queued_run : String → Option Db → Option Db
queued_run run_id none = none
queued_run run_id (some db) = some (update_run_status db run_id RunStatus.queued none none)

-- The row of the run, unless the caller has written it and gives its id.
abbrev pub with_run : Bool → Db → Run → Option Db
with_run true db run = some db
with_run false db run = queued_run run.id (insert_run db run)

abbrev pub queue_job : Option Db → String → String → ResolvedApp → String → ℕ → Option Db
queue_job none job_id run_id resolved environment now = none
queue_job (some db) job_id run_id resolved environment now =
    let (runner_name, target_tag) = parse_run_on resolved.run_on in
    queue_runner_job db job_id run_id resolved.app_def_json environment runner_name target_tag now

unfoldable pub queue_remote_run :
    Db → Option ResolvedApp → String → String → Bool → String → String → ℕ → Option Db
unfolding parse_run_on queue_runner_job insert_run update_run_status
queue_remote_run db none environment triggered_by given run_id job_id now = none
queue_remote_run db (some resolved) environment triggered_by given run_id job_id now =
    queue_job (with_run given db (new_run run_id resolved environment triggered_by)) job_id run_id
      resolved environment now
