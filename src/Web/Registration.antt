-- ===== src/Web/Registration.antt =====
-- `runner_register` and `runner_jobs_long_poll` of web/routes/runner.py. The time that a wait takes is
-- given as the moments at which the queue's event wakes it; `strip` stands for `str.strip`.
pub mod Rights
use Prim.Native.Nat.{min}
use testharness.Prelude.{
  ℕ, ◌+◌, ◌/◌, max, String, ◌=s=◌, Bool, true, false, not, ◌&&◌, ◌||◌, Option, none, some, List, [],
  ◌∷◌, if◌then◌else◌, leb, ltb, ◌==◌,
}
use testharness.Db.{Db, Job, Runner, User, ApiKey}
use testharness.Db.RunnerJobs.{claim_runner_jobs}
use testharness.Db.Accounts.{get_api_key_by_id}
use testharness.Db.Runners.{
  Binding, bound, unbound, conflict, Registration, Upsert, err, checked, UpsertError, bind_conflict,
  integrity_error, get_runner_by_name, check_runner_binding, key_of, upsert_runner,
  touch_runner_heartbeat,
}
use testharness.VersionSkew.{ℤ, is_version_stale, is_major_incompatible}
use testharness.Web.Auth.{key_usable, bound_key_releasable}
use testharness.Web.RunnerApi.{Reply, ok, http_error, is_bound, is_draining, clamp_capacity}

pub record RegisterRequest : Type 0 where
  pub name : String
  pub tags : List String
  pub capabilities : List String
  pub version : Option String

-- get_runner_bound_key: the row of the key that the runner is bound to
abbrev pub bound_key_row : Db → Option String → Option ApiKey
bound_key_row db none = none
bound_key_row db (some key_id) = get_api_key_by_id db key_id

abbrev is_conflict : Binding → Bool
is_conflict conflict = true
is_conflict _ = false

-- A conflict is 409; another IntegrityError cannot come from a checked write.
abbrev pub registered_reply : Upsert → Db → Reply (Unit {0}) × Db
registered_reply (Upsert.ok db') db = (ok tt, db')
registered_reply (err bind_conflict) db = (http_error 409, db)
registered_reply (err integrity_error) db = (http_error 500, db)

module _ (strip : String → String) (central_version : String) (warning_minors : ℤ) where
  abbrev pub registration_of : RegisterRequest → Option Runner → String → Registration
  registration_of req existing key_id = record {
    name = strip req.name;
    tags = req.tags;
    capabilities = req.capabilities;
    version = req.version;
    api_key_id = some key_id;
    version_stale = some (is_version_stale req.version central_version warning_minors);
    expected = checked (key_of existing);
  }

  -- The part of the handler that reads the binding and writes the row; the audit log is left out.
  unfoldable pub runner_register :
      Db → RegisterRequest → User → String → String → ℕ → Reply (Unit {0}) × Db
  unfolding upsert_runner bound_key_releasable check_runner_binding
  runner_register db req user key_id rid now =
      let name = strip req.name in
      let existing = get_runner_by_name db name in
      let binding = check_runner_binding db name key_id in
      let releasable = bound_key_releasable now (bound_key_row db (key_of existing)) user in
      if name =s= ""
      then (http_error 422, db)
      else if is_conflict binding && not releasable
      then (http_error 409, db)
      else registered_reply (upsert_runner db rid (registration_of req existing key_id) now) db

-- The answers of the long poll: jobs, or 204 with the value of Retry-After.
pub data Answer : Type 0 where
  jobs : List Job → Answer
  no_content : ℕ → Answer

-- max(0, min(int(wait), 60)); a negative wait gives 0
abbrev pub clamp_wait : ℕ → ℕ
clamp_wait wait = min wait 60

-- max(1, wait // 2 if wait else 30)
abbrev pub retry_hint : ℕ → ℕ
retry_hint wait = max 1 (if wait == 0 then 30 else wait / 2)

-- What the other requests did between two turns, and the time of the next turn.
pub record Wake : Type 0 where
  pub meanwhile : Db → Db
  pub at : ℕ

module _ (name key_id : String) (tags : List String) (capacity wait deadline : ℕ) where
  abbrev pub may_claim : Db → ℕ → Bool
  may_claim db now =
      key_usable now (get_api_key_by_id db key_id) && is_bound (check_runner_binding db name key_id)

  abbrev pub turn : List Job → Db → Reply Answer × Db → Reply Answer × Db
  turn [] db later = later
  turn (j ∷ js) db later = (ok (jobs (j ∷ js)), db)

  abbrev pub timed_out : Db → Reply Answer × Db
  timed_out db = (ok (no_content (retry_hint wait)), db)

  -- The loop of claims; the list of wake-ups ends where `wait_for` times out. The deadline and the
  -- expiry of the key are read off one clock.
  unfoldable pub long_poll : List Wake → Db → ℕ → Reply Answer × Db
  unfolding claim_runner_jobs key_usable check_runner_binding
  long_poll [] db now =
      let (claimed, db') = claim_runner_jobs db name tags capacity now in
      if not (may_claim db now) then (http_error 403, db) else turn claimed db' (timed_out db')
  long_poll (w ∷ wakes) db now =
      let (claimed, db') = claim_runner_jobs db name tags capacity now in
      let later = long_poll wakes (w.meanwhile db') w.at in
      if not (may_claim db now)
      then (http_error 403, db)
      else turn claimed db' (if leb deadline now then timed_out db' else later)

abbrev pub long_poll_found :
    String → Db → String → String → ℕ → ℕ → List Wake → ℕ → Option Runner → Reply Answer × Db
long_poll_found central_version db name key_id capacity wait wakes now none = (http_error 404, db)
long_poll_found central_version db name key_id capacity wait wakes now (some runner) =
    let touched = touch_runner_heartbeat name now db in
    let polled =
      long_poll name key_id runner.tags (clamp_capacity capacity) (clamp_wait wait)
        (now + clamp_wait wait) wakes touched now in
    if not (is_bound (check_runner_binding db name key_id))
    then (http_error 403, db)
    else if is_draining runner.status
    then (ok (no_content 30), touched)
    else if is_major_incompatible runner.version central_version
    then (ok (no_content 60), touched)
    else polled

unfoldable pub runner_jobs_long_poll :
    String → Db → String → String → ℕ → ℕ → List Wake → ℕ → Reply Answer × Db
runner_jobs_long_poll central_version db name key_id capacity wait wakes now =
    long_poll_found central_version db name key_id capacity wait wakes now
      (get_runner_by_name db name)
