-- ===== src/Db/Runners.antt =====
-- harness/db/_runners.py: registration and lifecycle of the remote workers.
pub mod Registry
use Prim.Native.Nat.{Ordering}
use Prim.Native.String.{compare}
use testharness.Prelude.{
  ℕ, suc, ◌+◌, String, ◌=s=◌, Bool, true, false, not, ◌&&◌, ◌||◌, Option, none, some, List, [], ◌∷◌,
  ◌++◌, if◌then◌else◌, is_none, column_is, select_one, update_where, count_where, delete_where,
  ◌==◌,
}
use testharness.Db.{Db, Job, Runner, RunnerStatus, unknown, online, offline, draining, Health}
use testharness.Db.Runs.{coalesce}
use testharness.Db.RunnerJobs.Stuck.{is_inflight, release_jobs_of}

-- sorted(set(...)), by code points; the JSON text of the list in the column is read back as it was.
insert_text : String → List String → List String
insert_text s [] = s ∷ []
insert_text s (t ∷ ts) =
    let rest = insert_text s ts in
    elim (compare s t) [ Ordering.lt ↦ s ∷ t ∷ ts | Ordering.eq ↦ t ∷ ts | Ordering.gt ↦ t ∷ rest ]

unfoldable pub sorted_set : List String → List String
unfolding insert_text
sorted_set [] = []
sorted_set (s ∷ ss) = insert_text s (sorted_set ss)

abbrev pub has_name : String → Runner → Bool
has_name name r = r.name =s= name

unfoldable pub get_runner_by_name : Db → String → Option Runner
unfolding select_one
get_runner_by_name db name = select_one (has_name name) db.runners

-- IntegrityError of the UNIQUE columns, and RunnerBindConflict.
pub data UpsertError : Type 0 where
  integrity_error bind_conflict : UpsertError

pub data Upsert : Type 0 where
  ok : Db → Upsert
  err : UpsertError → Upsert

-- `expected_api_key_id`: the sentinel _ANY, or the binding that the caller checked.
pub data Expected : Type 0 where
  any : Expected
  checked : Option String → Expected

pub record Registration : Type 0 where
  pub name : String
  pub tags : List String
  pub capabilities : List String
  pub version : Option String
  pub api_key_id : Option String
  pub version_stale : Option Bool
  pub expected : Expected

-- CASE WHEN status='draining' THEN 'draining' ELSE 'online' END
abbrev pub seen_status : RunnerStatus → RunnerStatus
seen_status draining = draining
seen_status _ = online

-- api_key_id IS NULL OR api_key_id IS ?
abbrev pub binding_allows : Expected → Option String → Bool
binding_allows any bound = true
binding_allows (checked expected) none = true
binding_allows (checked none) (some bound) = false
binding_allows (checked (some expected)) (some bound) = bound =s= expected

abbrev pub is_checked : Expected → Bool
is_checked any = false
is_checked (checked expected) = true

-- int(bool(version_stale)) if version_stale is not None else 0
abbrev stale_or_zero : Option Bool → Bool
stale_or_zero none = false
stale_or_zero (some b) = b

abbrev stale_or_old : Option Bool → Bool → Bool
stale_or_old none old = old
stale_or_old (some b) old = b

-- The SET list of the UPDATE.
abbrev pub refresh : Registration → ℕ → Runner → Runner
refresh reg now r = record r {
  tags = sorted_set reg.tags;
  capabilities = sorted_set reg.capabilities;
  version = reg.version;
  api_key_id = coalesce reg.api_key_id r.api_key_id;
  last_seen_at = some now;
  version_stale = stale_or_old reg.version_stale r.version_stale;
  status = seen_status r.status;
}

abbrev pub new_runner : String → Registration → ℕ → Runner
new_runner rid reg now = record {
  id = rid;
  name = reg.name;
  tags = sorted_set reg.tags;
  capabilities = sorted_set reg.capabilities;
  version = reg.version;
  api_key_id = reg.api_key_id;
  first_seen_at = now;
  last_seen_at = some now;
  status = online;
  version_stale = stale_or_zero reg.version_stale;
  health = none;
}

-- a row with the name or the id exists
abbrev pub is_taken : Db → String → String → Bool
is_taken db rid name =
    not (count_where (λ (r : Runner). r.name =s= name || r.id =s= rid) db.runners == 0)

abbrev pub is_target : Registration → Runner → Bool
is_target reg r = has_name reg.name r && binding_allows reg.expected r.api_key_id

-- The write of `upsert_runner`. `existing` was read in a connection of its own before, so the table
-- may have changed since.
unfoldable pub upsert_write : Option Runner → Db → String → Registration → ℕ → Upsert
unfolding update_where count_where
upsert_write none db rid reg now =
    if is_taken db rid reg.name
    then err (if is_checked reg.expected then bind_conflict else integrity_error)
    else ok (record db { runners = db.runners ++ new_runner rid reg now ∷ [] })
upsert_write (some existing) db rid reg now =
    if is_checked reg.expected && count_where (is_target reg) db.runners == 0
    then err bind_conflict
    else ok (record db { runners = update_where (is_target reg) (refresh reg now) db.runners })

unfoldable pub upsert_runner : Db → String → Registration → ℕ → Upsert
unfolding upsert_write get_runner_by_name
upsert_runner db rid reg now = upsert_write (get_runner_by_name db reg.name) db rid reg now

-- UPDATE runners SET ... WHERE name=?
unfoldable pub update_runner : String → (Runner → Runner) → Db → Db
unfolding update_where
update_runner name f db = record db { runners = update_where (has_name name) f db.runners }

unfoldable pub set_runner_version_stale : String → Bool → Db → Db
unfolding update_runner
set_runner_version_stale name stale = update_runner name (λ r. record r { version_stale = stale })

unfoldable pub set_runner_health : String → Option Health → Db → Db
unfolding update_runner
set_runner_health name health = update_runner name (λ r. record r { health = health })

unfoldable pub set_runner_status : String → RunnerStatus → Db → Db
unfolding update_runner
set_runner_status name status = update_runner name (λ r. record r { status = status })

unfoldable pub touch_runner_heartbeat : String → ℕ → Db → Db
unfolding update_runner
touch_runner_heartbeat name timestamp =
    update_runner name
      (λ r. record r { last_seen_at = some timestamp; status = seen_status r.status })

pub data Binding : Type 0 where
  bound unbound conflict : Binding

-- `if not bound` holds of NULL and of the empty text.
abbrev pub compare_binding : Option String → String → Binding
compare_binding none api_key_id = unbound
compare_binding (some key) api_key_id =
    if key =s= "" then unbound else if key =s= api_key_id then bound else conflict

abbrev pub key_of : Option Runner → Option String
key_of none = none
key_of (some r) = r.api_key_id

unfoldable pub check_runner_binding : Db → String → String → Binding
unfolding get_runner_by_name
check_runner_binding db name api_key_id =
    compare_binding (key_of (get_runner_by_name db name)) api_key_id

-- The number of jobs put back, and the new tables; one transaction.
unfoldable pub delete_runner : String → Db → ℕ × Db
unfolding count_where delete_where release_jobs_of
delete_runner name db = (
  count_where (is_inflight name) db.runner_jobs,
  record db {
    runner_jobs = release_jobs_of name db.runner_jobs;
    runners = delete_where (has_name name) db.runners;
  },
)
