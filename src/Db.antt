-- ===== src/Db.antt =====
-- The tables of harness/db/_base.py that the dispatch of runs, the alerts and the
-- authentication work on. A timestamp, which the
-- source keeps as ISO-8601 text in UTC, is a number of seconds: the queries only compare them.
pub mod Runs
pub mod RunnerJobs
pub mod Runners
pub mod AppStates
pub mod Accounts
pub mod Windows
pub mod Users
pub mod Audit
pub mod Secrets
pub mod NotificationGroups
use testharness.Prelude.{◌≡◌, refl, ℕ, String, Bool, true, false, Option, List, []}

-- runs.status
pub data RunStatus : Type 0 where
  pending queued running complete error : RunStatus

pub record Run : Type 0 where
  pub id : String
  pub app : String
  pub environment : String
  pub triggered_by : String
  pub status : RunStatus
  pub started_at : Option ℕ
  pub finished_at : Option ℕ

-- runner_jobs.state, the values that the code writes
pub data JobState : Type 0 where
  queued assigned complete error failed : JobState

pub record Job : Type 0 where
  pub id : String
  pub run_id : String
  pub runner_name : Option String
  pub target_tag : Option String
  pub app_def_json : String
  pub environment : String
  pub state : JobState
  pub queued_at : ℕ
  pub assigned_to : Option String
  pub assigned_at : Option ℕ
  pub completed_at : Option ℕ
  pub error : Option String
  pub retry_count : ℕ

-- runners.status, with the values that the code writes
pub data RunnerStatus : Type 0 where
  unknown online offline draining : RunnerStatus

-- runners.health; the column is NULL until a first report
pub data Health : Type 0 where
  healthy unhealthy : Health

pub record Runner : Type 0 where
  pub id : String
  pub name : String
  pub tags : List String
  pub capabilities : List String
  pub version : Option String
  pub api_key_id : Option String
  pub first_seen_at : ℕ
  pub last_seen_at : Option ℕ
  pub status : RunnerStatus
  pub version_stale : Bool
  pub health : Option Health

pub record StepResult : Type 0 where
  pub step : String
  pub status : String
  pub duration_ms : ℕ
  pub error : Option String
  pub screenshot : Option String

pub record TestResult : Type 0 where
  pub id : String
  pub run_id : String
  pub app : String
  pub environment : String
  pub test_name : String
  pub status : String
  pub error_msg : Option String
  pub step_log : List StepResult
  pub screenshot : Option String
  pub duration_ms : Option ℕ
  pub finished_at : Option ℕ
  pub screenshot_path : Option String

-- app_state.state; `unknown` is the state of a test without a row
pub data TestState : Type 0 where
  unknown passing failing : TestState

pub record AppState : Type 0 where
  pub app : String
  pub environment : String
  pub test_name : String
  pub state : TestState
  pub since : ℕ

pub record StaleAlert : Type 0 where
  pub app : String
  pub environment : String
  pub last_alerted_at : ℕ

pub record User : Type 0 where
  pub id : String
  pub username : String
  pub display_name : Option String
  pub email : Option String
  pub password_hash : Option String
  pub role : String
  pub auth_provider : String
  pub role_override : Bool
  pub is_active : Bool
  pub created_at : ℕ
  pub last_login_at : Option ℕ
  pub oauth_provider_id : Option String
  pub failed_login_count : ℕ
  pub locked_until : Option ℕ
  pub session_version : ℕ

-- What the JSON text of `api_keys.scope` holds: a list of texts, or anything else.
pub data Scope : Type 0 where
  scopes : List String → Scope
  malformed : Scope

pub record ApiKey : Type 0 where
  pub id : String
  pub user_id : String
  pub name : String
  pub key_prefix : String
  pub key_hash : String
  pub expires_at : Option ℕ
  pub created_at : ℕ
  pub last_used_at : Option ℕ
  pub is_active : Bool
  pub scope : Option Scope

-- An entry of `days_of_week`.
pub data Day : Type 0 where
  number : ℕ → Day
  day_name : String → Day

-- A row of `maintenance_windows`, or an entry of the configuration, which may also have `start` and `end`.
-- An unset text and an empty list of days are read alike.
pub record Window : Type 0 where
  pub id : String
  pub name : Option String
  pub app : Option String
  pub environment : Option String
  pub window_type : Option String
  pub cron : Option String
  pub duration_minutes : Option ℕ
  pub start : Option String
  pub end : Option String
  pub start_time : Option String
  pub end_time : Option String
  pub days_of_week : List Day
  pub timezone : Option String
  pub enabled : Bool
  pub created_at : ℕ

-- `details` is the list of the parts of the text.
pub record AuditEntry : Type 0 where
  pub id : String
  pub timestamp : ℕ
  pub user_id : Option String
  pub username : Option String
  pub action : String
  pub target : Option String
  pub details : Option (List String)

pub record Secret : Type 0 where
  pub id : String
  pub name : String
  pub encrypted_value : String
  pub description : Option String
  pub created_at : ℕ
  pub updated_at : ℕ
  pub updated_by : Option String

pub record CaCert : Type 0 where
  pub id : String
  pub name : String
  pub pem_content : String
  pub created_at : ℕ
  pub added_by : Option String

-- `emails` is none where the column's text is no JSON list of texts.
pub record NotificationGroup : Type 0 where
  pub id : String
  pub name : String
  pub description : String
  pub emails : Option (List String)
  pub created_at : ℕ
  pub updated_at : ℕ

pub record Db : Type 0 where
  pub runs : List Run
  pub runner_jobs : List Job
  pub runners : List Runner
  pub test_results : List TestResult
  pub app_state : List AppState
  pub stale_alerts : List StaleAlert
  pub users : List User
  pub api_keys : List ApiKey
  pub maintenance_windows : List Window
  pub audit_log : List AuditEntry
  pub secrets : List Secret
  pub ca_certs : List CaCert
  pub notification_groups : List NotificationGroup

abbrev pub empty : Db
empty = record {
  runs = [];
  runner_jobs = [];
  runners = [];
  test_results = [];
  app_state = [];
  stale_alerts = [];
  users = [];
  api_keys = [];
  maintenance_windows = [];
  audit_log = [];
  secrets = [];
  ca_certs = [];
  notification_groups = [];
}

-- WHERE state=?
abbrev pub state_is : JobState → JobState → Bool
state_is JobState.queued JobState.queued = true
state_is JobState.assigned JobState.assigned = true
state_is JobState.complete JobState.complete = true
state_is JobState.error JobState.error = true
state_is JobState.failed JobState.failed = true
state_is _ _ = false

pub state_is-eq : (s t : JobState) → state_is s t ≡ true → s ≡ t
state_is-eq JobState.queued JobState.queued h = refl
state_is-eq JobState.assigned JobState.assigned h = refl
state_is-eq JobState.complete JobState.complete h = refl
state_is-eq JobState.error JobState.error h = refl
state_is-eq JobState.failed JobState.failed h = refl
state_is-eq _ _ h = cc
