-- ===== src/Lib.antt =====
-- testharness: a self-hosted synthetic-monitoring tool. A central process schedules runs of tests
-- against web applications, executes them or hands them to remote workers over HTTP, keeps the
-- results in SQLite and alerts on changes. This library models the dispatch of runs, the
-- alerts and the authentication of workers and users.
--
-- - Db, Db.Runs, Db.RunnerJobs, Db.Runners: the tables and queries of harness/db/_base.py, _runs.py,
--   _runner_jobs.py and _runners.py. A table is the list of its rows in the order of insertion, a
--   method of the source is one function from the tables to its result and the new tables, since
--   each method is one transaction. `Prelude.Rows` holds the SQL statements that they are made of.
-- - Dispatch.Reaper: `reap_stuck_jobs` of harness/worker_dispatch.py. Dispatch.Lifecycle: all the ways
--   in which the queue changes, as a step relation, with its invariant.
-- - Web.RunnerApi: the endpoints of web/routes/runner.py that a worker calls, on top of the tables.
-- - Web.Auth, Web.Registration: web/auth.py, with the tables of harness/db/_users.py and _api_keys.py
--   (Db.Accounts), and the register and long-poll endpoints of web/routes/runner.py.
-- - Db.Users, Web.Login: the rest of harness/db/_users.py, `verify_local_password` of
--   harness/auth_manager.py, and sign-in, logout and first setup of web/routes/auth.py, which use the limiter.
--   Web.Github: the callback of the sign-in through GitHub in the same file.
-- - Dispatch.Ingest: `ingest_runner_results` of harness/worker_dispatch.py and `determine_alert` of
--   harness/runner.py, on the tables of harness/db/_app_state.py (Db.AppStates).
-- - Dispatch.Remote: `queue_remote_run` of harness/worker_dispatch.py.
-- - Execution: harness/runner.py, the attempts of a test and the run of an app in the server, which
--   uses the same tables and the same `determine_alert`.
-- - Worker: worker/worker.py. Worker.Outbox: the file of results that wait to be sent.
--   Worker.Jobs: the execution of a job and what is reported of it. Worker.Loops: the requests for
--   jobs and the poll loop as a step relation, which is composed with the claims of the server.
-- - Maintenance: harness/maintenance.py, on the table of harness/db/_maintenance_windows.py (Db.Windows):
--   when alerts are suppressed, which ingestion, runs and the search for stale apps ask.
-- - Staleness: `find_stale_apps` of harness/staleness.py.
-- - VersionSkew: harness/version_skew.py, which the endpoints ask whether a worker may be given jobs.
-- - RateLimit: the sliding-window limiter of web/ratelimit.py.
-- - Web.Users, Web.ApiKeys, Web.SecretsPages, Web.Notifications: web/routes/users.py, api_keys.py, secrets.py
--   and admin_notifications.py, on the tables of harness/db/_secrets.py (Db.Secrets, with the store of
--   harness/secrets_store.py), _notification_groups.py (Db.NotificationGroups) and _audit.py (Db.Audit).
-- - Alerts: harness/alerts.py. Alerts.Payloads: messages and webhooks; Alerts.Channels: the sendings,
--   which ask Db.NotificationGroups for the recipients of an app.
-- - Config: harness/config.py. Config.Refs: `$VAR` references and `resolve_env_vars`; Config.Environ:
--   `app_environ`; Config.Validate: `_validate_config` and `load_config`.
-- - Apps: harness/app_manager.py with `resolve_base_url` of harness/loader.py. Apps.Urls: the checks of URLs;
--   Apps.Files: the files of the apps, as functions from slugs to texts.
-- - Schedule: harness/auto_scheduler.py.
-- - Tests: a small database and runs of the operations on it.
--
-- Modelling choices. A timestamp, which the source keeps as ISO-8601 text in UTC, is a number of
-- seconds, and the clock and the random ids are arguments. `now - timeout < t` is written as a sum.
-- Rows that an ORDER BY does not tell apart stay in the order of the table. Numbers that the source
-- compares with 0 from below (a capacity, a retry limit) are met there as 0 is. An app definition
-- is its JSON text. Texts of messages are parameters (`exceeded`, `notice`). Versions are ASCII
-- texts and `int` refuses more than 4300 digits, as CPython does. The signature check of a session
-- token, the hash of a key, `str.strip` and the answer of the maintenance windows are parameters.
-- A long poll is given the list of its wake-ups, each with what the other requests did meanwhile. The
-- limiter's float clock is a number of ticks. No definition runs on fuel: every loop of the source that is
-- modelled goes through a list or a text, but the search for a firing of a cron expression, which is given
-- two turns; that they are enough is part of its theorem.
--
-- What an attempt of a test gives, the substitution of variables, the reading of a certificate in
-- the steps of a test (its days in tenths), the calendar and the cron triggers, the check of a
-- password and the answers of the directory and of GitHub, and those of disk and server to a worker are arguments.
--
-- Python's operations on texts (strip, lower, upper, splitlines, the class of blanks), YAML and JSON, urlsplit, globs,
-- templates, HMAC, ciphers and the triggers of APScheduler are arguments where the source uses them.
--
-- Not modelled: the browser, HTTP and TLS test executors and the comparison of screenshots, the HTML of
-- the web pages, the REST endpoints of web/routes/api.py, analytics and exports, the reading of
-- directories, and the saving of screenshots, which are input and output around this core.
pub mod Prelude
pub mod Db
pub mod Dispatch
pub mod VersionSkew
pub mod RateLimit
pub mod Web
pub mod Staleness
pub mod Worker
pub mod Execution
pub mod Maintenance
pub mod Config
pub mod Apps
pub mod Alerts
pub mod Schedule
pub mod Tests
