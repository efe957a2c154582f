-- ===== src/Execution.antt =====
-- harness/runner.py: the attempts of one test, and `run_app`, which runs an app's tests in this process
-- and records what they gave. The executors of the tests (a browser, an HTTP client, a TLS handshake)
-- are one argument, `attempt`: what the i-th attempt of a test gives.
pub mod Attempts
pub mod RunApp
pub mod Mirror
pub mod Unhandled
use testharness.Prelude.{
  ℕ, zero, suc, String, ◌=s=◌, Bool, true, false, not, ◌&&◌, ◌||◌, Option, none, some, List, [],
  ◌∷◌, ◌++◌, ltb, leb, ◌==◌, if◌then◌else◌, is_none,
}
use testharness.Db.{TestResult, StepResult}
use testharness.Dispatch.Ingest.{is_fail}

-- Which function runs a test.
pub data Executor : Type 0 where
  api browser tls availability : Executor

-- test_type in ("tls", "certificate", "ssl")
abbrev pub is_tls : String → Bool
is_tls test_type = test_type =s= "tls" || (test_type =s= "certificate" || test_type =s= "ssl")

unfoldable pub executor_of : String → Executor
executor_of test_type =
    if test_type =s= "api"
    then api
    else if test_type =s= "browser"
    then browser
    else if is_tls test_type
    then tls
    else availability

-- What a test defines, as far as the runner reads it. A negative `retry` is not modelled.
pub record TestDef : Type 0 where
  pub name : Option String
  pub test_type : String
  pub retry : ℕ
  pub max_duration_ms : Option ℕ
  pub extract : List String

-- A result with the values that it captured, or an exception, with the text that is recorded for it and
-- the id, a new uuid, that its row gets.
pub data Attempt : Type 0 where
  finished : TestResult → List (String × String) → Attempt
  raised : String → String → Attempt

-- max_ms, which is unset also where it is 0
abbrev pub threshold : Option ℕ → Option ℕ
threshold none = none
threshold (some max_ms) = if max_ms == 0 then none else some max_ms

abbrev pub is_over : Option ℕ → Option ℕ → Bool
is_over none duration = false
is_over (some max_ms) none = false
is_over (some max_ms) (some duration_ms) = ltb max_ms duration_ms

abbrev pub or_zero : Option ℕ → ℕ
or_zero none = 0
or_zero (some n) = n

-- The texts of a violation, from the duration and the threshold: the step, and the message.
abbrev pub SloTexts : Type 0
SloTexts = ℕ → ℕ → String × String

abbrev pub slo_step : String → StepResult
slo_step text = record {
  step = text;
  status = "fail";
  duration_ms = 0;
  error = none;
  screenshot = none;
}

abbrev pub violated : SloTexts → ℕ → ℕ → TestResult → TestResult
violated texts duration_ms max_ms result = record result {
  step_log = result.step_log ++ slo_step (texts duration_ms max_ms).0 ∷ [];
  status = "fail";
  error_msg = some (texts duration_ms max_ms).1;
}

-- `_apply_slo_threshold`
unfoldable pub apply_slo_threshold : SloTexts → Option ℕ → TestResult → TestResult
apply_slo_threshold texts max_duration_ms result =
    let max_ms = threshold max_duration_ms in
    if result.status =s= "pass" && is_over max_ms result.duration_ms
    then violated texts (or_zero result.duration_ms) (or_zero max_ms) result
    else result

module _ (texts : SloTexts) (attempt : ℕ → Attempt) (max_duration_ms : Option ℕ) where
  -- An attempt with the duration check.
  unfoldable pub checked : Attempt → Attempt
  unfolding apply_slo_threshold
  checked (finished result captures) =
      finished (apply_slo_threshold texts max_duration_ms result) captures
  checked (raised message row_id) = raised message row_id

  -- The loop goes on after a result that fails; an exception leaves it.
  unfoldable pub is_failed : Attempt → Bool
  is_failed (finished result captures) = is_fail result.status
  is_failed (raised message row_id) = false

  abbrev pub outcome : ℕ → Attempt
  outcome i = checked (attempt i)

  -- The loop of `_execute_test` from the i-th attempt on, with `left` more attempts after it.
  unfoldable pub execute_from : ℕ → ℕ → Attempt
  unfolding checked is_failed
  execute_from zero i = outcome i
  execute_from (suc left) i =
      let more = execute_from left (suc i) in if is_failed (outcome i) then more else outcome i

-- What an attempt of a test gives, by its executor and its number.
abbrev pub Attempts : Type 0
Attempts = Executor → TestDef → ℕ → Attempt

-- `_execute_test`
unfoldable pub execute_test : SloTexts → Attempts → TestDef → Attempt
unfolding execute_from executor_of
execute_test texts attempts test_def =
    execute_from texts (attempts (executor_of test_def.test_type) test_def) test_def.max_duration_ms
      test_def.retry 0
