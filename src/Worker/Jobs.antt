-- ===== src/Worker/Jobs.antt =====
-- The jobs of worker/worker.py: `execute_job`, what `_run_one` submits of it, and the form in which
-- results travel. The executors, the substitution of variables and the resolution of the URL are arguments.
pub mod Reported
use testharness.Prelude.{
  ℕ, zero, suc, String, ◌=s=◌, Bool, true, false, Option, none, some, List, [], ◌∷◌, ◌++◌, map,
  if◌then◌else◌, leb,
}
use testharness.Db.{TestResult, StepResult}
use testharness.Dispatch.Ingest.{Report}
use testharness.Execution.{
  Executor, api, browser, availability, Attempt, finished, raised, SloTexts, checked, is_failed,
}
use testharness.VersionSkew.{ℤ, pos, negsuc}
use testharness.Execution.RunApp.{Captures, captures_after, name_or_unknown}

-- One entry of `step_log`, which leaves the screenshot out
abbrev pub step_dict : StepResult → StepResult
step_dict s = record s { screenshot = none }

-- `_test_result_to_dict`, with the id that the server gives the row.
unfoldable pub test_result_to_dict : String → TestResult → Report
test_result_to_dict result_id tr = record {
  result_id = result_id;
  test_name = tr.test_name;
  status = some tr.status;
  error_msg = tr.error_msg;
  duration_ms = tr.duration_ms;
  finished_at = tr.finished_at;
  screenshot = tr.screenshot;
  step_log = map step_dict tr.step_log;
}

-- The worker has no executor for certificates.
unfoldable pub worker_executor_of : String → Executor
worker_executor_of ttype =
    if ttype =s= "api" then api else if ttype =s= "browser" then browser else availability

-- What a test defines, as far as the worker reads it.
pub record WorkerTest : Type 0 where
  pub name : Option String
  pub test_type : String
  pub retry : ℤ
  pub max_duration_ms : Option ℕ

-- What an attempt of a test gives, by its executor and its number. An exception is an `Exception`: what the
-- loop does not catch (a cancellation) is not modelled.
abbrev pub WorkerAttempts : Type 0
WorkerAttempts = Executor → WorkerTest → ℕ → Attempt

-- A test with its variables substituted; none is a ConfigError, or a `retry` that `int` refuses.
abbrev pub Resolve : Type 0
Resolve = Captures → WorkerTest → Option WorkerTest

-- How `execute_job` ends: with its four values, with the three of a URL that cannot be resolved, or with
-- an exception.
pub data Executed : Type 0 where
  completed : List TestResult → Executed
  base_url_error : String → Executed
  exception : Executed

module _ (run_id app environment : String) (now : ℕ) (texts : SloTexts) where
  -- The result that stands for an exception.
  abbrev pub worker_exception : WorkerTest → String → String → TestResult
  worker_exception td message row_id = record {
    id = row_id;
    run_id = run_id;
    app = app;
    environment = environment;
    test_name = name_or_unknown td.name;
    status = "error";
    error_msg = some message;
    step_log = [];
    screenshot = none;
    duration_ms = none;
    finished_at = some now;
    screenshot_path = none;
  }

  -- An attempt whose exception is caught.
  abbrev pub caught : WorkerTest → Attempt → Attempt
  caught td (finished result captures) = finished result captures
  caught td (raised message row_id) = finished (worker_exception td message row_id) []

  abbrev pub worker_outcome : WorkerTest → (ℕ → Attempt) → ℕ → Attempt
  worker_outcome td attempt i = caught td (checked texts attempt td.max_duration_ms (attempt i))

  -- The loop over the attempts from the i-th on, with `left` more after it.
  unfoldable pub attempts_from : WorkerTest → (ℕ → Attempt) → ℕ → ℕ → Attempt
  unfolding checked is_failed
  attempts_from td attempt zero i = worker_outcome td attempt i
  attempts_from td attempt (suc left) i =
      let more = attempts_from td attempt left (suc i) in
      let this = worker_outcome td attempt i in
      if is_failed texts attempt td.max_duration_ms this then more else this

  -- A negative `retry` gives no attempt, and no result.
  abbrev pub attempts_of : WorkerTest → (ℕ → Attempt) → ℤ → Option Attempt
  attempts_of td attempt (pos retry) = some (attempts_from td attempt retry 0)
  attempts_of td attempt (negsuc n) = none

  unfoldable pub execute_one : WorkerAttempts → WorkerTest → Option Attempt
  unfolding attempts_from worker_executor_of
  execute_one attempts td = attempts_of td (attempts (worker_executor_of td.test_type) td) td.retry

  -- if result is not None
  abbrev pub add_result : Option Attempt → Option (List TestResult) → Option (List TestResult)
  add_result result none = none
  add_result none (some results) = some results
  add_result (some (raised message row_id)) (some results) = some results
  add_result (some (finished result captures)) (some results) = some (result ∷ results)

  -- if result is not None and result.captures
  abbrev pub captures_with : Captures → Option Attempt → Captures
  captures_with captures none = captures
  captures_with captures (some result) = captures_after captures result

  -- The loop over the tests; `none` is the exception of a test that does not resolve.
  unfoldable pub execute_tests :
      WorkerAttempts → Resolve → Captures → List WorkerTest → Option (List TestResult)
  unfolding execute_one
  execute_tests attempts resolve captures [] = some []
  execute_tests attempts resolve captures (td ∷ tests) = elim (resolve captures td) [
    | none ↦ none
    | some resolved ↦
        let result = execute_one attempts resolved in
        add_result result (execute_tests attempts resolve (captures_with captures result) tests)
  ]

  abbrev ended : Option (List TestResult) → Executed
  ended none = exception
  ended (some results) = completed results

  -- `base_url` is the message of the error of `resolve_base_url`, if there is one.
  unfoldable pub execute_job : WorkerAttempts → Resolve → Option String → List WorkerTest → Executed
  unfolding execute_tests
  execute_job attempts resolve (some message) tests = base_url_error message
  execute_job attempts resolve none tests = ended (execute_tests attempts resolve [] tests)

-- What `_run_one` hands to `submit_results`. Three values do not unpack into four names: the ValueError is
-- logged, as any exception of `execute_job`.
unfoldable pub run_one : Executed → Option (List TestResult)
run_one (completed results) = some results
run_one (base_url_error message) = none
run_one exception = none

-- A file with a screenshot: its size, and its bytes; `none` is an error of the file system.
pub record File : Type 0 where
  pub size : Option ℕ
  pub content : Option (List ℕ)

pub record Screenshot : Type 0 where
  pub step_name : String
  pub path : String
  pub content : List ℕ

abbrev entry_of : String → String → Option (List ℕ) → List Screenshot
entry_of step_name path none = []
entry_of step_name path (some content) =
    record { step_name = step_name; path = path; content = content } ∷ []

-- `_encode_screenshot_file`, before the encoding in base 64; the path gives the type.
unfoldable pub encode_screenshot_file : ℕ → String → String → File → List Screenshot
encode_screenshot_file max_screenshot_bytes step_name path file = elim file.size [
  | none ↦ []
  | some size ↦ if leb size max_screenshot_bytes then entry_of step_name path file.content else []
]

-- `disk` gives the file of a path, if there is one.
module _ (disk : String → Option File) (max_screenshot_bytes : ℕ) where
  abbrev encode_found : String → String → Option File → List Screenshot
  encode_found step_name path none = []
  encode_found step_name path (some file) =
      encode_screenshot_file max_screenshot_bytes step_name path file

  unfoldable pub encode_path : String → Option String → List Screenshot
  unfolding encode_screenshot_file
  encode_path step_name none = []
  encode_path step_name (some path) =
      if path =s= "" then [] else encode_found step_name path (disk path)

  unfoldable pub collect_steps : List StepResult → List Screenshot
  unfolding encode_path
  collect_steps [] = []
  collect_steps (s ∷ steps) = encode_path s.step s.screenshot ++ collect_steps steps

  -- `_collect_screenshots`
  unfoldable pub collect_screenshots : List TestResult → List Screenshot
  unfolding encode_path collect_steps
  collect_screenshots [] = []
  collect_screenshots (tr ∷ trs) =
      encode_path tr.test_name tr.screenshot
      ++ (collect_steps tr.step_log ++ collect_screenshots trs)
