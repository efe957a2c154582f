-- ===== src/Worker/Jobs/Reported.antt =====
-- What a worker reports of a job, and when it reports nothing.
use testharness.Prelude.{
  ℕ, zero, suc, ◌+◌, ◌≤◌, String, ◌≡◌, refl, sym, ap, subst, ◌∙◌, inl, inr, false, Option, none,
  some, List, [], ◌∷◌, arith, Bool-cases,
}
use testharness.Db.{TestResult}
use testharness.VersionSkew.{ℤ, pos, negsuc}
use testharness.Execution.{Attempt, finished, raised, SloTexts, is_tls, executor_of, is_failed}
use testharness.Execution.RunApp.{Captures}
use testharness.Worker.Jobs.{
  WorkerTest, WorkerAttempts, worker_executor_of, Resolve, worker_outcome, caught, attempts_from,
  execute_one, attempts_of, add_result, captures_with, execute_tests, execute_job, run_one,
}

-- A worker runs a test as the runner does, unless it is a test of a certificate.
pub worker_executor_of-same : (t : String) → is_tls t ≡ false → worker_executor_of t ≡ executor_of t
unfolding worker_executor_of executor_of
worker_executor_of-same t h = rw h

-- A URL that cannot be resolved leaves the worker with nothing to submit, although `execute_job` has an
-- error to report.
pub base_url_error-lost :
    (run_id app environment : String) (now : ℕ) (texts : SloTexts) (attempts : WorkerAttempts)
    (resolve : Resolve) (message : String) (tests : List WorkerTest)
    → run_one (execute_job run_id app environment now texts attempts resolve (some message) tests)
      ≡ none
unfolding run_one execute_job
base_url_error-lost run_id app environment now texts attempts resolve message tests = refl

abbrev IsFinished : Attempt → Type 0
IsFinished a = (result : TestResult) × (captures : Captures) × (a ≡ finished result captures)

module _ (run_id app environment : String) (now : ℕ) (texts : SloTexts)
    (attempts : WorkerAttempts) where
  -- The i-th attempt of a test, with the result that stands for an exception.
  abbrev attempt_of : WorkerTest → ℕ → Attempt
  attempt_of td i =
      worker_outcome run_id app environment now texts td
        (attempts (worker_executor_of td.test_type) td) i

  -- A result is what one of the 1 + retry attempts of the test gave.
  abbrev IsOutcome : WorkerTest → ℕ → TestResult → Type 0
  IsOutcome td retry result =
      (i : ℕ) × (captures : Captures) × (i ≤ retry) × (attempt_of td i ≡ finished result captures)

  abbrev Reported : WorkerTest → ℤ → (List TestResult → Type 0) → List TestResult → Type 0
  Reported td (negsuc n) Later results = Later results
  Reported td (pos retry) Later results =
      (result : TestResult) × (later : List TestResult) × (results ≡ result ∷ later)
      × IsOutcome td retry result
      × Later later

  -- One result for each test whose `retry` is not negative, in the order of the tests, and no other.
  abbrev pub Reports : List WorkerTest → List TestResult → Type 0
  Reports [] results = results ≡ []
  Reports (td ∷ tests) results = Reported td td.retry (Reports tests) results

  -- The tests resolve one after the other, each with what the tests before it have captured, to those of
  -- the second list.
  abbrev pub Resolves : Resolve → Captures → List WorkerTest → List WorkerTest → Type 0
  Resolves resolve captures [] resolved = resolved ≡ []
  Resolves resolve captures (td ∷ tests) resolved =
      (td' : WorkerTest) × (rest : List WorkerTest) × (resolved ≡ td' ∷ rest)
      × (resolve captures td ≡ some td')
      × Resolves resolve
          (captures_with run_id app environment now texts captures
            (execute_one run_id app environment now texts attempts td'))
          tests rest

  caught-IsFinished :
      (td : WorkerTest) (a : Attempt) → IsFinished (caught run_id app environment now texts td a)
  caught-IsFinished td (finished result captures) = (result, captures, refl)
  caught-IsFinished td (raised message row_id) = (_, [], refl)

  -- The attempts from the i-th on give a result of one of them.
  attempts_from-IsOutcome :
      (td : WorkerTest) (left i retry : ℕ)
      → left + i ≤ retry
      → (result : TestResult) × (captures : Captures) × (attempts_from run_id app environment now
            texts td
            (attempts (worker_executor_of td.test_type) td)
            left
            i
          ≡ finished result captures)
        × IsOutcome td retry result
  unfolding attempts_from
  attempts_from-IsOutcome td zero i retry h =
      let (result, captures, e) = caught-IsFinished td _ in
      (result, captures, e, (i, captures, omega (arith, h), e))
  attempts_from-IsOutcome td (suc left) i retry h =
      elim (Bool-cases (
        is_failed texts (attempts (worker_executor_of td.test_type) td) td.max_duration_ms
          (attempt_of td i))) [
            | inl e ↦
                let (result, captures, f, out) =
                  attempts_from-IsOutcome td left (suc i) retry (omega (arith, h)) in
                (result, captures, rw (attempts_from, e) f, out)
            | inr e ↦
                let (result, captures, f) = caught-IsFinished td _ in
                (result, captures, rw e f, (i, captures, omega (arith, h), f))
          ]

  abbrev added : WorkerTest → ℤ → List TestResult → Option (List TestResult)
  added td retry later =
      add_result run_id app environment now texts
        (attempts_of run_id app environment now texts td
          (attempts (worker_executor_of td.test_type) td) retry)
        (some later)

  -- What is submitted after a test, with the results of the later ones.
  reported_one :
      (td : WorkerTest) (retry : ℤ) (resolved : List WorkerTest) (later : List TestResult)
      → td.retry ≡ retry
      → Reports resolved later
      → (results : List TestResult) × (add_result run_id app environment now texts
            (execute_one run_id app environment now texts attempts td)
            (some later)
          ≡ some results)
        × Reports (td ∷ resolved) results
  unfolding execute_one
  reported_one td (negsuc n) resolved later e h = (
    later,
    ap (λ z. added td z later) e,
    subst (λ z. Reported td z (Reports resolved) later) (sym e) h,
  )
  reported_one td (pos retry) resolved later e h =
      let (result, captures, f, out) = attempts_from-IsOutcome td retry 0 retry (omega arith) in
      (
        result ∷ later,
        ap (λ z. added td z later) e
            ∙ ap (λ o. add_result run_id app environment now texts (some o) (some later)) f,
        subst (λ z. Reported td z (Reports resolved) (result ∷ later)) (sym e)
            (result, later, refl, out, h),
      )

  execute_tests-Reports :
      (resolve : Resolve) (captures : Captures) (tests resolved : List WorkerTest)
      → Resolves resolve captures tests resolved
      → (results : List TestResult) × (execute_tests run_id app environment now texts attempts
            resolve captures tests
          ≡ some results)
        × Reports resolved results
  unfolding execute_tests
  execute_tests-Reports resolve captures [] resolved h = ([], refl, rw h refl)
  execute_tests-Reports resolve captures (td ∷ tests) resolved (td', rest, same, e, h) =
      let done = execute_one run_id app environment now texts attempts td' in
      let (later, g, out) =
        execute_tests-Reports resolve (captures_with run_id app environment now texts captures done)
          tests rest h in
      let (results, f, reports) = reported_one td' td'.retry rest later refl out in
      (results, rw (execute_tests, e) (rw g f), rw same reports)

  -- If the URL can be resolved and the variables of every test have values when its turn comes, with what
  -- the tests before it have captured, a worker submits, in the order of the tests, one result for each
  -- resolved test whose `retry` is not negative, which one of its 1 + retry attempts gave or stands for the
  -- exception that it raised, and no other result.
  pub execute_job_lem :
      (resolve : Resolve) (tests resolved : List WorkerTest)
      → Resolves resolve [] tests resolved
      → (results : List TestResult) × (run_one
            (execute_job run_id app environment now texts attempts resolve none tests)
          ≡ some results)
        × Reports resolved results
  unfolding execute_job run_one
  execute_job_lem resolve tests resolved h =
      let (results, e, reports) = execute_tests-Reports resolve [] tests resolved h in
      (results, rw e, reports)
