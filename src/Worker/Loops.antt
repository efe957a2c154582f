-- ===== src/Worker/Loops.antt =====
-- The loops of worker/worker.py: `poll_loop` with the requests of `poll_for_jobs`, and what
-- `heartbeat_loop` reports. A job is its id.
pub mod Capacity
use Prim.Native.Nat.{min}
use testharness.Prelude.{
  ℕ, ◌+◌, ◌-◌, ◌<◌, ◌≤◌, max, String, ◌≡◌, Bool, true, false, not, ◌&&◌, Option, none, some, List,
  [], ◌∷◌, ◌++◌, ◌==◌, if◌then◌else◌, length,
}
use testharness.Worker.Outbox.{is_success, status}

-- max(0, min(int(cfg.long_poll_wait), 60)); a negative setting gives 0
abbrev pub wait_seconds : ℕ → ℕ
wait_seconds long_poll_wait = min long_poll_wait 60

-- How a request for jobs ends: with a status, the jobs of the body and the number of the Retry-After
-- header, or with an error of the connection.
pub data Response : Type 0 where
  response : ℕ → List String → Option ℕ → Response
  network_error : Response

-- `_poll_for_jobs_short`; `none` is an httpx.HTTPError
unfoldable pub poll_for_jobs_short : Response → Option (List String)
poll_for_jobs_short network_error = none
poll_for_jobs_short (response s jobs retry_after) =
    if is_success (status s) then some jobs else none

abbrev pub or_none : Option (List String) → List String
or_none none = []
or_none (some jobs) = jobs

-- Behind a failure of the long poll, or of the short poll for which it made way.
abbrev fallen_back : Response → List String × Option ℕ
fallen_back short = (or_none (poll_for_jobs_short short), none)

abbrev short_first : Option (List String) → Response → List String × Option ℕ
short_first none again = fallen_back again
short_first (some jobs) again = (jobs, none)

-- The jobs, and the seconds of the Retry-After header. `short` and `again` are the responses to a first and
-- a second short poll.
unfoldable pub poll_for_jobs : Response → Response → Response → List String × Option ℕ
unfolding poll_for_jobs_short
poll_for_jobs network_error short again = fallen_back short
poll_for_jobs (response s jobs retry_after) short again =
    if s == 204
    then ([], retry_after)
    else if s == 404
    then short_first (poll_for_jobs_short short) again
    else if is_success (status s)
    then (jobs, none)
    else fallen_back short

-- max(1, min(backoff, 300)), with what the server advertised or else the setting
unfoldable pub backoff : ℕ → Option ℕ → ℕ
backoff poll_interval none = max 1 (min poll_interval 300)
backoff poll_interval (some retry_after) = max 1 (min retry_after 300)

-- The tasks in flight: those that hold the semaphore, and those that wait for it, the oldest first.
pub record Pool : Type 0 where
  pub running : List String
  pub waiting : List String
  pub shut_down : Bool

-- A worker that just started.
abbrev pub idle : Pool
idle = record { running = []; waiting = []; shut_down = false }

-- cfg.capacity - active_count
abbrev pub remaining : ℕ → Pool → ℕ
remaining capacity p = capacity - (length p.running + length p.waiting)

-- The loop and the tasks `_run_one` take turns. `Answers n jobs`: a request for n jobs may give `jobs`.
-- The n of a request is what remained when it was sent, and tasks may have ended since. The tasks of the
-- jobs are made at once, and each starts when the semaphore lets it.
pub data Step (capacity : ℕ) (Answers : ℕ → List String → Type 0) : Pool → Pool → Type 0 where
  polled :
      {p : Pool} (n : ℕ) (jobs : List String)
      → 0 < n
      → n ≤ remaining capacity p
      → Answers n jobs
      → Step capacity Answers p (record p { waiting = p.waiting ++ jobs })
  acquired :
      {p : Pool} (job : String) (rest : List String)
      → p.waiting ≡ job ∷ rest
      → length p.running < capacity
      → Step capacity Answers p (record p { running = p.running ++ job ∷ []; waiting = rest })
  ended :
      {p : Pool} (before : List String) (job : String) (behind : List String)
      → p.running ≡ before ++ job ∷ behind
      → Step capacity Answers p (record p { running = before ++ behind })
  signalled : {p : Pool} → Step capacity Answers p (record p { shut_down = true })

pub data Reach (capacity : ℕ) (Answers : ℕ → List String → Type 0) : Pool → Type 0 where
  start : Reach capacity Answers idle
  step :
      {p q : Pool} → Reach capacity Answers p → Step capacity Answers p q → Reach capacity Answers q

-- What a tick of `heartbeat_loop` reports: a probe of the directories that finds nothing, or one that
-- finds nothing after they were made again.
unfoldable pub tick_health : Bool → Bool → String
tick_health clean clean_after_recreate =
    if not clean && not clean_after_recreate then "unhealthy" else "healthy"
