-- ===== src/Web/Registration/Rights.antt =====
-- Who may take over a runner's name, and who is handed jobs by the long poll.
use testharness.Prelude.{
  ℕ, String, ◌=s=◌, ◌≡◌, inl, inr, ◌⊎◌, true, false, some, List, [], ◌∷◌, Bool-cases, leb,
}
use testharness.Db.{Db, Job, Runner, User, ApiKey}
use testharness.Db.RunnerJobs.{claim_runner_jobs}
use testharness.Db.Accounts.{get_api_key_by_id}
use testharness.Db.Runners.{get_runner_by_name, check_runner_binding}
use testharness.VersionSkew.{ℤ}
use testharness.Web.Auth.{is_live, key_usable, bound_key_releasable}
use testharness.Web.RunnerApi.{Reply, ok, http_error}
use testharness.Web.Registration.{
  RegisterRequest, runner_register, Answer, jobs, Wake, may_claim, turn, long_poll,
}

-- A registration under the name of a runner that is bound to a live key of another user is refused
-- with 409 and changes nothing.
pub register_refused :
    (strip : String → String) (central_version : String) (warning_minors : ℤ) (db : Db)
    (req : RegisterRequest) (user : User) (key_id rid : String) (now : ℕ) (r : Runner)
    (key : String) (row : ApiKey)
    → (strip req.name =s= "") ≡ false
    → get_runner_by_name db (strip req.name) ≡ some r
    → r.api_key_id ≡ some key
    → (key =s= "") ≡ false
    → (key =s= key_id) ≡ false
    → get_api_key_by_id db key ≡ some row
    → is_live now row ≡ true
    → (row.user_id =s= user.id) ≡ false
    → runner_register strip central_version warning_minors db req user key_id rid now
      ≡ (http_error 409, db)
unfolding runner_register bound_key_releasable check_runner_binding key_usable
register_refused strip central n db req user key_id rid now r key row name_given g k filled other gk
      live foreign =
    rw (name_given, g, k, filled, other, gk, live, foreign)

turn-jobs :
    (name key_id : String) (tags : List String) (capacity wait deadline : ℕ) (claimed : List Job)
    (db : Db) (later : Reply Answer × Db) (j : Job) (js : List Job)
    → (turn name key_id tags capacity wait deadline claimed db later).0 ≡ ok (jobs (j ∷ js))
    → (claimed ≡ j ∷ js) ⊎ (later.0 ≡ ok (jobs (j ∷ js)))
turn-jobs name key_id tags capacity wait deadline [] db later j js h = inr h
turn-jobs name key_id tags capacity wait deadline (c ∷ cs) db later j js h = inl (cc h)

-- The jobs that a long poll hands out are those of one claim, made at a moment when the caller's key
-- was live and the runner bound to it, however often the poll was woken before.
pub long_poll-may_claim :
    (name key_id : String) (tags : List String) (capacity wait deadline : ℕ) (wakes : List Wake)
    (db : Db) (now : ℕ) (j : Job) (js : List Job)
    → (long_poll name key_id tags capacity wait deadline wakes db now).0 ≡ ok (jobs (j ∷ js))
    → (d : Db) × (t : ℕ) × (may_claim name key_id tags capacity wait deadline d t ≡ true)
      × ((claim_runner_jobs d name tags capacity t).0 ≡ j ∷ js)
unfolding long_poll
long_poll-may_claim name key_id tags capacity wait deadline [] db now j js h =
    elim (Bool-cases (may_claim name key_id tags capacity wait deadline db now)) [
      | inr e ↦ cc (rw e at h)
      | inl e ↦ elim (turn-jobs name key_id tags capacity wait deadline _ _ _ j js (rw e at h)) [
        | inl q ↦ (db, now, e, q)
        | inr q ↦ cc q
      ]
    ]
long_poll-may_claim name key_id tags capacity wait deadline (w ∷ wakes) db now j js h =
    elim (Bool-cases (may_claim name key_id tags capacity wait deadline db now)) [
      | inr e ↦ cc (rw e at h)
      | inl e ↦ elim (turn-jobs name key_id tags capacity wait deadline _ _ _ j js (rw e at h)) [
        | inl q ↦ (db, now, e, q)
        | inr q ↦ elim (Bool-cases (leb deadline now)) [
          | inl f ↦ cc (rw f at q)
          | inr f ↦
              long_poll-may_claim name key_id tags capacity wait deadline wakes _ w.at j js
                (rw f at q)
        ]
      ]
    ]
