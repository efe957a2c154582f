-- ===== src/Dispatch/Ingest/Track.antt =====
-- The alerts that a worker's results raise, test by test.
use testharness.Prelude.{
  ℕ, String, ◌=s=◌, eq_iff, ◌≡◌, refl, ap, ◌∙◌, inl, inr, Bool, true, false, ◌||◌, Option, none,
  some, List, [], ◌∷◌, map, arith, if◌then◌else◌, Bool-cases, All, select_where, starts_with,
}
use text.Mathlib.TextPositions.{eq_refl}
use testharness.Db.{Db, TestResult, TestState, passing, failing}
use testharness.Db.AppStates.{get_app_state}
use testharness.Db.AppStates.Upserts.{state_at, state_at-upsert, state_at-upsert_ne}
use testharness.Dispatch.Ingest.{
  AlertType, Alert, Report, is_fail, determine_alert, new_state, status_or_error,
  insert_test_result, set_test_result_screenshot_path, record_path, result_of, state_after,
  record_result, record_each, push_alert,
}

-- The statuses that the executors report.
abbrev pub is_known : String → Bool
is_known status = status =s= "pass" || is_fail status

-- The alerts of one test that goes through some statuses.
abbrev pub push : Option AlertType → List AlertType → List AlertType
push none alerts = alerts
push (some a) alerts = a ∷ alerts

unfoldable pub track : TestState → List String → List AlertType
track s [] = []
track s (status ∷ statuses) = push (determine_alert s status) (track (new_state status) statuses)

-- A failure is told while the test is not failing, a recovery while it is, by turns.
abbrev pub Alternates : TestState → List AlertType → Type 0
Alternates s [] = Unit
Alternates failing (AlertType.resolve ∷ alerts) = Alternates passing alerts
Alternates failing (_ ∷ alerts) = ⊥
Alternates passing (AlertType.fail ∷ alerts) = Alternates failing alerts
Alternates passing (_ ∷ alerts) = ⊥
Alternates TestState.unknown (AlertType.fail ∷ alerts) = Alternates failing alerts
Alternates TestState.unknown (_ ∷ alerts) = ⊥

fails-failing : (status : String) → is_fail status ≡ true → new_state status ≡ failing
unfolding new_state
fails-failing status h = elim (Bool-cases (status =s= "pass")) [
  | inr e ↦ rw e
  | inl e ↦ let q = (eq_iff status "pass").0 e in cc (ap is_fail q, h)
]

passes-passing :
    (status : String) → is_known status ≡ true → is_fail status ≡ false → new_state status ≡ passing
unfolding new_state
passes-passing status k h = elim (Bool-cases (status =s= "pass")) [
  | inl e ↦ rw e
  | inr e ↦ ground (arith, k, h, e)
]

track-Alternates :
    (s : TestState) (statuses : List String)
    → All (λ x. is_known x ≡ true) statuses
    → Alternates s (track s statuses)
unfolding track determine_alert
track-Alternates s [] k = tt
track-Alternates failing (x ∷ xs) k = elim (Bool-cases (is_fail x)) [
  | inl e ↦ rw (e, fails-failing x e) (track-Alternates failing xs k.1)
  | inr e ↦ rw (e, passes-passing x k.0 e) (track-Alternates passing xs k.1)
]
track-Alternates passing (x ∷ xs) k = elim (Bool-cases (is_fail x)) [
  | inl e ↦ rw (e, fails-failing x e) (track-Alternates failing xs k.1)
  | inr e ↦ rw (e, passes-passing x k.0 e) (track-Alternates passing xs k.1)
]
track-Alternates TestState.unknown (x ∷ xs) k = elim (Bool-cases (is_fail x)) [
  | inl e ↦ rw (e, fails-failing x e) (track-Alternates failing xs k.1)
  | inr e ↦
      rw (e, passes-passing x k.0 e)
        (to_unknown (track passing xs) (track-Alternates passing xs k.1))
]
  where
    to_unknown :
        (alerts : List AlertType) → Alternates passing alerts → Alternates TestState.unknown alerts
    to_unknown [] h = tt
    to_unknown (AlertType.fail ∷ alerts) h = h
    to_unknown (AlertType.resolve ∷ alerts) h = absurd h
    to_unknown (AlertType.stale ∷ alerts) h = absurd h

abbrev pub status_of : Report → String
status_of r = status_or_error r.status

module _ (run_id app environment : String) (paths : List (String × String)) (now : ℕ) where
  same_states :
      (r : Report) (path : Option String) (db : Db)
      → (record_path r.result_id path db).app_state ≡ db.app_state
  unfolding set_test_result_screenshot_path
  same_states r none db = refl
  same_states r (some path) db = elim (Bool-cases (starts_with path "/screenshots/")) [
    | inl e ↦ rw e
    | inr e ↦ rw e
  ]

  state_at-same :
      (a b : Db) (test_name : String)
      → a.app_state ≡ b.app_state
      → state_at a app environment test_name ≡ state_at b app environment test_name
  unfolding state_at get_app_state
  state_at-same a b test_name e = rw e

  pub state_at-record_result :
      (r : Report) (db : Db) (test_name : String)
      → state_at (record_result run_id app environment paths now r db) app environment test_name ≡ (
          if r.test_name =s= test_name
          then new_state (status_of r)
          else state_at db app environment test_name)
  unfolding record_result
  state_at-record_result r db test_name = elim (Bool-cases (r.test_name =s= test_name)) [
    | inl e ↦ rw e (
        rw (← (eq_iff r.test_name test_name).0 e)
          (state_at-upsert written (state_after run_id app environment paths now r)))
    | inr e ↦ rw e (
        state_at-upsert_ne written (state_after run_id app environment paths now r) app environment
          test_name (rw (eq_refl app, eq_refl environment, e))
        ∙ state_at-same written db test_name unchanged)
  ]
    where
      tr : TestResult
      tr = result_of run_id app environment paths now r

      written : Db
      written = record_path tr.id tr.screenshot (insert_test_result tr db)

      unchanged : written.app_state ≡ db.app_state
      unchanged =
          same_states r tr.screenshot (insert_test_result tr db)
          ∙ (unfold insert_test_result in refl)

  abbrev pub alerts_of : String → List Alert → List AlertType
  alerts_of test_name alerts =
      map (λ (a : Alert). a.alert_type) (select_where (λ a. a.test_name =s= test_name) alerts)

  abbrev pub statuses_of : String → List Report → List String
  statuses_of test_name reports =
      map status_of (select_where (λ r. r.test_name =s= test_name) reports)

  alerts_of-push :
      (test_name : String) (t : Option AlertType) (r : Report) (alerts : List Alert)
      → alerts_of test_name (push_alert t app environment r alerts) ≡ (
          if r.test_name =s= test_name
          then push t (alerts_of test_name alerts)
          else alerts_of test_name alerts)
  unfolding select_where
  alerts_of-push test_name none r alerts = elim (Bool-cases (r.test_name =s= test_name)) [
    | inl e ↦ rw e
    | inr e ↦ rw e
  ]
  alerts_of-push test_name (some t) r alerts = elim (Bool-cases (r.test_name =s= test_name)) [
    | inl e ↦ rw e
    | inr e ↦ rw e
  ]

  record_each-track :
      (test_name : String) (reports : List Report) (db : Db)
      → alerts_of test_name (record_each run_id app environment paths now reports db).0
        ≡ track (state_at db app environment test_name) (statuses_of test_name reports)
  unfolding record_each select_where track
  record_each-track test_name [] db = refl
  record_each-track test_name (r ∷ reports) db = elim (Bool-cases (r.test_name =s= test_name)) [
    | inl e ↦
        let named = (eq_iff r.test_name test_name).0 e in
        let later : alerts_of test_name rest
            ≡ track (new_state (status_of r)) (statuses_of test_name reports) =
          record_each-track test_name reports db'
          ∙ ap (λ s. track s (statuses_of test_name reports))
              (state_at-record_result r db test_name ∙ rw e) in
        alerts_of-push test_name t r rest ∙ rw (e, later, named)
    | inr e ↦
        let later : alerts_of test_name rest
            ≡ track (state_at db app environment test_name) (statuses_of test_name reports) =
          record_each-track test_name reports db'
          ∙ ap (λ s. track s (statuses_of test_name reports))
              (state_at-record_result r db test_name ∙ rw e) in
        alerts_of-push test_name t r rest ∙ rw (e, later)
  ]
    where
      t : Option AlertType
      t = determine_alert (state_at db app environment r.test_name) (status_of r)

      db' : Db
      db' = record_result run_id app environment paths now r db

      rest : List Alert
      rest = (record_each run_id app environment paths now reports db').0

  -- The alerts that a worker's results raise for one test alternate between failures and recoveries,
  -- beginning with the one that the stored state of the test admits, if every status that is
  -- reported for the test is `pass`, `fail` or `error`.
  pub record_each-Alternates :
      (test_name : String) (reports : List Report) (db : Db)
      → All (λ x. is_known x ≡ true) (statuses_of test_name reports)
      → Alternates
          (state_at db app environment test_name)
          (alerts_of test_name (record_each run_id app environment paths now reports db).0)
  record_each-Alternates test_name reports db k =
      rw (record_each-track test_name reports db)
        (track-Alternates _ (statuses_of test_name reports) k)

-- A status that is none of `pass`, `fail` and `error` marks a passing test as failing without an
-- alert, and raises a recovery on a failing test, which stays failing.
pub unknown_status_resolves :
    (status : String)
    → is_known status ≡ false
    → (new_state status ≡ failing)
      × (determine_alert passing status ≡ none)
      × (determine_alert failing status ≡ some AlertType.resolve)
unfolding new_state determine_alert
unknown_status_resolves status h = (ground (arith, h), ground (arith, h), ground (arith, h))
