-- ===== src/Staleness/Dedup.antt =====
-- That an alert of harness/staleness.py is not repeated within the realert span.
use text.Mathlib.TextPositions.{eq_refl}
use testharness.Prelude.{
  ℕ, ◌+◌, ◌*◌, ◌<◌, String, ◌≡◌, refl, ap, ◌∙◌, inl, inr, Bool, true, ◌||◌, Option, none, some, [],
  ◌∷◌, ◌++◌, ◌==◌, Bool-cases, select_one, update_where, count_where, lt→ltb,
}
use testharness.Db.{Db, StaleAlert}
use testharness.Db.AppStates.{
  is_alert_of, alerted_at, get_last_stale_alert_at, mark_stale_alerted, get_app_last_finished_at,
}
use testharness.Db.AppStates.Upserts.{
  select_one-updated, select_one-absent, select_one-present, select_one-at_end,
}
use testharness.Staleness.{
  StalenessConfig, StaleApp, is_fresh, is_alerted, judge, check_environment,
}

get-mark :
    (db : Db) (app environment : String) (now : ℕ)
    → get_last_stale_alert_at (mark_stale_alerted db app environment now) app environment ≡ some now
unfolding get_last_stale_alert_at mark_stale_alerted
get-mark db app environment now = elim (Bool-cases (count_where same db.stale_alerts == 0)) [
  | inl e ↦
      let found : select_one same (db.stale_alerts ++ new ∷ []) ≡ some new =
        select_one-at_end same db.stale_alerts new
        ∙ rw (select_one-absent same db.stale_alerts e) (rw (eq_refl app, eq_refl environment)) in
      rw e (ap alerted_at found)
  | inr e ↦
      let (r, g) = select_one-present same db.stale_alerts e in
      let found : select_one same
            (update_where same (λ a. record a { last_alerted_at = now }) db.stale_alerts)
          ≡ some (record r { last_alerted_at = now }) =
        select_one-updated same (λ a. record a { last_alerted_at = now }) db.stale_alerts
          (λ x. refl)
        ∙ rw g in
      rw e (ap alerted_at found)
]
  where
    same : StaleAlert → Bool
    same = is_alert_of app environment

    new : StaleAlert
    new = record { app = app; environment = environment; last_alerted_at = now }

module _ (m : Option (String × String) → Bool) (cfg : StalenessConfig) (now : ℕ)
    (app environment : String) (db : Db) where
  judge-marked :
      (t : Option ℕ) (found : StaleApp)
      → (judge m cfg now app environment db t).0 ≡ found ∷ []
      → (judge m cfg now app environment db t).1 ≡ mark_stale_alerted db app environment now
  judge-marked none found h = cc h
  judge-marked (some t) found h =
      elim (Bool-cases
        (is_fresh cfg now t || is_alerted cfg now (get_last_stale_alert_at db app environment))) [
          | inl e ↦ cc (rw e at h)
          | inr e ↦ rw e
        ]

  found-marked :
      (found : StaleApp)
      → (check_environment m cfg now app environment db).0 ≡ found ∷ []
      → (check_environment m cfg now app environment db).1
        ≡ mark_stale_alerted db app environment now
  unfolding check_environment
  found-marked found h = elim (Bool-cases (m (some (app, environment)))) [
    | inl e ↦ cc (rw e at h)
    | inr e ↦ rw e (judge-marked (get_app_last_finished_at db app environment) found (rw e at h))
  ]

  judge-quiet :
      (t : Option ℕ)
      → is_alerted cfg now (get_last_stale_alert_at db app environment) ≡ true
      → (judge m cfg now app environment db t).0 ≡ []
  judge-quiet none a = refl
  judge-quiet (some t) a = elim (Bool-cases (is_fresh cfg now t)) [
    | inl e ↦ rw e
    | inr e ↦ rw (e, a)
  ]

  alerted-quiet :
      is_alerted cfg now (get_last_stale_alert_at db app environment) ≡ true
      → (check_environment m cfg now app environment db).0 ≡ []
  unfolding check_environment
  alerted-quiet a = elim (Bool-cases (m (some (app, environment)))) [
    | inl e ↦ rw e
    | inr e ↦ rw e (judge-quiet (get_app_last_finished_at db app environment) a)
  ]

-- Once an app has been found stale in an environment, a next check that comes before the realert
-- span has passed does not find it.
pub check_environment-once :
    (in_maintenance : Option (String × String) → Bool) (cfg : StalenessConfig)
    (app environment : String) (db : Db) (now later : ℕ) (found : StaleApp)
    → (check_environment in_maintenance cfg now app environment db).0 ≡ found ∷ []
    → later < now + cfg.realert_hours * 3600
    → (check_environment in_maintenance cfg later app environment
        (check_environment in_maintenance cfg now app environment db).1).0
      ≡ []
check_environment-once m cfg app environment db now later found h soon =
    rw (found-marked m cfg now app environment db found h) (
      alerted-quiet m cfg later app environment (mark_stale_alerted db app environment now)
        (rw (get-mark db app environment now) (lt→ltb later (now + cfg.realert_hours * 3600) soon)))
