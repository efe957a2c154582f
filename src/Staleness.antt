-- ===== src/Staleness.antt =====
-- harness/staleness.py: `find_stale_apps`. Times and spans are in seconds. `in_maintenance` is what
-- `is_in_maintenance` answers, for an app and an environment or for neither. A threshold below 0 is
-- not modelled. An alert is given without its texts.
pub mod Dedup
use testharness.Prelude.{
  ℕ, ◌+◌, ◌*◌, String, ◌=s=◌, Bool, true, false, ◌||◌, not, Option, none, some, List, [], ◌∷◌, ◌++◌,
  ltb, leb, if◌then◌else◌,
}
use testharness.Db.{Db}
use testharness.Db.AppStates.{get_app_last_finished_at, get_last_stale_alert_at, mark_stale_alerted}

pub record StalenessConfig : Type 0 where
  pub threshold_min : ℕ
  pub realert_hours : ℕ
  pub enabled : Bool

-- An app and the environments that it and the configuration declare, in the app's order.
pub record AppDef : Type 0 where
  pub app : String
  pub environments : List String

pub record StaleApp : Type 0 where
  pub app : String
  pub environment : String
  pub last_finished : ℕ

-- age <= threshold
abbrev pub is_fresh : StalenessConfig → ℕ → ℕ → Bool
is_fresh cfg now last_finished = leb now (last_finished + cfg.threshold_min * 60)

-- last_alert is not None and (now - last_alert) < realert
abbrev pub is_alerted : StalenessConfig → ℕ → Option ℕ → Bool
is_alerted cfg now none = false
is_alerted cfg now (some last_alert) = ltb now (last_alert + cfg.realert_hours * 3600)

abbrev is_declared : String → List String → Bool
is_declared env [] = false
is_declared env (e ∷ envs) = env =s= e || is_declared env envs

-- [e for e in app_envs if e in envs]
abbrev declared : List String → List String → List String
declared [] envs = []
declared (e ∷ app_envs) envs =
    let rest = declared app_envs envs in if is_declared e envs then e ∷ rest else rest

module _ (in_maintenance : Option (String × String) → Bool) (cfg : StalenessConfig) (now : ℕ) where
  abbrev pub judge : String → String → Db → Option ℕ → List StaleApp × Db
  judge app environment db none = ([], db)
  judge app environment db (some t) =
      if is_fresh cfg now t || is_alerted cfg now (get_last_stale_alert_at db app environment)
      then ([], db)
      else (
        record { app = app; environment = environment; last_finished = t } ∷ [],
        mark_stale_alerted db app environment now,
      )

  -- The body of the inner loop.
  unfoldable pub check_environment : String → String → Db → List StaleApp × Db
  check_environment app environment db =
      if in_maintenance (some (app, environment))
      then ([], db)
      else judge app environment db (get_app_last_finished_at db app environment)

  unfoldable pub check_environments : String → List String → Db → List StaleApp × Db
  unfolding check_environment
  check_environments app [] db = ([], db)
  check_environments app (e ∷ envs) db =
      let (found, db') = check_environment app e db in
      let (rest, db'') = check_environments app envs db' in (found ++ rest, db'')

  unfoldable pub check_apps : List AppDef → List String → Db → List StaleApp × Db
  unfolding check_environments
  check_apps [] envs db = ([], db)
  check_apps (a ∷ apps) envs db =
      let (found, db') = check_environments a.app (declared a.environments envs) db in
      let (rest, db'') = check_apps apps envs db' in (found ++ rest, db'')

  unfoldable pub find_stale_apps : List AppDef → List String → Db → List StaleApp × Db
  unfolding check_apps
  find_stale_apps apps envs db =
      let scanned = check_apps apps envs db in
      if not cfg.enabled || in_maintenance none then ([], db) else scanned
