-- ===== src/Db/AppStates/Retention.antt =====
-- `prune_old_runs` of harness/retention.py. `removed` tells which screenshot files can be removed;
-- no two results have one file.
use testharness.Prelude.{
  ℕ, ◌-◌, ◌*◌, String, Bool, Option, none, some, if◌then◌else◌, ltb, count_where,
}
use testharness.Db.{Db}
use testharness.Db.AppStates.{list_screenshots_older_than, prune_runs_older_than}

pub record Pruned : Type 0 where
  pub runs_deleted : ℕ
  pub results_deleted : ℕ
  pub screenshots_deleted : ℕ

abbrev nothing : Pruned
nothing = record { runs_deleted = 0; results_deleted = 0; screenshots_deleted = 0 }

unfoldable pub prune_days : (String → Bool) → Db → ℕ → ℕ → Pruned × Db
unfolding list_screenshots_older_than prune_runs_older_than count_where
prune_days removed db now retention_days =
    let cutoff = now - retention_days * 86400 in
    let screenshot_files = list_screenshots_older_than db cutoff in
    let (counts, db') = prune_runs_older_than db cutoff in
    (
      record {
        runs_deleted = counts.0;
        results_deleted = counts.1;
        screenshots_deleted = count_where removed screenshot_files;
      },
      db',
    )

-- A retention of 0 days, as of fewer, prunes nothing.
unfoldable pub prune_old_runs : (String → Bool) → Db → ℕ → Option ℕ → Pruned × Db
unfolding prune_days
prune_old_runs removed db now none = (nothing, db)
prune_old_runs removed db now (some retention_days) =
    let pruned = prune_days removed db now retention_days in
    if ltb 0 retention_days then pruned else (nothing, db)
