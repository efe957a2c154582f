-- ===== src/Db/Runs.antt =====
-- harness/db/_runs.py: the rows of `runs`.
use testharness.Prelude.{
  ℕ, String, ◌=s=◌, Bool, Option, none, some, ◌∷◌, [], ◌++◌, select_one, update_where,
}
use testharness.Db.{Db, Run, RunStatus}

-- COALESCE(?, column)
abbrev pub coalesce {ℓ} : {A : Type ℓ} → Option A → Option A → Option A
coalesce none column = column
coalesce (some a) column = some a

abbrev pub run_has_id : String → Run → Bool
run_has_id run_id r = r.id =s= run_id

unfoldable pub get_run : Db → String → Option Run
unfolding select_one
get_run db run_id = select_one (run_has_id run_id) db.runs

-- `none` is the IntegrityError of a second row with one primary key.
unfoldable pub insert_run : Db → Run → Option Db
unfolding get_run
insert_run db run = elim (get_run db run.id) [
  | none ↦ some (record db { runs = db.runs ++ run ∷ [] })
  | some _ ↦ none
]

unfoldable pub update_run_status : Db → String → RunStatus → Option ℕ → Option ℕ → Db
unfolding update_where
update_run_status db run_id status started_at finished_at = record db {
  runs =
      update_where (run_has_id run_id)
        (λ r. record r {
          status = status;
          started_at = coalesce started_at r.started_at;
          finished_at = coalesce finished_at r.finished_at;
        })
        db.runs;
}
