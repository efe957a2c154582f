-- ===== src/Db/Runners/Registry.antt =====
-- What harness/db/_runners.py keeps of the registry: who is bound to which key, and what a delete
-- takes away.
use text.Mathlib.TextPositions.{eq_refl}
use testharness.Prelude.{
  ℕ, String, ◌=s=◌, eq_iff, ◌≡◌, ◌≢◌, refl, sym, ap, ◌∙◌, inl, inr, true, false, ◌&&◌, ◌||◌, Option,
  some, none, List, [], ◌∷◌, ◌++◌, arith, ◌==◌, if◌then◌else◌, Bool-cases, and-true_left, column_is,
  select_one, update_where, count_where, delete_where, Fresh, Distinct, select_one-none,
  select_one-update_where, select_one-update_where_self, count_where-one,
}
use testharness.Db.{Db, Job, JobState, state_is, Runner}
use testharness.Db.RunnerJobs.Stuck.{is_inflight, release, count_inflight_jobs_for_runner}
use testharness.Db.Runners.{
  has_name, get_runner_by_name, Upsert, ok, err, bind_conflict, Expected, any, checked,
  Registration, binding_allows, refresh, new_runner, is_taken, is_checked, is_target, upsert_write,
  upsert_runner, delete_runner,
}

abbrev pub name_of : Runner → String
name_of r = r.name

-- UNIQUE: no two runners have one name.
abbrev pub HasDistinctRunners : Db → Type 0
HasDistinctRunners db = Distinct name_of db.runners

found_is_taken :
    (name rid : String) (rows : List Runner) (r : Runner)
    → select_one (has_name name) rows ≡ some r
    → (count_where (λ (s : Runner). s.name =s= name || s.id =s= rid) rows == 0) ≡ false
unfolding select_one count_where
found_is_taken name rid [] r h = cc
found_is_taken name rid (s ∷ rows) r h = ground (arith, found_is_taken name rid rows r)

other_key_refused :
    (expected : Option String) (key : String)
    → expected ≢ some key
    → binding_allows (checked expected) (some key) ≡ false
other_key_refused none key h = refl
other_key_refused (some e) key h = elim (Bool-cases (key =s= e)) [
  | inl q ↦ absurd (h (ap some (sym ((eq_iff key e).0 q))))
  | inr q ↦ q
]

-- A checked registration never takes over a runner that is bound to a key other than the checked
-- one, whatever the caller had read before: the write is refused with `RunnerBindConflict`.
pub upsert_keeps_binding :
    (existing : Option Runner) (db : Db) (rid : String) (reg : Registration) (now : ℕ)
    (expected : Option String) (r : Runner) (key : String)
    → HasDistinctRunners db
    → reg.expected ≡ checked expected
    → get_runner_by_name db reg.name ≡ some r
    → r.api_key_id ≡ some key
    → expected ≢ some key
    → upsert_write existing db rid reg now ≡ err bind_conflict
unfolding upsert_write get_runner_by_name
upsert_keeps_binding none db rid reg now expected r key d c g k h =
    ground (arith, c, found_is_taken reg.name rid db.runners r g)
upsert_keeps_binding (some e) db rid reg now expected r key d c g k h = ground (
  arith,
  c,
  k,
  other_key_refused expected key h,
  count_where-one name_of reg.name (λ s. binding_allows reg.expected s.api_key_id) db.runners r d g,
)

-- The row of the registered name after a registration.
abbrev pub registered : Option Runner → String → Registration → ℕ → Runner
registered none rid reg now = new_runner rid reg now
registered (some r) rid reg now = refresh reg now r

select_one-append :
    (name : String) (rows : List Runner) (r : Runner)
    → Fresh name_of name rows
    → select_one (has_name name) (rows ++ r ∷ []) ≡ (if r.name =s= name then some r else none)
unfolding select_one
select_one-append name [] r f = refl
select_one-append name (s ∷ rows) r f = ground (arith, select_one-append name rows r)

select_one-append_ne :
    (name : String) (rows : List Runner) (r : Runner)
    → (r.name =s= name) ≡ false
    → select_one (has_name name) (rows ++ r ∷ []) ≡ select_one (has_name name) rows
unfolding select_one
select_one-append_ne name [] r f = ground arith
select_one-append_ne name (s ∷ rows) r f = ground (arith, select_one-append_ne name rows r)

allowed_of :
    (x : Expected) (key : Option String) (n : ℕ)
    → n ≡ (if binding_allows x key then 1 else 0)
    → (is_checked x && n == 0) ≡ false
    → binding_allows x key ≡ true
allowed_of any key n c h = refl
allowed_of (checked e) key n c h = elim (Bool-cases (binding_allows (checked e) key)) [
  | inl t ↦ t
  | inr f ↦ let z : n ≡ 0 = c ∙ rw f in ground (arith, z, h)
]

upserted :
    (old : Option Runner) (db : Db) (rid : String) (reg : Registration) (now : ℕ) (db' : Db)
    → HasDistinctRunners db
    → get_runner_by_name db reg.name ≡ old
    → upsert_write old db rid reg now ≡ ok db'
    → (get_runner_by_name db' reg.name ≡ some (registered old rid reg now))
      × ((other : String)
          → (reg.name =s= other) ≡ false
          → get_runner_by_name db' other ≡ get_runner_by_name db other)
unfolding upsert_write get_runner_by_name
upserted none db rid reg now db' d g h = elim (Bool-cases (is_taken db rid reg.name)) [
  | inl t ↦ ground (arith, t, h)
  | inr t ↦
      let e : Upsert.ok (record db { runners = db.runners ++ new_runner rid reg now ∷ [] })
          ≡ ok db' =
        ground (arith, t, h) in
      let q : db.runners ++ new_runner rid reg now ∷ [] ≡ db'.runners = cc e in
      (
        rw (← q) (
            select_one-append reg.name db.runners _ (select_one-none name_of reg.name db.runners g)
            ∙ rw (eq_refl reg.name)),
        λ other apart. rw (← q) (select_one-append_ne other db.runners _ apart),
      )
]
upserted (some r) db rid reg now db' d g h =
    let guard = is_checked reg.expected && count_where (is_target reg) db.runners == 0 in
    elim (Bool-cases guard) [
      | inl t ↦ ground (arith, t, h)
      | inr t ↦
          let e : Upsert.ok
                (record db { runners = update_where (is_target reg) (refresh reg now) db.runners })
              ≡ ok db' =
            ground (arith, t, h) in
          let q : update_where (is_target reg) (refresh reg now) db.runners ≡ db'.runners = cc e in
          let one =
            count_where-one name_of reg.name (λ s. binding_allows reg.expected s.api_key_id)
              db.runners r d g in
          (
            rw (← q) (
                select_one-update_where_self name_of reg.name
                  (λ s. binding_allows reg.expected s.api_key_id) _ db.runners r (λ s. refl) g
                ∙ rw (allowed_of reg.expected r.api_key_id _ one t)),
            λ other apart.
                rw (← q)
                  (select_one-update_where name_of reg.name other _ _ db.runners (λ s. refl) apart),
          )
    ]

-- A registration that succeeds leaves, under its name, a new row or the old row refreshed, and
-- leaves every other runner as it was.
pub upsert_runner_lem :
    (db : Db) (rid : String) (reg : Registration) (now : ℕ) (db' : Db) (other : String)
    → HasDistinctRunners db
    → upsert_runner db rid reg now ≡ ok db'
    → (reg.name =s= other) ≡ false
    → (get_runner_by_name db' reg.name
        ≡ some (registered (get_runner_by_name db reg.name) rid reg now))
      × (get_runner_by_name db' other ≡ get_runner_by_name db other)
unfolding upsert_runner
upsert_runner_lem db rid reg now db' other d h apart =
    let (mine, others) = upserted (get_runner_by_name db reg.name) db rid reg now db' d refl h in
    (mine, others other apart)

select_one-delete_where :
    (name : String) (rows : List Runner)
    → select_one (has_name name) (delete_where (has_name name) rows) ≡ none
unfolding select_one delete_where
select_one-delete_where name [] = refl
select_one-delete_where name (r ∷ rows) = ground (arith, select_one-delete_where name rows)

no_longer_inflight :
    (name : String) (j : Job)
    → is_inflight name (if is_inflight name j then release j else j) ≡ false
no_longer_inflight name j = elim (Bool-cases (is_inflight name j)) [
  | inl e ↦ rw e
  | inr e ↦ rw (e, e)
]

released_inflight :
    (name : String) (rows : List Job)
    → count_where (is_inflight name) (update_where (is_inflight name) release rows) ≡ 0
unfolding count_where update_where
released_inflight name [] = refl
released_inflight name (j ∷ rows) = rw (no_longer_inflight name j) (released_inflight name rows)

other_inflight :
    (name other : String) (j : Job)
    → (name =s= other) ≡ false
    → is_inflight other (if is_inflight name j then release j else j) ≡ is_inflight other j
other_inflight name other j apart = elim (Bool-cases (is_inflight name j)) [
  | inr e ↦ rw e
  | inl e ↦ rw e (sym (foreign j.assigned_to (and-true_left _ _ e)))
]
  where
    foreign :
        (o : Option String)
        → column_is o name ≡ true
        → (column_is o other && state_is j.state JobState.assigned) ≡ false
    foreign none h = refl
    foreign (some t) h = rw ((eq_iff t name).0 h, apart)

others_inflight :
    (name other : String) (rows : List Job)
    → (name =s= other) ≡ false
    → count_where (is_inflight other) (update_where (is_inflight name) release rows)
      ≡ count_where (is_inflight other) rows
unfolding count_where update_where
others_inflight name other [] apart = refl
others_inflight name other (j ∷ rows) apart =
    rw (other_inflight name other j apart, others_inflight name other rows apart)

-- Deleting a runner removes its row, puts every job that it held back to the queue, returns their
-- number, and leaves what any other runner holds.
pub delete_runner_lem :
    (name other : String) (db : Db)
    → (name =s= other) ≡ false
    → let (requeued, db') = delete_runner name db in
      (get_runner_by_name db' name ≡ none)
      × (requeued ≡ count_inflight_jobs_for_runner db name)
      × (count_inflight_jobs_for_runner db' name ≡ 0)
      × (count_inflight_jobs_for_runner db' other ≡ count_inflight_jobs_for_runner db other)
unfolding delete_runner get_runner_by_name count_inflight_jobs_for_runner
delete_runner_lem name other db apart = (
  select_one-delete_where name db.runners,
  refl,
  released_inflight name db.runner_jobs,
  others_inflight name other db.runner_jobs apart,
)
