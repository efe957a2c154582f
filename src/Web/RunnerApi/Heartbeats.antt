-- ===== src/Web/RunnerApi/Heartbeats.antt =====
-- What a heartbeat of web/routes/runner.py does to the worker's status.
use testharness.Prelude.{
  ℕ, String, ◌≡◌, refl, sym, ap, ◌∙◌, inl, inr, true, Option, none, some, if◌then◌else◌, Bool-cases,
  map_option, select_one-update_key,
}
use testharness.Db.{Db, Runner, RunnerStatus, online, draining, Health, healthy, unhealthy}
use testharness.Db.Runners.{
  get_runner_by_name, update_runner, set_runner_version_stale, set_runner_health, set_runner_status,
  touch_runner_heartbeat, seen_status, check_runner_binding, compare_binding, key_of,
}
use testharness.Db.Runners.Registry.{name_of}
use testharness.VersionSkew.{ℤ, is_version_stale}
use testharness.Web.RunnerApi.{
  is_bound, is_draining, is_unhealthy, reported, record_health, record_version, runner_heartbeat,
}

get-update_runner :
    (name : String) (f : Runner → Runner) (db : Db)
    → ((r : Runner) → (f r).name ≡ r.name)
    → get_runner_by_name (update_runner name f db) name ≡ map_option f (get_runner_by_name db name)
unfolding get_runner_by_name update_runner
get-update_runner name f db same = select_one-update_key name_of name f db.runners same

-- The row that a report leaves, from the row that the touch left and the status and health before.
abbrev pub after_report : RunnerStatus → Option Health → Option Health → Runner → Runner
after_report status health none r = r
after_report status health (some unhealthy) r = record r {
  health = some unhealthy;
  status = draining;
}
after_report status health (some healthy) r = record r {
  health = some healthy;
  status = if is_unhealthy health then online else r.status;
}

module _ (central_version : String) (warning_minors : ℤ) where
  abbrev pub after_version : Option String → Runner → Runner
  after_version none r = r
  after_version (some v) r = record r {
    version_stale = is_version_stale (some v) central_version warning_minors;
  }

  -- The whole ping on the worker's row.
  abbrev pub pinged : Option String → Option String → ℕ → Runner → Runner
  pinged version health now r =
      after_report r.status r.health (reported health) (
        after_version version (record r { last_seen_at = some now; status = seen_status r.status }))

  get-record_version :
      (name : String) (version : Option String) (db : Db)
      → get_runner_by_name (record_version central_version warning_minors name version db) name
        ≡ map_option (after_version version) (get_runner_by_name db name)
  get-record_version name none db = sym (map_option_id (get_runner_by_name db name))
    where
      map_option_id : (o : Option Runner) → map_option (λ r. r) o ≡ o
      map_option_id none = refl
      map_option_id (some r) = refl
  get-record_version name (some v) db =
      unfold set_runner_version_stale in get-update_runner name _ db (λ r. refl)

get-set_health :
    (name : String) (h : Option Health) (db : Db) (t : Runner)
    → get_runner_by_name db name ≡ some t
    → get_runner_by_name (set_runner_health name h db) name ≡ some (record t { health = h })
unfolding set_runner_health
get-set_health name h db t g =
    get-update_runner name _ db (λ r. refl)
    ∙ ap (map_option (λ (r : Runner). record r { health = h })) g

get-set_status :
    (name : String) (s : RunnerStatus) (db : Db) (t : Runner)
    → get_runner_by_name db name ≡ some t
    → get_runner_by_name (set_runner_status name s db) name ≡ some (record t { status = s })
unfolding set_runner_status
get-set_status name s db t g =
    get-update_runner name _ db (λ r. refl)
    ∙ ap (map_option (λ (r : Runner). record r { status = s })) g

get-record_health :
    (name : String) (r : Runner) (h : Option Health) (db : Db) (t : Runner)
    → get_runner_by_name db name ≡ some t
    → (is_draining r.status ≡ true → t.status ≡ draining)
    → get_runner_by_name (record_health name r h db) name
      ≡ some (after_report r.status r.health h t)
get-record_health name r none db t g same = g
get-record_health name r (some unhealthy) db t g same = elim (Bool-cases (is_draining r.status)) [
  | inl e ↦ rw e (get-set_health name (some unhealthy) db t g ∙ kept (same e))
  | inr e ↦ rw e (
      get-set_status name draining (set_runner_health name (some unhealthy) db) _
        (get-set_health name (some unhealthy) db t g))
]
  where
    kept :
        t.status ≡ draining
        → some (record t { health = some unhealthy })
          ≡ some (record t { health = some unhealthy; status = draining })
    kept e = ap (λ s. some (record t { health = some unhealthy; status = s })) e
get-record_health name r (some healthy) db t g same = elim (Bool-cases (is_unhealthy r.health)) [
  | inl e ↦ rw e (
      get-set_status name online (set_runner_health name (some healthy) db) _
        (get-set_health name (some healthy) db t g))
  | inr e ↦ rw e (get-set_health name (some healthy) db t g)
]

get-touch :
    (name : String) (now : ℕ) (db : Db) (r : Runner)
    → get_runner_by_name db name ≡ some r
    → get_runner_by_name (touch_runner_heartbeat name now db) name
      ≡ some (record r { last_seen_at = some now; status = seen_status r.status })
unfolding touch_runner_heartbeat
get-touch name now db r g =
    get-update_runner name _ db (λ r. refl)
    ∙ ap
        (map_option
          (λ (x : Runner). record x { last_seen_at = some now; status = seen_status x.status }))
        g

draining_seen : (s : RunnerStatus) → is_draining s ≡ true → seen_status s ≡ draining
draining_seen draining e = refl
draining_seen _ e = cc e

after_version-status :
    (central : String) (n : ℤ) (v : Option String) (r : Runner)
    → (after_version central n v r).status ≡ r.status
after_version-status central n none r = refl
after_version-status central n (some v) r = refl

module _ (central_version : String) (warning_minors : ℤ) (db : Db) (name key_id : String) where
  -- A ping of a registered worker with its key leaves its row with the time, the version's class, the
  -- health and the status of `pinged`: an unhealthy worker is drained, a worker that was unhealthy
  -- and is healthy is put online, and any other keeps `draining` and is online else.
  pub heartbeat_row :
      (version health : Option String) (now : ℕ) (r : Runner)
      → get_runner_by_name db name ≡ some r
      → is_bound (check_runner_binding db name key_id) ≡ true
      → get_runner_by_name
          (runner_heartbeat central_version warning_minors db name key_id version health now).1
          name
        ≡ some (pinged central_version warning_minors version health now r)
  unfolding runner_heartbeat
  heartbeat_row version health now r g b = rw g (
      rw b (
        get-record_health name r (reported health) _ seen versioned (λ e.
          after_version-status central_version warning_minors version touched
          ∙ draining_seen r.status e)))
    where
      touched : Runner
      touched = record r { last_seen_at = some now; status = seen_status r.status }

      seen : Runner
      seen = after_version central_version warning_minors version touched

      versioned :
          get_runner_by_name
            (record_version central_version warning_minors name version
              (touch_runner_heartbeat name now db))
            name
          ≡ some seen
      versioned =
          get-record_version central_version warning_minors name version
            (touch_runner_heartbeat name now db)
          ∙ ap (map_option (after_version central_version warning_minors version))
              (get-touch name now db r g)

binding_of_row :
    (db db' : Db) (name key_id : String) (r r' : Runner)
    → get_runner_by_name db name ≡ some r
    → get_runner_by_name db' name ≡ some r'
    → r'.api_key_id ≡ r.api_key_id
    → check_runner_binding db' name key_id ≡ check_runner_binding db name key_id
unfolding check_runner_binding
binding_of_row db db' name key_id r r' g g' k =
    ap (λ o. compare_binding (key_of o) key_id) g'
    ∙ ap (λ o. compare_binding o key_id) k
    ∙ sym (ap (λ o. compare_binding (key_of o) key_id) g)

pinged-key :
    (central : String) (n : ℤ) (version : Option String) (now : ℕ) (r : Runner)
    → (pinged central n version (some "unhealthy") now r).api_key_id ≡ r.api_key_id
pinged-key central n none now r = refl
pinged-key central n (some v) now r = refl

recovered :
    (central : String) (n : ℤ) (version : Option String) (now later : ℕ) (r : Runner)
    → (pinged central n version
        (some "healthy")
        later
        (pinged central n version (some "unhealthy") now r)).status
      ≡ online
recovered central n none now later r = refl
recovered central n (some v) now later r = refl

-- A registered worker that reports itself unhealthy and then healthy, with its key, ends online
-- whatever its status was before, also one that was draining already.
pub drain_lost_on_recovery :
    (central_version : String) (warning_minors : ℤ) (db : Db) (name key_id : String)
    (version : Option String) (now later : ℕ) (r : Runner)
    → get_runner_by_name db name ≡ some r
    → is_bound (check_runner_binding db name key_id) ≡ true
    → let ping = λ (health : String) (at : ℕ) (d : Db).
      (runner_heartbeat central_version warning_minors d name key_id version (some health) at).1 in
      (r' : Runner) × (get_runner_by_name (ping "healthy" later (ping "unhealthy" now db)) name
        ≡ some r')
      × (r'.status ≡ online)
drain_lost_on_recovery central n db name key_id version now later r g b =
    let first = heartbeat_row central n db name key_id version (some "unhealthy") now r g b in
    let sick = pinged central n version (some "unhealthy") now r in
    let db' = (runner_heartbeat central n db name key_id version (some "unhealthy") now).1 in
    let still =
      ap is_bound
        (binding_of_row db db' name key_id r sick g first (pinged-key central n version now r))
      ∙ b in
    (
      pinged central n version (some "healthy") later sick,
      heartbeat_row central n db' name key_id version (some "healthy") later sick first still,
      recovered central n version now later r,
    )
