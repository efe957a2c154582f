-- ===== src/Db/Windows.antt =====
-- harness/db/_maintenance_windows.py: the rows of `maintenance_windows`. `strip` and `lower` are those of
-- `str`. The description, the author and the time of the last update are left out.
use testharness.Prelude.{
  kept_or, ℕ, String, ◌=s=◌, Bool, true, false, not, ◌&&◌, ◌||◌, Option, none, some, List, [], ◌∷◌,
  ◌++◌, ltb, if◌then◌else◌, is_none, select_where, order_desc, select_one, update_where,
  delete_where, count_where,
}
use testharness.Db.{Db, Day, Window}

-- A text that counts as true.
abbrev pub filled : Option String → Option String
filled none = none
filled (some s) = if s =s= "" then none else some s

-- `a or b` of two texts
abbrev pub or_text : Option String → Option String → Option String
or_text a b = elim (filled a) [ none ↦ b | some s ↦ some s ]

abbrev pub has_text : Option String → Bool
has_text s = not (is_none (filled s))

abbrev pub is_positive : Option ℕ → Bool
is_positive none = false
is_positive (some n) = ltb 0 n

abbrev pub has_days : List Day → Bool
has_days [] = false
has_days (d ∷ days) = true

-- The arguments of an update that are not None.
pub record Changes : Type 0 where
  pub name : Option String
  pub app : Option String
  pub environment : Option String
  pub window_type : Option String
  pub cron : Option String
  pub duration_minutes : Option ℕ
  pub start_time : Option String
  pub end_time : Option String
  pub days_of_week : Option (List Day)
  pub timezone : Option String
  pub enabled : Option Bool

-- What the caller gives.
pub record NewWindow : Type 0 where
  pub name : String
  pub window_type : String
  pub app : Option String
  pub environment : Option String
  pub cron : Option String
  pub duration_minutes : Option ℕ
  pub start_time : Option String
  pub end_time : Option String
  pub days_of_week : List Day
  pub timezone : Option String
  pub enabled : Bool

abbrev pub window_has_id : String → Window → Bool
window_has_id window_id w = w.id =s= window_id

unfoldable pub get_maintenance_window : Db → String → Option Window
unfolding select_one
get_maintenance_window db window_id = select_one (window_has_id window_id) db.maintenance_windows

abbrev pub scoped : Option String → Option String → Bool
scoped none column = true
scoped (some wanted) none = true
scoped (some wanted) (some value) = value =s= wanted

-- The WHERE clause of `list_maintenance_windows`.
abbrev pub is_listed : Bool → Option String → Option String → Window → Bool
is_listed enabled_only app environment w =
    (not enabled_only || w.enabled) && (scoped app w.app && scoped environment w.environment)

unfoldable pub list_maintenance_windows : Db → Bool → Option String → Option String → List Window
unfolding select_where order_desc
list_maintenance_windows db enabled_only app environment =
    order_desc (λ w. w.created_at)
      (select_where (is_listed enabled_only app environment) db.maintenance_windows)

-- Whether a row went.
unfoldable pub delete_maintenance_window : Db → String → Bool × Db
unfolding delete_where count_where
delete_maintenance_window db window_id = (
  ltb 0 (count_where (window_has_id window_id) db.maintenance_windows),
  record db { maintenance_windows = delete_where (window_has_id window_id) db.maintenance_windows },
)

module _ (strip lower : String → String) where
  -- x.strip() if x and x.strip() else None
  abbrev pub stripped : Option String → Option String
  stripped none = none
  stripped (some s) = filled (some (strip s))

  -- The checks of a new window, whose type is stripped and in lower case.
  unfoldable pub is_valid_window : NewWindow → Bool
  is_valid_window w =
      let window_type = lower (strip w.window_type) in
      not (strip w.name =s= "")
      && ((window_type =s= "range" && (has_text w.start_time && has_text w.end_time))
          || ((window_type =s= "cron"
                && (not (is_none (stripped w.cron)) && is_positive w.duration_minutes))
              || (window_type =s= "weekly"
                  && (has_days w.days_of_week
                      && (has_text w.start_time
                          && (is_positive w.duration_minutes || has_text w.end_time))))))

  abbrev utc_unless : Option String → Option String
  utc_unless none = some "UTC"
  utc_unless (some tz) = some tz

  unfoldable pub window_row : String → ℕ → NewWindow → Window
  window_row id now w = record {
    id = id;
    name = some (strip w.name);
    app = stripped w.app;
    environment = stripped w.environment;
    window_type = some (lower (strip w.window_type));
    cron = stripped w.cron;
    duration_minutes = w.duration_minutes;
    start = none;
    end = none;
    start_time = stripped w.start_time;
    end_time = stripped w.end_time;
    days_of_week = w.days_of_week;
    timezone = utc_unless (stripped w.timezone);
    enabled = w.enabled;
    created_at = now;
  }

  -- A new window with its id, a new uuid, and the clock; `none` is the ValueError.
  unfoldable pub create_maintenance_window : Db → String → ℕ → NewWindow → Option Db
  unfolding is_valid_window window_row
  create_maintenance_window db id now w =
      if is_valid_window w
      then some
          (record db { maintenance_windows = db.maintenance_windows ++ window_row id now w ∷ [] })
      else none

  abbrev pub valid_name : Option String → Bool
  valid_name none = true
  valid_name (some name) = not (strip name =s= "")

  abbrev pub valid_type : Option String → Bool
  valid_type none = true
  valid_type (some t) =
      let window_type = lower (strip t) in
      window_type =s= "range" || (window_type =s= "cron" || window_type =s= "weekly")

  -- A text is set to what is left of it, or to NULL.
  abbrev pub set_text : Option String → Option String → Option String
  set_text none column = column
  set_text (some s) column = stripped (some s)

  abbrev pub set_name : Option String → Option String → Option String
  set_name none column = column
  set_name (some s) column = some (strip s)

  abbrev pub set_type : Option String → Option String → Option String
  set_type none column = column
  set_type (some s) column = some (lower (strip s))

  abbrev pub set_timezone : Option String → Option String → Option String
  set_timezone none column = column
  set_timezone (some s) column = utc_unless (stripped (some s))

  abbrev pub set_duration : Option ℕ → Option ℕ → Option ℕ
  set_duration none column = column
  set_duration (some n) column = if ltb 0 n then some n else none

  abbrev pub with_changes : Changes → Window → Window
  with_changes c w = record w {
    name = set_name c.name w.name;
    app = set_text c.app w.app;
    environment = set_text c.environment w.environment;
    window_type = set_type c.window_type w.window_type;
    cron = set_text c.cron w.cron;
    duration_minutes = set_duration c.duration_minutes w.duration_minutes;
    start_time = set_text c.start_time w.start_time;
    end_time = set_text c.end_time w.end_time;
    days_of_week = kept_or c.days_of_week w.days_of_week;
    timezone = set_timezone c.timezone w.timezone;
    enabled = kept_or c.enabled w.enabled;
  }

  -- The row, or none if there is none, and the tables; `none` for both is the ValueError.
  unfoldable pub update_maintenance_window : Db → String → Changes → Option (Option Window × Db)
  unfolding get_maintenance_window update_where
  update_maintenance_window db window_id c =
      let rows = update_where (window_has_id window_id) (with_changes c) db.maintenance_windows in
      let updated = record db { maintenance_windows = rows } in
      if is_none (get_maintenance_window db window_id)
      then some (none, db)
      else if valid_name c.name && valid_type c.window_type
      then some (get_maintenance_window updated window_id, updated)
      else none
