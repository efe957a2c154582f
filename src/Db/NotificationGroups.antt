-- ===== src/Db/NotificationGroups.antt =====
-- harness/db/_notification_groups.py. `strip` and `lower` of Python's texts are arguments, and so is `nocase`,
-- SQLite's comparison of names without the case of ASCII letters.
pub mod Resolved
use testharness.Prelude.{
  ℕ, String, ◌=s=◌, Bool, true, false, not, ◌&&◌, ◌||◌, Option, none, some, List, [], ◌∷◌, ◌++◌,
  ◌==◌, if◌then◌else◌, map, kept_or, map_option, ltb, codes, has_code, sorted_set, order_by_name,
  select_one, select_where, update_where, delete_where, count_where,
}
use testharness.Db.{Db, NotificationGroup}

-- e and "@" in e
abbrev pub is_address : String → Bool
is_address e = not (e =s= "") && has_code b'@' (codes e)

abbrev is_empty_list : List String → Bool
is_empty_list [] = true
is_empty_list (e ∷ es) = false

-- A row as the code returns it: a column that is no list reads as the empty one.
abbrev pub emails_of : NotificationGroup → List String
emails_of g = kept_or g.emails []

abbrev pub read_row : NotificationGroup → NotificationGroup
read_row g = record g { emails = some (emails_of g) }

abbrev pub group_has_id : String → NotificationGroup → Bool
group_has_id group_id g = g.id =s= group_id

unfoldable pub list_notification_groups : Db → List NotificationGroup
unfolding order_by_name
list_notification_groups db = map read_row (order_by_name (λ g. g.name) db.notification_groups)

unfoldable pub get_notification_group : Db → String → Option NotificationGroup
unfolding select_one
get_notification_group db group_id =
    map_option read_row (select_one (group_has_id group_id) db.notification_groups)

unfoldable pub delete_notification_group : String → Db → Bool × Db
unfolding delete_where count_where
delete_notification_group group_id db = (
  ltb 0 (count_where (group_has_id group_id) db.notification_groups),
  record db { notification_groups = delete_where (group_has_id group_id) db.notification_groups },
)

-- A result, the value None, or a ValueError.
pub data Result : Type 0 where
  group : NotificationGroup → Result
  nothing : Result
  value_error : Result

-- The arguments of an update that are given.
pub record GroupChanges : Type 0 where
  pub name : Option String
  pub emails : Option (List String)
  pub description : Option String

module _ (strip : String → String) (lower : String → String) (nocase : String → String → Bool) where
  abbrev pub clean : String → String
  clean e = lower (strip e)

  unfoldable pub cleaned_emails : List String → List String
  unfolding sorted_set select_where
  cleaned_emails emails = sorted_set (map clean (select_where is_address emails))

  unfoldable pub new_group : String → ℕ → String → List String → String → NotificationGroup
  unfolding cleaned_emails
  new_group group_id now name emails description = record {
    id = group_id;
    name = strip name;
    description = strip description;
    emails = some (cleaned_emails emails);
    created_at = now;
    updated_at = now;
  }

  abbrev taken : String → String → NotificationGroup → Bool
  taken group_id name g = group_has_id group_id g || nocase g.name name

  -- `group_id` is a new uuid.
  unfoldable pub create_notification_group :
      String → ℕ → String → List String → String → Db → Result × Db
  unfolding new_group cleaned_emails count_where
  create_notification_group group_id now name emails description db =
      let row = new_group group_id now name emails description in
      if strip name =s= "" || is_empty_list (cleaned_emails emails)
      then (value_error, db)
      else if count_where (taken group_id (strip name)) db.notification_groups == 0
      then (group row, record db { notification_groups = db.notification_groups ++ row ∷ [] })
      else (value_error, db)

  unfoldable pub get_notification_group_by_name : Db → String → Option NotificationGroup
  unfolding select_one
  get_notification_group_by_name db name =
      map_option read_row (select_one (λ g. nocase g.name (strip name)) db.notification_groups)

  abbrev stripped_or : Option String → String → String
  stripped_or none column = column
  stripped_or (some text) column = strip text

  abbrev new_emails : Option (List String) → NotificationGroup → List String
  new_emails none g = emails_of g
  new_emails (some emails) g = cleaned_emails emails

  abbrev no_address : Option (List String) → Bool
  no_address none = false
  no_address (some emails) = is_empty_list (cleaned_emails emails)

  -- Whether another row has the name.
  abbrev renamed_onto : String → String → NotificationGroup → Bool
  renamed_onto group_id name g = not (group_has_id group_id g) && nocase g.name name

  abbrev result_of : Option NotificationGroup → Result
  result_of none = nothing
  result_of (some g) = group g

  abbrev update_found : String → ℕ → GroupChanges → Db → Option NotificationGroup → Result × Db
  update_found group_id now c db none = (nothing, db)
  update_found group_id now c db (some g) =
      let new_name = stripped_or c.name g.name in
      let db' = record db {
        notification_groups =
            update_where (group_has_id group_id)
              (λ r. record r {
                name = new_name;
                description = stripped_or c.description g.description;
                emails = some (new_emails c.emails g);
                updated_at = now;
              })
              db.notification_groups;
      } in
      if no_address c.emails || new_name =s= ""
      then (value_error, db)
      else if count_where (renamed_onto group_id new_name) db.notification_groups == 0
      then (result_of (get_notification_group db' group_id), db')
      else (value_error, db)

  unfoldable pub update_notification_group : String → ℕ → GroupChanges → Db → Result × Db
  unfolding get_notification_group update_where count_where cleaned_emails
  update_notification_group group_id now c db =
      update_found group_id now c db (get_notification_group db group_id)

  -- id=? OR name=? COLLATE NOCASE
  abbrev pub named : String → NotificationGroup → Bool
  named ident g = group_has_id ident g || nocase g.name ident

  abbrev pub addresses_of : Option NotificationGroup → List String
  addresses_of none = []
  addresses_of (some g) = map clean (select_where is_address (emails_of g))

  abbrev pub addresses : Db → String → List String
  addresses db ident =
      if ident =s= "" then [] else addresses_of (select_one (named ident) db.notification_groups)

  unfoldable pub all_addresses : Db → List String → List String
  unfolding select_one select_where
  all_addresses db [] = []
  all_addresses db (ident ∷ idents) = addresses db ident ++ all_addresses db idents

  unfoldable pub resolve_emails_for_groups : Db → List String → List String
  unfolding all_addresses sorted_set
  resolve_emails_for_groups db idents = sorted_set (all_addresses db idents)
