-- ===== src/Web/Notifications.antt =====
-- web/routes/admin_notifications.py: the pages of the notification groups. `strip`, `lower` and `splitlines` of
-- Python's texts are arguments, and so is `nocase`, SQLite's comparison of names. The texts of the errors, and the
-- numbers in the details of an audit entry, are left out.
use Prim.Native.Char.{code}
use testharness.Prelude.{
  if◌then◌else◌, ◌==◌, String, Bool, ◌||◌, Option, none, some, List, map, select_where, led_by,
}
use testharness.Db.{Db, NotificationGroup}
use testharness.Db.Audit.{log_audit}
use testharness.Db.NotificationGroups.{
  Result, group, nothing, value_error, create_notification_group, update_notification_group,
  get_notification_group, delete_notification_group, list_notification_groups,
}
use testharness.Web.Auth.{in_list}
use testharness.Web.Users.{Call, Outcome, redirect, failed, audit, is_given}

-- An app of the loaded definitions, and the groups that it names.
pub record AppGroups : Type 0 where
  pub app : String
  pub notification_groups : List String

abbrev app_name : AppGroups → String
app_name a = a.app

abbrev uses_group : NotificationGroup → AppGroups → Bool
uses_group g a = in_list g.name a.notification_groups || in_list g.id a.notification_groups

abbrev with_apps : List AppGroups → NotificationGroup → NotificationGroup × List String
with_apps apps g = (g, map app_name (select_where (uses_group g) apps))

-- Each group with the apps that it is assigned to.
unfoldable pub notification_groups_list :
    Db → List AppGroups → List (NotificationGroup × List String)
unfolding list_notification_groups select_where
notification_groups_list db apps = map (with_apps apps) (list_notification_groups db)

-- emails.replace(",", "\n")
abbrev commas_to_lines : String → String
commas_to_lines String.[] = ""
commas_to_lines (String.◌∷◌ c s) =
    let rest = commas_to_lines s in if code c == b',' then led_by "\n" rest else String.◌∷◌ c rest

module _ (strip : String → String) (lower : String → String) (nocase : String → String → Bool)
    (splitlines : String → List String) where
  abbrev pub email_list : String → List String
  email_list emails = select_where is_given (map strip (splitlines (commas_to_lines emails)))

  abbrev created : Call → Result × Db → Outcome × Db
  created c (group g, db) =
      (redirect none, log_audit (audit c "notification_group.create" g.name none) db)
  created c (nothing, db) = (failed 400, db)
  created c (value_error, db) = (failed 400, db)

  unfoldable pub notification_group_create :
      String → String → String → String → Call → Db → Outcome × Db
  unfolding create_notification_group log_audit select_where
  notification_group_create group_id name description emails c db = created c (
      create_notification_group strip lower nocase group_id c.now name (email_list emails)
        description db)

  -- The HTTPException of a group that there is not is caught as any other exception.
  abbrev edited : Call → Result × Db → Outcome × Db
  edited c (group g, db) =
      (redirect none, log_audit (audit c "notification_group.update" g.name none) db)
  edited c (nothing, db) = (failed 400, db)
  edited c (value_error, db) = (failed 400, db)

  unfoldable pub notification_group_edit :
      String → String → String → String → Call → Db → Outcome × Db
  unfolding update_notification_group log_audit select_where
  notification_group_edit group_id name description emails c db = edited c (
      update_notification_group strip lower nocase group_id c.now
        (record {
          name = some name;
          emails = some (email_list emails);
          description = some description;
        })
        db)

abbrev deleted : String → Call → Db → Option NotificationGroup → Db
deleted group_id c db none = db
deleted group_id c db (some existing) =
    log_audit (audit c "notification_group.delete" existing.name none)
      (delete_notification_group group_id db).1

unfoldable pub notification_group_delete : String → Call → Db → Outcome × Db
unfolding get_notification_group delete_notification_group log_audit
notification_group_delete group_id c db =
    (redirect none, deleted group_id c db (get_notification_group db group_id))
