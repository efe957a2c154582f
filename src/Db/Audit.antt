-- ===== src/Db/Audit.antt =====
-- harness/db/_audit.py: the audit log. Each entry gets a new uuid, here `entry_id`; an entry that SQLite
-- refuses (an id that is taken) is dropped silently, as in the source.
use testharness.Prelude.{
  ℕ, String, ◌=s=◌, Bool, true, ◌&&◌, Option, none, some, List, [], ◌∷◌, ◌++◌, ◌==◌, if◌then◌else◌,
  take, column_is, select_where, count_where, order_desc,
}
use testharness.Db.{Db, AuditEntry}

abbrev pub entry_has_id : String → AuditEntry → Bool
entry_has_id entry_id e = e.id =s= entry_id

unfoldable pub log_audit : AuditEntry → Db → Db
unfolding count_where
log_audit entry db =
    if count_where (entry_has_id entry.id) db.audit_log == 0
    then record db { audit_log = db.audit_log ++ entry ∷ [] }
    else db

-- A filter that is not given, or empty, lets every row pass.
abbrev passes : Option String → Option String → Bool
passes none column = true
passes (some filter) column = if filter =s= "" then true else column_is column filter

unfoldable pub list_audit_log : Db → ℕ → Option String → Option String → List AuditEntry
unfolding select_where order_desc
list_audit_log db limit user_id action = take limit (
    order_desc (λ e. e.timestamp)
      (select_where (λ e. passes user_id e.user_id && passes action (some e.action)) db.audit_log))
