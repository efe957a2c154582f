-- ===== src/Web/SecretsPages.antt =====
-- web/routes/secrets.py: how secrets are stored and deleted through the pages. `strip` and `upper` of Python's
-- texts and the cipher are arguments. The list of the variables in the app files and `reload_apps` are left out;
-- the secrets store is there from the start of the server on.
use testharness.Prelude.{String, ◌=s=◌, Option, none, some, if◌then◌else◌}
use testharness.Db.{Db}
use testharness.Db.Audit.{log_audit}
use testharness.Db.Secrets.{set, delete_secret}
use testharness.Web.Users.{Call, Outcome, redirect, failed, audit, or_none}

module _ (strip : String → String) (upper : String → String) (encrypt : String → String)
    (decrypt : String → Option String) where
  abbrev pub secret_name : String → String
  secret_name name = upper (strip name)

  -- `id` is a new uuid.
  unfoldable pub secrets_create : String → String → String → String → Call → Db → Outcome × Db
  unfolding set log_audit
  secrets_create id name value description c db =
      if secret_name name =s= "" then (failed 422, db) else (
        redirect none,
        log_audit (audit c "secret.upsert" (secret_name name) none) (
            set encrypt decrypt id c.now (secret_name name) value (or_none (strip description))
              (some c.acting.user.id) db),
      )

unfoldable pub secrets_delete : String → Call → Db → Outcome × Db
unfolding delete_secret log_audit
secrets_delete name c db =
    (redirect none, log_audit (audit c "secret.delete" name none) (delete_secret name db))
