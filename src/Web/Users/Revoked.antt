-- ===== src/Web/Users/Revoked.antt =====
-- What the changes and deletions of web/routes/users.py do to sessions and keys of web/auth.py.
use testharness.Prelude.{
  ℕ, String, ◌=s=◌, eq_iff, ◌≡◌, ◌≢◌, ◌⊎◌, refl, sym, ap, subst, ◌∙◌, inl, inr, true, false, Option,
  none, some, arith, Bool-cases, Option-cases, map_option, count_where, ◌==◌, In,
  select_one-update_key, In-delete_where,
}
use testharness.Db.{Db, User, AuditEntry}
use testharness.Db.Accounts.{user_has_id, get_user_by_id, bump_session_version}
use testharness.Db.Audit.{log_audit, entry_has_id}
use testharness.Db.Users.{UserChanges, with_changes, update_user, delete_user}
use testharness.Web.RunnerApi.{ok, http_error}
use testharness.Web.Auth.{
  Payload, Request, Identity, not_authed_status, api_key_value, get_current_user,
}
use testharness.Web.Auth.Sessions.{
  user_id_of, bumped_version, cookie_user, outdated-refused, accepted-active, accepted_row,
}
use testharness.Web.Users.{
  UserForm, Call, audit, changes_text, Outcome, redirect, failed, revokes, form_error, form_changes,
  updated, update_found, users_update, users_delete,
}

pub log_audit-users : (e : AuditEntry) (db : Db) → (log_audit e db).users ≡ db.users
unfolding log_audit
log_audit-users e db = elim (Bool-cases (count_where (entry_has_id e.id) db.audit_log == 0)) [
  | inl f ↦ rw f refl
  | inr f ↦ rw f refl
]

get_user-log_audit :
    (e : AuditEntry) (db : Db) (user_id : String)
    → get_user_by_id (log_audit e db) user_id ≡ get_user_by_id db user_id
unfolding get_user_by_id
get_user-log_audit e db user_id = rw (log_audit-users e db) refl

get_user-update_user :
    (user_id : String) (c : UserChanges) (db : Db)
    → get_user_by_id (update_user user_id c db) user_id
      ≡ map_option (with_changes c) (get_user_by_id db user_id)
unfolding get_user_by_id update_user
get_user-update_user user_id c db =
    select_one-update_key user_id_of user_id (with_changes c) db.users (λ r. refl)

-- A new password, another role, or a deactivation.
abbrev pub IsWithdrawal : UserForm → User → Type 0
IsWithdrawal form u =
    ((form.password =s= "") ≡ false) ⊎ (((u.role =s= form.role) ≡ false) ⊎ (form.is_active ≡ false))

IsWithdrawal-revokes :
    (form : UserForm) (u : User) → u.is_active ≡ true → IsWithdrawal form u → revokes form u ≡ true
unfolding revokes
IsWithdrawal-revokes form u active w = ground (arith, active, w)

module _ (strip : String → String) (len : String → ℕ) (hashpw : String → String) (min_length : ℕ)
    (loads : String → ℕ → Option Payload) (sha256 : String → String) (session_hours : ℕ) where
  updated_version :
      (user_id : String) (form : UserForm) (c : Call) (u v : User) (db : Db)
      → revokes form u ≡ true
      → get_user_by_id db user_id ≡ some u
      → get_user_by_id (updated strip len hashpw min_length user_id form c u db) user_id ≡ some v
      → u.session_version ≢ v.session_version
  unfolding updated
  updated_version user_id form c u v db r g h =
      let changes = form_changes strip len hashpw min_length form in
      let changed = update_user user_id changes db in
      let entry = audit c "user.update" u.username (some (changes_text form u)) in
      let shown : get_user_by_id (updated strip len hashpw min_length user_id form c u db) user_id
          ≡ get_user_by_id (bump_session_version user_id changed) user_id =
        rw r (get_user-log_audit entry (bump_session_version user_id changed) user_id) in
      bumped_version (update_user user_id changes db) user_id (with_changes changes u) v
        (get_user-update_user user_id changes db ∙ ap (map_option (with_changes changes)) g)
        (sym shown ∙ h)

  -- Once a change of an account that is accepted has set a password, another role or the account
  -- inactive, the cookies of the account that were accepted before, on requests without a key, are
  -- refused.
  pub users_update-revokes :
      (request : Request) (db : Db) (now later : ℕ) (who : Identity) (form : UserForm) (c : Call)
      (own : Request) (cookie : Option (String × ℕ))
      → api_key_value request ≡ none
      → (get_current_user loads sha256 session_hours request db now).0 ≡ ok who
      → (users_update strip len hashpw min_length who.user.id form c own db).0 ≡ redirect cookie
      → IsWithdrawal form who.user
      → (get_current_user loads sha256 session_hours request
          (users_update strip len hashpw min_length who.user.id form c own db).1
          later).0
        ≡ http_error (not_authed_status request)
  unfolding users_update
  users_update-revokes request db now later who form c own cookie no_key h done w =
      let r =
        IsWithdrawal-revokes form who.user
          (accepted-active loads sha256 session_hours request db now who h) w in
      let g = (cookie_user loads sha256 session_hours request db now who no_key h).1 in
      let found = ap (update_found strip len hashpw min_length who.user.id form c own db) g in
      ap (λ o. (get_current_user loads sha256 session_hours request o.1 later).0) found
      ∙ (elim (Bool-cases (form_error strip len hashpw min_length form)) [
        | inl f ↦
            let bad : failed 422 ≡ redirect cookie = sym (ap (λ o. o.0) found ∙ rw f refl) ∙ done in
            cc bad
        | inr f ↦ rw f (
            outdated-refused loads sha256 session_hours request db
              (updated strip len hashpw min_length who.user.id form c who.user db) now later who
              no_key h (λ u e. updated_version who.user.id form c who.user u db r g e))
      ])

  deleted_rows :
      (user_id : String) (c : Call) (db : Db) (cookie : Option (String × ℕ)) (u : User)
      → (users_delete user_id c db).0 ≡ redirect cookie
      → In u (users_delete user_id c db).1.users
      → u.id ≢ user_id
  unfolding users_delete delete_user
  deleted_rows user_id c db cookie u done m = elim (Bool-cases (user_id =s= c.acting.user.id)) [
    | inl own ↦ ground (arith, own, done)
    | inr other ↦ elim (Option-cases (get_user_by_id db user_id)) [
      | inl gone ↦
          let bad : failed 404 ≡ redirect cookie = sym (rw (other, gone) refl) ∙ done in cc bad
      | inr (t, found) ↦
          let entry = audit c "user.delete" t.username none in
          let same : users_delete user_id c db
              ≡ (redirect none, log_audit entry (delete_user user_id db)) =
            rw (other, found) refl in
          let rest : In u (delete_user user_id db).users =
            subst (In u)
              (ap (λ (d : Outcome × Db). d.1.users) same
                ∙ log_audit-users entry (delete_user user_id db))
              m in
          ground
            (arith, (In-delete_where u (user_has_id user_id) db.users rest).0, eq_iff u.id user_id)
    ]
  ]

  -- After a deletion of an account that succeeds nobody is accepted as this account, by a cookie or by a
  -- key.
  pub users_delete-locks_out :
      (user_id : String) (c : Call) (db : Db) (cookie : Option (String × ℕ)) (request : Request)
      (later : ℕ) (who : Identity)
      → (users_delete user_id c db).0 ≡ redirect cookie
      → (get_current_user loads sha256 session_hours request (users_delete user_id c db).1 later).0
        ≡ ok who
      → who.user.id ≢ user_id
  users_delete-locks_out user_id c db cookie request later who done h =
      deleted_rows user_id c db cookie who.user done
        (accepted_row loads sha256 session_hours request (users_delete user_id c db).1 later who h)
