-- ===== src/Web/Users.antt =====
-- web/routes/users.py: how an admin creates, changes and deletes accounts. `strip` and `len` of Python's texts,
-- the hash of a new password (bcrypt's `hashpw`, with its salt) and `min_password_length` are arguments. The
-- forms' numbers `role_override` and `is_active` are Booleans, and the pages that a request shows are left out.
pub mod Revoked
use testharness.Prelude.{
  ℕ, String, ◌=s=◌, Bool, true, false, not, ◌&&◌, ◌||◌, Option, none, some, List, [], ◌∷◌, ◌++◌,
  if◌then◌else◌, is_none, ltb,
}
use testharness.Db.{Db, User, ApiKey, AuditEntry}
use testharness.Db.Accounts.{get_user_by_id, bump_session_version}
use testharness.Db.Audit.{log_audit}
use testharness.Db.Users.{UserChanges, insert_user, get_user_by_username, update_user, delete_user}
use testharness.Web.Auth.{Identity, Request, in_list}

abbrev pub valid_roles : List String
valid_roles = "admin" ∷ "runner" ∷ "reporting" ∷ "read_only" ∷ []

-- The redirect to the list, with the session cookie that it sets (a user id and a session version), the form
-- again or an HTTPException with its status, or an exception.
pub data Outcome : Type 0 where
  redirect : Option (String × ℕ) → Outcome
  failed : ℕ → Outcome
  raised : Outcome

-- What a call brings beside its form: the acting user, a new uuid for the audit entry, and the time.
pub record Call : Type 0 where
  pub acting : Identity
  pub audit_id : String
  pub now : ℕ

abbrev pub audit : Call → String → String → Option (List String) → AuditEntry
audit c action target details = record {
  id = c.audit_id;
  timestamp = c.now;
  user_id = some c.acting.user.id;
  username = some c.acting.user.username;
  action = action;
  target = some target;
  details = details;
}

pub record NewUser : Type 0 where
  pub username : String
  pub display_name : String
  pub email : String
  pub role : String
  pub password : String
  pub new_id : String

pub record UserForm : Type 0 where
  pub display_name : String
  pub email : String
  pub role : String
  pub role_override : Bool
  pub is_active : Bool
  pub password : String

abbrev pub is_given : String → Bool
is_given text = not (text =s= "")

-- text or None
abbrev pub or_none : String → Option String
or_none text = if text =s= "" then none else some text

abbrev bit : Bool → String
bit true = "1"
bit false = "0"

abbrev same_bit : Bool → Bool → Bool
same_bit true b = b
same_bit false b = not b

-- The password of a changed account, or the change of its role, or its deactivation.
unfoldable pub revokes : UserForm → User → Bool
revokes form target_user =
    is_given form.password
    || (not (target_user.role =s= form.role) || (target_user.is_active && not form.is_active))

abbrev separated : List String → List String → List String
separated part [] = part
separated [] (t ∷ ts) = t ∷ ts
separated (s ∷ part) (t ∷ ts) = s ∷ part ++ "; " ∷ t ∷ ts

-- The parts of the text of `details`.
unfoldable pub changes_text : UserForm → User → List String
changes_text form target_user =
    let roles =
      if target_user.role =s= form.role
      then []
      else "role: " ∷ target_user.role ∷ " -> " ∷ form.role ∷ [] in
    let reset = if is_given form.password then "password reset" ∷ [] else [] in
    let actives =
      if same_bit target_user.is_active form.is_active
      then []
      else "is_active: " ∷ bit target_user.is_active ∷ " -> " ∷ bit form.is_active ∷ [] in
    or_nothing (separated roles (separated reset actives))
  where
    or_nothing : List String → List String
    or_nothing [] = "no role/auth changes" ∷ []
    or_nothing (t ∷ ts) = t ∷ ts

-- The cookie of `issue_session_cookie`, whose token carries the id and the session version.
abbrev pub issue_session_cookie : User → String × ℕ
issue_session_cookie user = (user.id, user.session_version)

abbrev refreshed : Option User → Option (String × ℕ)
refreshed none = none
refreshed (some user) = if user.is_active then some (issue_session_cookie user) else none

-- An admin who changes his own account by a session gets a new cookie.
unfoldable pub own_cookie : Bool → String → Identity → Request → Db → Option (String × ℕ)
unfolding get_user_by_id
own_cookie revoke user_id acting request db =
    if revoke
      && (user_id =s= acting.user.id && (is_none acting.api_key && is_given request.session))
    then refreshed (get_user_by_id db user_id)
    else none

module _ (strip : String → String) (len : String → ℕ) (hashpw : String → String)
    (min_password_length : ℕ) where
  unfoldable pub new_user : NewUser → ℕ → User
  new_user form now = record {
    id = form.new_id;
    username = strip form.username;
    display_name = some (
        if is_given (strip form.display_name)
        then strip form.display_name
        else strip form.username);
    email = or_none (strip form.email);
    password_hash = some (hashpw form.password);
    role = form.role;
    auth_provider = "local";
    role_override = false;
    is_active = true;
    created_at = now;
    last_login_at = none;
    oauth_provider_id = none;
    failed_login_count = 0;
    locked_until = none;
    session_version = 0;
  }

  abbrev created : NewUser → Call → Db → Option Db → Outcome × Db
  created form c db none = (raised, db)
  created form c db (some db') = (
    redirect none,
    log_audit (audit c "user.create" (strip form.username) (some ("role=" ∷ form.role ∷ []))) db',
  )

  unfoldable pub users_create : NewUser → Call → Db → Outcome × Db
  unfolding get_user_by_username insert_user new_user log_audit
  users_create form c db =
      if strip form.username =s= ""
      then (failed 422, db)
      else if not (is_none (get_user_by_username db (strip form.username)))
      then (failed 409, db)
      else if not (in_list form.role valid_roles) || form.password =s= ""
      then (failed 422, db)
      else if ltb (len form.password) min_password_length
      then (failed 422, db)
      else created form c db (insert_user db (new_user form c.now))

  unfoldable pub form_changes : UserForm → UserChanges
  form_changes form = record {
    display_name = some (some (strip form.display_name));
    email = some (or_none (strip form.email));
    role = some form.role;
    role_override = some form.role_override;
    is_active = some form.is_active;
    password_hash = if is_given form.password then some (some (hashpw form.password)) else none;
  }

  abbrev pub bumped_if : Bool → String → Db → Db
  bumped_if revoke user_id db = if revoke then bump_session_version user_id db else db

  -- The tables behind an update that is accepted.
  unfoldable pub updated : String → UserForm → Call → User → Db → Db
  unfolding update_user form_changes bump_session_version log_audit revokes changes_text
  updated user_id form c target_user db =
      log_audit (audit c "user.update" target_user.username (some (changes_text form target_user)))
        (bumped_if (revokes form target_user) user_id (update_user user_id (form_changes form) db))

  abbrev pub form_error : UserForm → Bool
  form_error form =
      not (in_list form.role valid_roles)
      || (is_given form.password && ltb (len form.password) min_password_length)

  abbrev pub update_found : String → UserForm → Call → Request → Db → Option User → Outcome × Db
  update_found user_id form c request db none = (failed 404, db)
  update_found user_id form c request db (some target_user) =
      let db' = updated user_id form c target_user db in
      if form_error form
      then (failed 422, db)
      else (redirect (own_cookie (revokes form target_user) user_id c.acting request db'), db')

  unfoldable pub users_update : String → UserForm → Call → Request → Db → Outcome × Db
  unfolding get_user_by_id updated own_cookie
  users_update user_id form c request db =
      update_found user_id form c request db (get_user_by_id db user_id)

abbrev pub delete_found : String → Call → Db → Option User → Outcome × Db
delete_found user_id c db none = (failed 404, db)
delete_found user_id c db (some target_user) = (
  redirect none,
  log_audit (audit c "user.delete" target_user.username none) (delete_user user_id db),
)

unfoldable pub users_delete : String → Call → Db → Outcome × Db
unfolding get_user_by_id delete_user log_audit
users_delete user_id c db =
    if user_id =s= c.acting.user.id
    then (failed 400, db)
    else delete_found user_id c db (get_user_by_id db user_id)
