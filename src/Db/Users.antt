-- ===== src/Db/Users.antt =====
-- harness/db/_users.py: the rows of `users`. `nocase` tells whether two names are the same but for the case of
-- ASCII letters. Rows of one `created_at` stay in the order of the table.
pub mod Ldap
use testharness.Prelude.{
  kept_or, ℕ, suc, ◌+◌, String, ◌=s=◌, Bool, true, false, not, ◌&&◌, ◌||◌, Option, none, some, List,
  [], ◌∷◌, ◌++◌, ◌==◌, if◌then◌else◌, is_none, length, column_is, select_where, select_one,
  update_where, delete_where, count_where, order_by, order_by_name, map,
}
use testharness.Db.{Db, User}
use testharness.Db.Accounts.{user_has_id, get_user_by_id}

abbrev pub has_username : String → User → Bool
has_username username u = u.username =s= username

-- `none` is the IntegrityError of a second row with one id or username.
unfoldable pub insert_user : Db → User → Option Db
unfolding count_where
insert_user db user =
    if count_where (λ u. user_has_id user.id u || has_username user.username u) db.users == 0
    then some (record db { users = db.users ++ user ∷ [] })
    else none

unfoldable pub get_user_by_oauth_provider_id : Db → String → String → Option User
unfolding select_one
get_user_by_oauth_provider_id db provider provider_id =
    select_one (λ u. u.auth_provider =s= provider && column_is u.oauth_provider_id provider_id)
      db.users

-- Whether a row changed.
unfoldable pub set_user_oauth_provider_id : String → String → Db → Bool × Db
unfolding update_where count_where
set_user_oauth_provider_id user_id provider_id db =
    let free = λ (u : User). user_has_id user_id u && is_none u.oauth_provider_id in
    (
      count_where free db.users == 1,
      record db {
        users = update_where free (λ u. record u { oauth_provider_id = some provider_id }) db.users;
      },
    )

unfoldable pub get_user_by_username : Db → String → Option User
unfolding select_one
get_user_by_username db username = select_one (has_username username) db.users

unfoldable pub get_users_by_username_ci : (String → String → Bool) → Db → String → List User
unfolding select_where order_by
get_users_by_username_ci nocase db username =
    order_by (λ u. u.created_at) (select_where (λ u. nocase u.username username) db.users)

unfoldable pub count_users : Db → ℕ
count_users db = length db.users

-- The columns that are listed: no hash of the password, and none of the columns behind `last_login_at`.
pub record UserInfo : Type 0 where
  pub id : String
  pub username : String
  pub display_name : Option String
  pub email : Option String
  pub role : String
  pub auth_provider : String
  pub role_override : Bool
  pub is_active : Bool
  pub created_at : ℕ
  pub last_login_at : Option ℕ

abbrev info_of : User → UserInfo
info_of u = record {
  id = u.id;
  username = u.username;
  display_name = u.display_name;
  email = u.email;
  role = u.role;
  auth_provider = u.auth_provider;
  role_override = u.role_override;
  is_active = u.is_active;
  created_at = u.created_at;
  last_login_at = u.last_login_at;
}

unfoldable pub list_users : Db → List UserInfo
unfolding order_by_name
list_users db = map info_of (order_by_name (λ u. u.username) db.users)

abbrev pub update_users : String → (User → User) → Db → Db
update_users user_id f db = record db { users = update_where (user_has_id user_id) f db.users }

-- The accepted keys of `update_user`.
pub record UserChanges : Type 0 where
  pub display_name : Option (Option String)
  pub email : Option (Option String)
  pub role : Option String
  pub role_override : Option Bool
  pub is_active : Option Bool
  pub password_hash : Option (Option String)

abbrev pub with_changes : UserChanges → User → User
with_changes c u = record u {
  display_name = kept_or c.display_name u.display_name;
  email = kept_or c.email u.email;
  role = kept_or c.role u.role;
  role_override = kept_or c.role_override u.role_override;
  is_active = kept_or c.is_active u.is_active;
  password_hash = kept_or c.password_hash u.password_hash;
}

unfoldable pub update_user : String → UserChanges → Db → Db
unfolding update_where
update_user user_id c db = update_users user_id (with_changes c) db

unfoldable pub update_user_last_login : String → ℕ → Db → Db
unfolding update_where
update_user_last_login user_id timestamp db =
    update_users user_id (λ u. record u { last_login_at = some timestamp }) db

unfoldable pub delete_user : String → Db → Db
unfolding delete_where
delete_user user_id db = record db { users = delete_where (user_has_id user_id) db.users }

unfoldable pub increment_failed_login : String → Option ℕ → Db → Db
unfolding update_where
increment_failed_login user_id lock_until db =
    update_users user_id
      (λ u. record u { failed_login_count = u.failed_login_count + 1; locked_until = lock_until })
      db

unfoldable pub reset_failed_login : String → Db → Db
unfolding update_where
reset_failed_login user_id db =
    update_users user_id (λ u. record u { failed_login_count = 0; locked_until = none }) db

-- An account of the directory.
pub record LdapInfo : Type 0 where
  pub username : String
  pub display_name : String
  pub email : Option String
  pub role : String

unfoldable pub new_ldap_user : (String → String) → String → ℕ → LdapInfo → User
new_ldap_user lower user_id now info = record {
  id = user_id;
  username = lower info.username;
  display_name = some info.display_name;
  email = info.email;
  password_hash = none;
  role = info.role;
  auth_provider = "ldap";
  role_override = false;
  is_active = true;
  created_at = now;
  last_login_at = none;
  oauth_provider_id = none;
  failed_login_count = 0;
  locked_until = none;
  session_version = 0;
}

abbrev pub is_foreign : User → Bool
is_foreign u = not (u.auth_provider =s= "ldap")

-- The row with the name as it is spelt, else the oldest one.
unfoldable pub preferred : String → User → List User → User
preferred username oldest [] = oldest
preferred username oldest (u ∷ rows) =
    let rest = preferred username oldest rows in if has_username username u then u else rest

abbrev pub ldap_changes : LdapInfo → User → UserChanges
ldap_changes info existing = record {
  display_name = some (some info.display_name);
  email = some info.email;
  role = if existing.role_override then none else some info.role;
  role_override = none;
  is_active = none;
  password_hash = none;
}

-- The user, without the hash of the password, and the tables; no user where the name belongs to an account of
-- another provider, and nothing at all for the IntegrityError of a new row.
abbrev pub without_hash : Option User → Option User
without_hash none = none
without_hash (some u) = some (record u { password_hash = none })

abbrev pub inserted : String → Option Db → Option (Option User × Db)
inserted user_id none = none
inserted user_id (some db) = some (without_hash (get_user_by_id db user_id), db)

abbrev pub upsert_matching :
    (String → String) → String → ℕ → LdapInfo → Db → List User → Option (Option User × Db)
upsert_matching lower user_id now info db [] =
    inserted user_id (insert_user db (new_ldap_user lower user_id now info))
upsert_matching lower user_id now info db (u ∷ rows) =
    let existing = preferred info.username u (u ∷ rows) in
    let updated = update_user existing.id (ldap_changes info existing) db in
    some (without_hash (get_user_by_id updated existing.id), updated)

-- A new row gets the id `user_id`, a new uuid.
unfoldable pub upsert_ldap_user :
    (String → String → Bool)
    → (String → String)
    → String
    → ℕ
    → LdapInfo
    → Db
    → Option (Option User × Db)
unfolding get_users_by_username_ci insert_user new_ldap_user preferred update_user count_where
    get_user_by_id
upsert_ldap_user nocase lower user_id now info db =
    let matches = get_users_by_username_ci nocase db info.username in
    if count_where is_foreign matches == 0
    then upsert_matching lower user_id now info db matches
    else some (none, db)
