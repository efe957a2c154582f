-- ===== src/Web/Login.antt =====
-- Sign-in: `verify_local_password` of harness/auth_manager.py, and `setup_post`, `login_post` and `logout` of
-- web/routes/auth.py. The check of a password against its hash, the answer of the directory, and `strip` and
-- the length of a text are arguments. `tick` is the clock of the limiters.
pub mod Lockout
pub mod Logout
use testharness.Prelude.{
  ℕ, suc, ◌+◌, String, ◌=s=◌, Bool, true, false, not, ◌&&◌, ◌||◌, Option, none, some, List, [], ◌∷◌,
  ltb, leb, ◌==◌, if◌then◌else◌,
}
use testharness.Db.{Db, User}
use testharness.Db.Accounts.{get_user_by_id, bump_session_version}
use testharness.Db.Users.{
  get_user_by_username, increment_failed_login, reset_failed_login, update_user_last_login,
  LdapInfo, upsert_ldap_user, count_users, insert_user,
}
use testharness.RateLimit.{Limiter, is_limited, hit}
use testharness.VersionSkew.{ℤ}
use testharness.Web.Auth.{same_version}

abbrev pub has_hash : Option String → Bool
has_hash none = false
has_hash (some hash) = not (hash =s= "")

abbrev pub hash_of : Option String → String
hash_of none = ""
hash_of (some hash) = hash

abbrev pub is_local : User → Bool
is_local user = user.auth_provider =s= "local"

unfoldable pub eligible : User → Bool
eligible user = is_local user && (user.is_active && has_hash user.password_hash)

-- locked_until and datetime.fromisoformat(locked_until) > now
abbrev pub is_locked : ℕ → Option ℕ → Bool
is_locked now none = false
is_locked now (some locked_until) = ltb now locked_until

-- `checkpw` tells whether a password has a hash.
abbrev pub verify_row : (String → String → Bool) → String → ℕ → Option User → Option User
verify_row checkpw password now none = none
verify_row checkpw password now (some user) =
    if eligible user
      && (not (is_locked now user.locked_until) && checkpw password (hash_of user.password_hash))
    then some user
    else none

unfoldable pub verify_local_password :
    (String → String → Bool) → String → String → Db → ℕ → Option User
unfolding get_user_by_username eligible
verify_local_password checkpw username password db now =
    verify_row checkpw password now (get_user_by_username db username)

-- Ten failures lock an account for 15 minutes, from the last failure on.
unfoldable pub lock_until : User → ℕ → Option ℕ
lock_until raw_user now =
    if leb 10 (raw_user.failed_login_count + 1) then some (now + 900) else none

abbrev track_failure : Option User → ℕ → Db → Db
track_failure none now db = db
track_failure (some raw_user) now db =
    if is_local raw_user
    then increment_failed_login raw_user.id (lock_until raw_user now) db
    else db

-- The failed attempt tracking of `login_post`.
unfoldable pub track : Option User → String → ℕ → Db → Db
unfolding increment_failed_login reset_failed_login get_user_by_username lock_until
track none username now db = track_failure (get_user_by_username db username) now db
track (some user) username now db = reset_failed_login user.id db

-- How a sign-in ends: with a session for a user, with a status, or with an exception.
pub data SignIn : Type 0 where
  signed_in : User → Db → Limiter → SignIn
  refused : ℕ → Db → Limiter → SignIn
  raised : SignIn

abbrev refuse : Db → Option Limiter → SignIn
refuse db none = raised
refuse db (some limiter) = refused 401 db limiter

-- What the request and the directory bring. `ldap` is the account that the directory confirms; there is none
-- where LDAP is not enabled.
pub record Attempt : Type 0 where
  pub username : String
  pub password : String
  pub ip : String
  pub now : ℕ
  pub tick : ℕ
  pub ldap : Option LdapInfo
  pub new_user_id : String

module _ (checkpw : String → String → Bool) (nocase : String → String → Bool)
    (lower : String → String) where
  -- The user of the directory, if he is active.
  abbrev ldap_user : Option (Option User × Db) → Option (Option User × Db)
  ldap_user none = none
  ldap_user (some (none, db)) = some (none, db)
  ldap_user (some (some user, db)) = some (if user.is_active then some user else none, db)

  abbrev by_ldap : Attempt → Db → Option LdapInfo → Option (Option User × Db)
  by_ldap a db none = some (none, db)
  by_ldap a db (some info) = ldap_user (upsert_ldap_user nocase lower a.new_user_id a.now info db)

  -- Who signs in, behind the tracking of the local password.
  unfoldable pub identify : Attempt → Option User → Db → Option (Option User × Db)
  unfolding upsert_ldap_user
  identify a (some user) db = some (some user, db)
  identify a none db = by_ldap a db a.ldap

  abbrev pub finish : Attempt → Limiter → Option (Option User × Db) → SignIn
  finish a limiter none = raised
  finish a limiter (some (none, db)) = refuse db (hit a.ip a.tick limiter)
  finish a limiter (some (some user, db)) =
      signed_in user (update_user_last_login user.id a.now db) limiter

  unfoldable pub login_post : Attempt → Db → Limiter → SignIn
  unfolding verify_local_password track identify is_limited hit update_user_last_login
  login_post a db limiter =
      let (limited, pruned) = is_limited a.ip a.tick limiter in
      let user = verify_local_password checkpw a.username a.password db a.now in
      let done = finish a pruned (identify a user (track user a.username a.now db)) in
      if limited then refused 429 db pruned else done

-- `claims` are those of the cookie.
abbrev pub logout_user : ℤ → Option User → Db → Db
logout_user version none db = db
logout_user version (some user) db =
    if same_version version user.session_version then bump_session_version user.id db else db

unfoldable pub logout : Option (String × ℤ) → Db → Db
unfolding bump_session_version get_user_by_id
logout none db = db
logout (some (user_id, version)) db = logout_user version (get_user_by_id db user_id) db

-- The form of the first sign-in, the id of the new user, a new uuid, and the hash of the password.
pub record Setup : Type 0 where
  pub username : String
  pub password : String
  pub confirm : String
  pub display_name : String
  pub setup_token : String
  pub ip : String
  pub now : ℕ
  pub tick : ℕ
  pub new_user_id : String
  pub password_hash : String

module _ (strip : String → String) (len : String → ℕ) (min_password_length : ℕ)
    (expected_token : String) where
  unfoldable pub first_admin : Setup → User
  first_admin s = record {
    id = s.new_user_id;
    username = strip s.username;
    display_name =
        some (if strip s.display_name =s= "" then strip s.username else strip s.display_name);
    email = none;
    password_hash = some s.password_hash;
    role = "admin";
    auth_provider = "local";
    role_override = false;
    is_active = true;
    created_at = s.now;
    last_login_at = none;
    oauth_provider_id = none;
    failed_login_count = 0;
    locked_until = none;
    session_version = 0;
  }

  abbrev created : Setup → Limiter → Option Db → SignIn
  created s limiter none = raised
  created s limiter (some db) =
      let updated = update_user_last_login s.new_user_id s.now db in
      elim (get_user_by_id updated s.new_user_id) [
        | none ↦ raised
        | some user ↦ signed_in user updated limiter
      ]

  abbrev checked : Setup → Db → Option Limiter → SignIn
  checked s db none = raised
  checked s db (some limiter) =
      if not (strip s.setup_token =s= expected_token)
      then refused 403 db limiter
      else if not (s.password =s= s.confirm) || ltb (len s.password) min_password_length
      then refused 422 db limiter
      else created s limiter (insert_user db (first_admin s))

  unfoldable pub setup_post : Setup → Db → Limiter → SignIn
  unfolding count_users is_limited hit insert_user first_admin update_user_last_login get_user_by_id
  setup_post s db limiter =
      let (limited, pruned) = is_limited s.ip s.tick limiter in
      if not (count_users db == 0)
      then refused 404 db limiter
      else if limited
      then refused 429 db pruned
      else checked s db (hit s.ip s.tick pruned)
