-- ===== src/Web/Github.antt =====
-- `github_oauth_callback` of web/routes/auth.py. The answers of GitHub are arguments, and so are `lower` and
-- `username_of`, the name of the account for a login: github: and the login in lower case. An exception that is
-- not caught is a 500.
pub mod Accepted
use testharness.Prelude.{
  ℕ, String, ◌=s=◌, Bool, true, false, not, ◌&&◌, ◌||◌, Option, none, some, List, [], ◌∷◌,
  if◌then◌else◌, is_none,
}
use testharness.Db.{Db, User}
use testharness.Db.Users.{
  get_user_by_oauth_provider_id, get_users_by_username_ci, set_user_oauth_provider_id,
  update_user_last_login, insert_user,
}
use testharness.Web.RunnerApi.{Reply, ok, http_error}
use testharness.Web.Auth.{in_list}

-- An answer of GitHub: none where it cannot be reached, and one that is not as expected.
pub data Answer (A : Type 0) : Type 0 where
  unreachable invalid : Answer A
  answer : A → Answer A

-- The account on GitHub.
pub record GithubUser : Type 0 where
  pub id : String
  pub login : String
  pub display_name : String
  pub email : Option String

-- The names of users and organisations are in lower case.
pub record GithubConfig : Type 0 where
  pub allowed_users : List String
  pub allowed_orgs : List String
  pub auto_provision : Bool
  pub default_role : String

pub record Callback : Type 0 where
  pub stored_state : String
  pub state : String
  pub access_token : Answer String
  pub github_user : Answer GithubUser
  pub in_orgs : Answer Bool
  pub now : ℕ
  pub new_user_id : String

abbrev is_empty : List String → Bool
is_empty [] = true
is_empty (s ∷ ss) = false

unfoldable pub allowlist_configured : GithubConfig → Bool
allowlist_configured cfg = not (is_empty cfg.allowed_users) || not (is_empty cfg.allowed_orgs)

module _ (nocase : String → String → Bool) (lower username_of : String → String)
    (cfg : GithubConfig) where
  abbrev member : Answer Bool → Reply Bool
  member unreachable = http_error 502
  member invalid = http_error 403
  member (answer true) = ok true
  member (answer false) = http_error 403

  -- The allowlist: whether it allows the login, or a refusal.
  unfoldable pub allowed : Callback → GithubUser → Reply Bool
  unfolding allowlist_configured
  allowed c github_user =
      if not (allowlist_configured cfg)
      then ok false
      else if in_list (lower github_user.login) cfg.allowed_users
      then ok true
      else if is_empty cfg.allowed_orgs
      then http_error 403
      else member c.in_orgs

  unfoldable pub new_github_user : Callback → GithubUser → User
  new_github_user c github_user = record {
    id = c.new_user_id;
    username = username_of github_user.login;
    display_name = some github_user.display_name;
    email = github_user.email;
    password_hash = none;
    role = cfg.default_role;
    auth_provider = "github";
    role_override = false;
    is_active = true;
    created_at = c.now;
    last_login_at = some c.now;
    oauth_provider_id = some github_user.id;
    failed_login_count = 0;
    locked_until = none;
    session_version = 0;
  }

  abbrev pub provisioned : User → Db → Option Db → Reply User × Db
  provisioned user db none = (http_error 500, db)
  provisioned user db (some db') = (ok user, db')

  -- An empty id counts as none.
  abbrev pub is_linked : Option String → Bool
  is_linked none = false
  is_linked (some id) = not (id =s= "")

  abbrev pub link : Callback → GithubUser → Db → User → Reply User × Db
  link c github_user db user =
      let (linked, db') = set_user_oauth_provider_id user.id github_user.id db in
      if linked then (ok user, update_user_last_login user.id c.now db') else (http_error 403, db')

  -- The accounts with the name, the oldest first: one that waits for its owner is linked.
  unfoldable pub by_username : Callback → GithubUser → Bool → Db → List User → Reply User × Db
  unfolding set_user_oauth_provider_id update_user_last_login insert_user new_github_user
  by_username c github_user is_allowed db [] =
      let user = new_github_user c github_user in
      if is_allowed || cfg.auto_provision
      then provisioned user db (insert_user db user)
      else (http_error 403, db)
  by_username c github_user is_allowed db (user ∷ []) =
      let linked = link c github_user db user in
      if not (user.auth_provider =s= "github")
        || (is_linked user.oauth_provider_id || not user.is_active)
      then (http_error 403, db)
      else linked
  by_username c github_user is_allowed db (user ∷ other ∷ users) = (http_error 403, db)

  abbrev pub by_id : Callback → GithubUser → Bool → Db → Option User → Reply User × Db
  by_id c github_user is_allowed db (some user) =
      if user.is_active
      then (ok user, update_user_last_login user.id c.now db)
      else (http_error 403, db)
  by_id c github_user is_allowed db none =
      by_username c github_user is_allowed db
        (get_users_by_username_ci nocase db (username_of github_user.login))

  abbrev pub sign_in : Callback → GithubUser → Db → Reply Bool → Reply User × Db
  sign_in c github_user db (http_error status) = (http_error status, db)
  sign_in c github_user db (ok is_allowed) =
      by_id c github_user is_allowed db (get_user_by_oauth_provider_id db "github" github_user.id)

  abbrev pub identified : Callback → Db → Answer GithubUser → Reply User × Db
  identified c db unreachable = (http_error 502, db)
  identified c db invalid = (http_error 400, db)
  identified c db (answer github_user) = sign_in c github_user db (allowed c github_user)

  abbrev pub exchanged : Callback → Db → Answer String → Reply User × Db
  exchanged c db unreachable = (http_error 502, db)
  exchanged c db invalid = (http_error 400, db)
  exchanged c db (answer token) =
      if token =s= "" then (http_error 400, db) else identified c db c.github_user

  unfoldable pub github_oauth_callback : Callback → Db → Reply User × Db
  unfolding allowed by_username get_user_by_oauth_provider_id get_users_by_username_ci
  github_oauth_callback c db =
      if c.stored_state =s= "" || not (c.stored_state =s= c.state)
      then (http_error 400, db)
      else exchanged c db c.access_token
