-- ===== src/Tests/SignIns.antt =====
-- Runs of the sign-in.
use testharness.Prelude.{
  ℕ, String, ◌=s=◌, ◌≡◌, refl, arith, true, false, none, some, [], ◌∷◌, select_one, select_where,
  order_by, insert_by, count_where, In, inl,
}
use testharness.Db.{Db, User, empty}
use testharness.Db.Accounts.{get_user_by_id}
use testharness.Db.Users.{
  LdapInfo, update_user, ldap_changes, without_hash, upsert_ldap_user, get_users_by_username_ci,
  preferred, get_user_by_username,
}
use testharness.RateLimit.{Limiter}
use testharness.Db.Users.Ldap.{upsert_ldap_user-keeps}
use testharness.Web.Github.{answer, unreachable, GithubConfig, Callback, github_oauth_callback}
use testharness.Web.Github.Accepted.{Fits, callback-Fits}
use testharness.Web.Login.{refused, Attempt, login_post}
use testharness.Web.Login.Lockout.{IsRefused, lockout}

abbrev bob : User
bob = record {
  id = "u2";
  username = "bob";
  display_name = none;
  email = none;
  password_hash = some "secret";
  role = "editor";
  auth_provider = "local";
  role_override = false;
  is_active = true;
  created_at = 0;
  last_login_at = none;
  oauth_provider_id = none;
  failed_login_count = 9;
  locked_until = none;
  session_version = 0;
}

abbrev bobs : Db
bobs = record empty { users = bob ∷ [] }

abbrev attempt : String → ℕ → Attempt
attempt password now = record {
  username = "bob";
  password = password;
  ip = "10.0.0.1";
  now = now;
  tick = now;
  ldap = none;
  new_user_id = "u3";
}

abbrev limiter : Limiter
limiter = record { max_events = 10; window = 300; max_keys = 100; events = [] }

-- The tables and the limiter after the tenth failure, at 50.
abbrev locked : Db
locked = record empty {
  users = record bob { failed_login_count = 10; locked_until = some 950 } ∷ [];
}

abbrev one_hit : Limiter
one_hit = record limiter { events = ("10.0.0.1", 50 ∷ []) ∷ [] }

tenth :
    login_post (λ p h. p =s= h) (λ a b. a =s= b) (λ s. s) (attempt "guess" 50) bobs limiter
    ≡ refused 401 locked one_hit
unfolding login_post
tenth = refl

-- The right password, too early.
lockout_example :
    IsRefused
      (login_post (λ p h. p =s= h) (λ a b. a =s= b) (λ s. s) (attempt "secret" 900) locked one_hit)
lockout_example =
    lockout (λ p h. p =s= h) (λ a b. a =s= b) (λ s. s) (attempt "guess" 50) (attempt "secret" 900)
      bobs locked limiter one_hit one_hit bob (unfold get_user_by_username select_one in refl) refl
      (omega arith) refl tenth refl refl (omega arith)

abbrev carol : User
carol = record bob { id = "u4"; username = "carol"; password_hash = none; auth_provider = "ldap" }

abbrev both : Db
both = record empty { users = bob ∷ carol ∷ [] }

abbrev carols_info : LdapInfo
carols_info = record { username = "carol"; display_name = "Carol"; email = none; role = "admin" }

abbrev signed_in_carol : Db
signed_in_carol = update_user "u4" (ldap_changes carols_info carol) both

upsert_ldap_user-keeps_example : In bob signed_in_carol.users
upsert_ldap_user-keeps_example =
    upsert_ldap_user-keeps (λ a b. a =s= b) (λ s. s) "u5" 60 carols_info both signed_in_carol
      (without_hash (get_user_by_id signed_in_carol "u4")) bob ((refl, tt), (tt, tt)) (inl refl)
      refl
      (unfold upsert_ldap_user get_users_by_username_ci select_where order_by insert_by count_where
          preferred in
        refl)

-- A GitHub account of the name github:dan, for which an account waits.
abbrev dan : User
dan = record bob {
  id = "u6";
  username = "github:dan";
  password_hash = none;
  auth_provider = "github";
}

abbrev callback : Callback
callback = record {
  stored_state = "s1";
  state = "s1";
  access_token = answer "token";
  github_user = answer (record { id = "77"; login = "dan"; display_name = "Dan"; email = none });
  in_orgs = unreachable;
  now = 60;
  new_user_id = "u7";
}

abbrev open_config : GithubConfig
open_config = record {
  allowed_users = "dan" ∷ [];
  allowed_orgs = [];
  auto_provision = false;
  default_role = "read_only";
}

callback-Fits_example :
    Fits
      (github_oauth_callback
        (λ a b. a =s= b)
        (λ s. s)
        (λ s. "github:dan")
        open_config
        callback
        (record empty { users = bob ∷ dan ∷ [] })).0
callback-Fits_example =
    callback-Fits (λ a b. a =s= b) (λ s. s) (λ s. "github:dan") open_config callback
      (record empty { users = bob ∷ dan ∷ [] })
