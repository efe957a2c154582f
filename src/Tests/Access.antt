-- ===== src/Tests/Access.antt =====
-- Runs of the authentication and of the registration of workers.
use testharness.Prelude.{
  ℕ, String, ◌≡◌, ◌⊎◌, refl, none, some, List, [], ◌∷◌, true, false, Option, select_one,
  select_where, update_where, count_where, order_by, insert_by, starts_with,
}
use testharness.Db.{Db, User, ApiKey, scopes}
use testharness.Db.Accounts.{get_user_by_id, get_api_key_by_id}
use testharness.Db.RunnerJobs.{
  assign, claim_runner_jobs, claim_candidates, claim_each, is_claimable,
}
use testharness.Db.Runners.{get_runner_by_name, check_runner_binding}
use testharness.VersionSkew.{pos}
use testharness.Web.RunnerApi.{ok, http_error}
use testharness.Web.Auth.{
  Payload, items, text, int, Request, Identity, load_session_claims, api_key_value,
  get_current_user, in_list, worker_roles, scope_grants, require_scope, require_worker, key_usable,
}
use testharness.Web.Auth.Sessions.{ByCookie, ByKey, get_current_user_lem}
use testharness.Web.Auth.Keys.{require_worker_lem}
use testharness.Web.Registration.{RegisterRequest, jobs, long_poll}
use testharness.Web.Login.{logout}
use testharness.Web.Login.Logout.{logout-revokes}
use testharness.Tests.{sample, waiting_first}

abbrev pub ann : User
ann = record {
  id = "u1";
  username = "ann";
  display_name = none;
  email = none;
  password_hash = some "p1";
  role = "admin";
  auth_provider = "local";
  role_override = false;
  is_active = true;
  created_at = 0;
  last_login_at = none;
  oauth_provider_id = none;
  failed_login_count = 9;
  locked_until = none;
  session_version = 4;
}

abbrev pub anns_key : ApiKey
anns_key = record {
  id = "k1";
  user_id = "u1";
  name = "laptop";
  key_prefix = "abcdefgh";
  key_hash = "h1";
  expires_at = none;
  created_at = 0;
  last_used_at = none;
  is_active = true;
  scope = some (scopes ("worker:pull" ∷ []));
}

abbrev pub staffed : Db
staffed = record sample { users = ann ∷ []; api_keys = anns_key ∷ [] }

abbrev pub loads : String → ℕ → Option Payload
loads token age = some (items (text "u1" ∷ int (pos 4) ∷ []))

abbrev pub sha256 : String → String
sha256 value = "h1"

abbrev pub by_cookie : Request
by_cookie = record { path = "/api/runs"; authorization = ""; x_api_key = none; session = "signed" }

pub accepted :
    (get_current_user loads sha256 8 by_cookie staffed 50).0
    ≡ ok (record { user = ann; api_key = none })
unfolding get_current_user api_key_value load_session_claims starts_with get_user_by_id select_one
accepted = refl

get_current_user_example :
    ((api_key_value by_cookie ≡ none)
      × ByCookie staffed
          (load_session_claims loads 8 "signed")
          (record { user = ann; api_key = none }))
    ⊎ ByKey sha256 staffed 50 (api_key_value by_cookie) (record { user = ann; api_key = none })
get_current_user_example =
    get_current_user_lem loads sha256 8 by_cookie staffed 50 (record { user = ann; api_key = none })
      accepted

logout-revokes_example :
    (get_current_user loads sha256 8 by_cookie
      (logout (load_session_claims loads 8 "signed") staffed)
      60).0
    ≡ http_error 401
unfolding starts_with
logout-revokes_example =
    logout-revokes loads sha256 8 by_cookie staffed 50 60 (record { user = ann; api_key = none })
      (unfold api_key_value in refl) accepted

abbrev anns_worker : Identity
anns_worker = record { user = ann; api_key = some anns_key }

require_worker_example :
    (anns_worker ≡ record { user = ann; api_key = some anns_key })
    × (in_list "admin" worker_roles ≡ true)
    × (scope_grants ("worker:pull" ∷ []) "worker:pull" ≡ true)
require_worker_example =
    require_worker_lem "worker:pull" anns_worker ann anns_key
      (unfold require_worker require_scope scope_grants in refl)

abbrev bob : User
bob = record ann { id = "u2"; username = "bob"; role = "runner" }

abbrev bobs_request : RegisterRequest
bobs_request = record { name = "w1"; tags = []; capabilities = []; version = none }

abbrev gpu : List String
gpu = "gpu" ∷ []

polled_once :
    (long_poll "w1" "k1" gpu 1 10 40 [] staffed 30).0
    ≡ ok (jobs (assign "w1" 30 waiting_first ∷ []))
unfolding long_poll key_usable get_api_key_by_id check_runner_binding get_runner_by_name select_one
    claim_runner_jobs claim_candidates claim_each select_where order_by insert_by is_claimable
    update_where count_where
polled_once = refl
