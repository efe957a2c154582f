-- ===== src/Tests/Admin.antt =====
-- Runs of the administration of users and of API keys.
use testharness.Prelude.{
  ℕ, ◌+◌, ◌*◌, ◌≤◌, String, ◌≡◌, ◌≢◌, ◌⊎◌, inl, inr, refl, none, some, [], ◌∷◌, true, false,
  select_one, select_where, update_where, delete_where, count_where, starts_with, arith, In,
}
use testharness.Db.{Db, User, ApiKey, scopes}
use testharness.Db.Accounts.{get_user_by_id, get_api_key_by_prefix, insert_api_key, revoke_api_key}
use testharness.Db.Audit.{log_audit}
use testharness.Db.Users.{delete_user}
use testharness.Web.RunnerApi.{ok, http_error}
use testharness.Web.Auth.{
  Request, Identity, api_key_value, get_current_user, in_list, scope_grants, match_key,
  load_session_claims,
}
use testharness.Web.Users.{
  UserForm, Call, redirect, users_update, updated, own_cookie, users_delete,
}
use testharness.Web.Users.Revoked.{users_update-revokes, users_delete-locks_out}
use testharness.Web.ApiKeys.{
  known_scopes, may_grant, check_scope_grants, expiry_of, Fresh, parse_scope_input, new_key,
  api_keys_create, api_keys_revoke,
}
use testharness.Web.ApiKeys.Grants.{api_keys_create-Grants}
use testharness.Web.ApiKeys.Issued.{api_keys_create-accepted, api_keys_revoke-locks_out}
use testharness.Tests.Access.{ann, anns_key, staffed, loads, sha256, by_cookie, accepted}

abbrev root : User
root = record ann { id = "u0"; username = "root"; session_version = 0 }

abbrev anns : Identity
anns = record { user = ann; api_key = none }

abbrev call : Call
call = record { acting = record { user = root; api_key = none }; audit_id = "a1"; now = 50 }

abbrev demoted : UserForm
demoted = record {
  display_name = "Ann";
  email = "";
  role = "reporting";
  role_override = false;
  is_active = true;
  password = "";
}

abbrev same : String → String
same s = s

abbrev ten : String → ℕ
ten s = 10

users_update-revokes_example :
    (get_current_user loads sha256 8 by_cookie
      (users_update same ten same 8 "u1" demoted call by_cookie staffed).1
      60).0
    ≡ http_error 401
unfolding starts_with
users_update-revokes_example =
    users_update-revokes same ten same 8 loads sha256 8 by_cookie staffed 50 60 anns demoted call
      by_cookie none (unfold api_key_value in refl) accepted
      (unfold users_update updated own_cookie get_user_by_id select_one in refl) (inr (inl refl))

abbrev two_users : Db
two_users = record staffed { users = root ∷ ann ∷ [] }

abbrev by_key : Request
by_key = record {
  path = "/api/runs";
  authorization = "Bearer hth_abcdefgh1";
  x_api_key = none;
  session = "";
}

abbrev bobs_call : Call
bobs_call = record {
  acting = record { user = record ann { id = "u2"; role = "reporting" }; api_key = none };
  audit_id = "a2";
  now = 50;
}

users_delete-locks_out_example : ann.id ≢ root.id
users_delete-locks_out_example =
    users_delete-locks_out same ten same 8 loads sha256 8 "u0" (record call { acting = anns })
      two_users none by_cookie 60 anns (unfold users_delete get_user_by_id select_one in refl)
      (unfold users_delete get_user_by_id select_one get_current_user api_key_value
          load_session_claims starts_with delete_user delete_where log_audit count_where in
        refl)

abbrev fresh : Fresh
fresh = record { key_id = "k2"; plaintext = "hth_abcdefgh1" }

abbrev annas_call : Call
annas_call = record { acting = anns; audit_id = "a3"; now = 50 }

abbrev keyless : Db
keyless = record staffed { api_keys = [] }

in_time : (days : ℕ) → expiry_of "30" ≡ some (some days) → 60 ≤ 50 + days * 86400
unfolding expiry_of
in_time days h =
    let same_days : some 30 ≡ some days = cc h in
    let d : 30 ≡ days = cc same_days in omega (arith, d)

created : (api_keys_create same sha256 "laptop" "30" "" annas_call fresh keyless).0 ≡ redirect none
unfolding api_keys_create expiry_of parse_scope_input check_scope_grants may_grant insert_api_key
    count_where
created = refl

api_keys_create-accepted_example :
    (key : ApiKey) × (key.id ≡ "k2")
    × ((get_current_user loads sha256 8 by_key
          (api_keys_create same sha256 "laptop" "30" "" annas_call fresh keyless).1
          60).0
        ≡ ok (record { user = ann; api_key = some key }))
api_keys_create-accepted_example =
    api_keys_create-accepted loads sha256 8 same "laptop" "30" "" annas_call fresh keyless none
      by_key 60 ann created (unfold match_key get_api_key_by_prefix select_where select_one in refl)
      (unfold get_user_by_id select_one in refl) refl (unfold api_key_value starts_with in refl)
      in_time

abbrev bobs_key : ApiKey
bobs_key = record {
  id = "k2";
  user_id = "u2";
  name = "laptop";
  key_prefix = "abcdefgh";
  key_hash = "h1";
  expires_at = none;
  created_at = 50;
  last_used_at = none;
  is_active = true;
  scope = some (scopes ("read" ∷ []));
}

api_keys_create-Grants_example :
    In bobs_key []
    ⊎ ((bobs_key.user_id ≡ bobs_call.acting.user.id)
        × ((s : String)
            → In s ("read" ∷ [])
            → (in_list s known_scopes ≡ true) × (may_grant "reporting" s ≡ true))
        × ((s : String)
            → may_grant "reporting" "*" ≡ false
            → scope_grants ("read" ∷ []) s ≡ true
            → may_grant "reporting" s ≡ true))
api_keys_create-Grants_example =
    api_keys_create-Grants same sha256 "laptop" "never" "" bobs_call fresh keyless none bobs_key
      (unfold api_keys_create expiry_of parse_scope_input check_scope_grants may_grant
          insert_api_key count_where in
        refl)
      (unfold api_keys_create expiry_of parse_scope_input check_scope_grants may_grant
          insert_api_key count_where new_key log_audit in
        inl refl)

api_keys_revoke-locks_out_example : (false ≡ false) × (ann.id ≢ bobs_call.acting.user.id)
api_keys_revoke-locks_out_example =
    api_keys_revoke-locks_out loads sha256 8 same "k1" bobs_call staffed by_key 60
      (record { user = ann; api_key = some anns_key }) anns_key
      (unfold api_keys_revoke revoke_api_key update_where get_current_user api_key_value starts_with
          match_key get_api_key_by_prefix select_where select_one get_user_by_id log_audit
          count_where in
        refl)
      refl refl
