-- ===== src/Web/Auth.antt =====
-- web/auth.py: who a request is from, and what it may do; with `require_worker` and the tests of a
-- key of web/routes/runner.py. The signature check of itsdangerous (`loads`, on a token and the age
-- in seconds that it may have) and the hash of hashlib (`sha256`) are parameters.
pub mod Sessions
pub mod Keys
use testharness.Prelude.{
  ℕ, zero, suc, ◌*◌, String, ◌=s=◌, Bool, true, false, not, ◌&&◌, ◌||◌, Option, none, some, List,
  [], ◌∷◌, if◌then◌else◌, is_none, ltb, ◌==◌, starts_with, map_option, select_one,
}
use testharness.Db.{Db, User, ApiKey, Scope, scopes, malformed}
use testharness.Db.Accounts.{
  get_user_by_id, get_api_key_by_id, get_api_key_by_prefix, touch_api_key_last_used,
}
use testharness.VersionSkew.{ℤ, pos, negsuc}
use testharness.Web.RunnerApi.{Reply, ok, http_error}

-- s[n:] and s[:n]
abbrev pub drop_text : ℕ → String → String
drop_text zero s = s
drop_text (suc n) String.[] = ""
drop_text (suc n) (String.◌∷◌ c s) = drop_text n s

abbrev pub take_text : ℕ → String → String
take_text zero s = ""
take_text (suc n) String.[] = ""
take_text (suc n) (String.◌∷◌ c s) = String.◌∷◌ c (take_text n s)

-- The JSON value that a token carries.
pub data Item : Type 0 where
  text : String → Item
  int : ℤ → Item
  other : Item

pub data Payload : Type 0 where
  legacy : String → Payload
  items : List Item → Payload
  unexpected : Payload

abbrev claims_of : Option Payload → Option (String × ℤ)
claims_of (some (legacy user_id)) = if user_id =s= "" then none else some (user_id, pos 0)
claims_of (some (items (text user_id ∷ int version ∷ []))) =
    if user_id =s= "" then none else some (user_id, version)
claims_of _ = none

-- The cookie's user and session version; the empty token has none.
unfoldable pub load_session_claims :
    (String → ℕ → Option Payload) → ℕ → String → Option (String × ℤ)
load_session_claims loads session_hours token =
    if token =s= "" then none else claims_of (loads token (session_hours * 3600))

pub record Request : Type 0 where
  pub path : String
  pub authorization : String
  pub x_api_key : Option String
  pub session : String

-- The status of `_not_authed`: 401 below /api, a redirect to the login page elsewhere.
abbrev pub not_authed_status : Request → ℕ
not_authed_status request = if starts_with request.path "/api" then 401 else 307

abbrev pub header_key : Option String → Option String
header_key none = none
header_key (some key) = if starts_with key "hth_" then some key else none

-- The key of the request; other Bearer tokens and other keys are passed over.
unfoldable pub api_key_value : Request → Option String
unfolding starts_with
api_key_value request =
    if starts_with request.authorization "Bearer hth_"
    then some (drop_text 7 request.authorization)
    else header_key request.x_api_key

-- expires < now, of a key that expires
abbrev pub is_expired : ℕ → Option ℕ → Bool
is_expired now none = false
is_expired now (some expires) = ltb expires now

abbrev pub is_live : ℕ → ApiKey → Bool
is_live now key = key.is_active && not (is_expired now key.expires_at)

unfoldable pub match_key : (String → String) → Db → String → Option ApiKey
unfolding get_api_key_by_prefix select_one
match_key sha256 db value =
    select_one (λ c. c.key_hash =s= sha256 value)
      (get_api_key_by_prefix db (take_text 8 (drop_text 4 value)))

abbrev pub active_user : Option User → Option User
active_user none = none
active_user (some user) = if user.is_active then some user else none

-- The user, and the key that `request.state` keeps.
pub record Identity : Type 0 where
  pub user : User
  pub api_key : Option ApiKey

abbrev pub same_version : ℤ → ℕ → Bool
same_version (pos n) m = n == m
same_version (negsuc n) m = false

abbrev pub key_owner : Request → Db → ApiKey → ℕ → Option User → Reply Identity × Db
key_owner request db key now none = (http_error (not_authed_status request), db)
key_owner request db key now (some user) =
    (ok (record { user = user; api_key = some key }), touch_api_key_last_used key.id now db)

abbrev pub key_user : Request → Db → ℕ → Option ApiKey → Reply Identity × Db
key_user request db now none = (http_error (not_authed_status request), db)
key_user request db now (some key) =
    if not (is_live now key)
    then (http_error (not_authed_status request), db)
    else key_owner request db key now (active_user (get_user_by_id db key.user_id))

abbrev pub session_of : Request → ℤ → Option User → Reply Identity
session_of request version none = http_error (not_authed_status request)
session_of request version (some user) =
    if not (same_version version user.session_version)
    then http_error (not_authed_status request)
    else ok (record { user = user; api_key = none })

abbrev pub session_user : Request → Db → Option (String × ℤ) → Reply Identity
session_user request db none = http_error (not_authed_status request)
session_user request db (some (user_id, version)) =
    session_of request version (active_user (get_user_by_id db user_id))

module _ (loads : String → ℕ → Option Payload) (sha256 : String → String) (session_hours : ℕ) where
  abbrev pub user_by : Request → Db → ℕ → Option String → Reply Identity × Db
  user_by request db now none =
      (session_user request db (load_session_claims loads session_hours request.session), db)
  user_by request db now (some value) = key_user request db now (match_key sha256 db value)

  unfoldable pub get_current_user : Request → Db → ℕ → Reply Identity × Db
  unfolding load_session_claims match_key
  get_current_user request db now = user_by request db now (api_key_value request)

abbrev pub in_list : String → List String → Bool
in_list s [] = false
in_list s (t ∷ ts) = s =s= t || in_list s ts

-- The scopes of a key; a missing or malformed column gives the wildcard.
abbrev pub get_api_key_scopes : Option Scope → List String
get_api_key_scopes none = "*" ∷ []
get_api_key_scopes (some (scopes s)) = s
get_api_key_scopes (some malformed) = "*" ∷ []

unfoldable pub scope_grants : List String → String → Bool
scope_grants granted required = in_list "*" granted || in_list required granted

abbrev pub all_granted : List String → List String → Bool
all_granted granted [] = true
all_granted granted (required ∷ rest) = scope_grants granted required && all_granted granted rest

unfoldable pub require_role : List String → Identity → Reply Identity
require_role roles who = if in_list who.user.role roles then ok who else http_error 403

abbrev pub check_scopes : List String → Identity → Option ApiKey → Reply Identity
check_scopes required who none = ok who
check_scopes required who (some key) =
    if all_granted (get_api_key_scopes key.scope) required then ok who else http_error 403

-- A session cookie passes every scope check.
unfoldable pub require_scope : List String → Identity → Reply Identity
unfolding scope_grants
require_scope required who = check_scopes required who who.api_key

abbrev pub worker_roles : List String
worker_roles = "admin" ∷ "runner" ∷ []

abbrev pub worker_key : Identity → Option ApiKey → Reply (User × ApiKey)
worker_key who none = http_error 401
worker_key who (some key) =
    if in_list who.user.role worker_roles then ok (who.user, key) else http_error 403

abbrev pub worker_of : Reply Identity → Reply (User × ApiKey)
worker_of (http_error status) = http_error status
worker_of (ok who) = worker_key who who.api_key

unfoldable pub require_worker : String → Identity → Reply (User × ApiKey)
unfolding require_scope
require_worker scope who = worker_of (require_scope (scope ∷ []) who)

unfoldable pub key_usable : ℕ → Option ApiKey → Bool
key_usable now none = false
key_usable now (some key) = is_live now key

abbrev pub owner_is : Option ApiKey → String → Bool
owner_is none user_id = false
owner_is (some key) user_id = key.user_id =s= user_id

unfoldable pub bound_key_releasable : ℕ → Option ApiKey → User → Bool
unfolding key_usable
bound_key_releasable now bound_key user =
    if not (key_usable now bound_key) then true else owner_is bound_key user.id
