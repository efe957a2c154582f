-- ===== src/Web/ApiKeys.antt =====
-- web/routes/api_keys.py: the keys that users create and revoke. `strip` of Python's texts and the hash (`sha256`)
-- are arguments, and so is the random text of a new key. The cookie that shows this text once is left out.
pub mod Grants
pub mod Issued
use Prim.Native.Char.{code}
use testharness.Prelude.{
  ℕ, ◌+◌, ◌*◌, String, ◌=s=◌, Bool, true, false, not, ◌&&◌, ◌||◌, Option, none, some, List, [], ◌∷◌,
  map, map_option, if◌then◌else◌, ◌==◌, select_where, sorted_set,
}
use testharness.Db.{Db, User, ApiKey, scopes}
use testharness.Db.Accounts.{
  insert_api_key, revoke_api_key, list_api_keys_for_user, list_all_api_keys,
}
use testharness.Db.Audit.{log_audit}
use testharness.Web.RunnerApi.{Reply, ok, http_error}
use testharness.Web.Auth.{in_list, drop_text, take_text}
use testharness.Web.Users.{Call, Outcome, redirect, failed, raised, audit, is_given}

abbrev pub known_scopes : List String
known_scopes = "*" ∷ "worker:pull" ∷ "worker:results" ∷ "admin" ∷ "read" ∷ []

abbrev pub default_scopes : List String
default_scopes = "read" ∷ []

-- The days of an expiry option, and none for an option that there is not.
unfoldable pub expiry_of : String → Option (Option ℕ)
expiry_of option =
    if option =s= "7"
    then some (some 7)
    else if option =s= "30"
    then some (some 30)
    else if option =s= "90"
    then some (some 90)
    else if option =s= "365"
    then some (some 365)
    else if option =s= "never"
    then some none
    else none

abbrev worker_scopes : List String
worker_scopes = "*" ∷ "worker:pull" ∷ "worker:results" ∷ []

-- Whether a role may grant a scope; a scope without an entry is everyone's.
unfoldable pub may_grant : String → String → Bool
may_grant role scope =
    if in_list scope worker_scopes
    then in_list role ("admin" ∷ "runner" ∷ [])
    else if scope =s= "admin"
    then role =s= "admin"
    else true

-- raw.replace("\n", ",").split(",")
abbrev is_separator : ℕ → Bool
is_separator c = c == b',' || c == 10

abbrev split_fields : String → String × List String
split_fields String.[] = ("", [])
split_fields (String.◌∷◌ c s) =
    let (field, fields) = split_fields s in
    if is_separator (code c) then ("", field ∷ fields) else (String.◌∷◌ c field, fields)

abbrev pub tokens : String → List String
tokens raw = let (field, fields) = split_fields raw in field ∷ fields

abbrev pub all_known : List String → Bool
all_known [] = true
all_known (s ∷ ss) = in_list s known_scopes && all_known ss

abbrev known_or_422 : List String → Reply (List String)
known_or_422 [] = ok default_scopes
known_or_422 (s ∷ ss) = if all_known (s ∷ ss) then ok (sorted_set (s ∷ ss)) else http_error 422

abbrev pub may_grant_all : String → List String → Bool
may_grant_all role [] = true
may_grant_all role (s ∷ ss) = may_grant role s && may_grant_all role ss

unfoldable pub check_scope_grants : List String → String → Reply (List String)
unfolding may_grant
check_scope_grants granted role = if may_grant_all role granted then ok granted else http_error 403

abbrev pub checked_scopes : String → Reply (List String) → Reply (List String)
checked_scopes role (http_error status) = http_error status
checked_scopes role (ok granted) = check_scope_grants granted role

-- What a new key needs beside the form: its id, a new uuid, and its text, "hth_" and 40 random characters.
pub record Fresh : Type 0 where
  pub key_id : String
  pub plaintext : String

module _ (strip : String → String) (sha256 : String → String) where
  unfoldable pub parse_scope_input : String → Reply (List String)
  unfolding select_where sorted_set
  parse_scope_input raw =
      if raw =s= "" || strip raw =s= ""
      then ok default_scopes
      else known_or_422 (select_where is_given (map strip (tokens raw)))

  unfoldable pub new_key : String → Option ℕ → List String → Call → Fresh → ApiKey
  new_key name days granted c fresh = record {
    id = fresh.key_id;
    user_id = c.acting.user.id;
    name = strip name;
    key_prefix = take_text 8 (drop_text 4 fresh.plaintext);
    key_hash = sha256 fresh.plaintext;
    expires_at = map_option (λ d. c.now + d * 86400) days;
    created_at = c.now;
    last_used_at = none;
    is_active = true;
    scope = some (scopes granted);
  }

  abbrev pub key_created : String → List String → Call → Fresh → Db → Option Db → Outcome × Db
  key_created name granted c fresh db none = (raised, db)
  key_created name granted c fresh db (some db') = (
    redirect none,
    log_audit
        (audit c "api_key.create" (strip name)
          (some ("prefix=" ∷ take_text 8 (drop_text 4 fresh.plaintext) ∷ " scope=" ∷ granted)))
        db',
  )

  abbrev pub key_granted :
      String → Option ℕ → Call → Fresh → Db → Reply (List String) → Outcome × Db
  key_granted name days c fresh db (http_error status) = (failed status, db)
  key_granted name days c fresh db (ok granted) =
      key_created name granted c fresh db (insert_api_key (new_key name days granted c fresh) db)

  abbrev pub create_until : String → String → Call → Fresh → Db → Option (Option ℕ) → Outcome × Db
  create_until name scope c fresh db none = (failed 422, db)
  create_until name scope c fresh db (some days) =
      key_granted name days c fresh db (checked_scopes c.acting.user.role (parse_scope_input scope))

  unfoldable pub api_keys_create : String → String → String → Call → Fresh → Db → Outcome × Db
  unfolding expiry_of parse_scope_input check_scope_grants insert_api_key new_key log_audit
  api_keys_create name expiry_days scope c fresh db =
      if strip name =s= ""
      then (failed 422, db)
      else create_until name scope c fresh db (expiry_of expiry_days)

unfoldable pub api_keys_revoke : String → Call → Db → Outcome × Db
unfolding revoke_api_key log_audit
api_keys_revoke key_id c db =
    let owner = if c.acting.user.role =s= "admin" then none else some c.acting.user.id in
    (
      redirect none,
      log_audit (audit c "api_key.revoke" key_id none) (revoke_api_key key_id owner db),
    )

-- The keys that the page lists: those of the user, and those of all for an admin.
unfoldable pub api_keys_list : Db → User → List ApiKey × List (ApiKey × String)
unfolding list_api_keys_for_user list_all_api_keys
api_keys_list db user =
    (list_api_keys_for_user db user.id, if user.role =s= "admin" then list_all_api_keys db else [])
