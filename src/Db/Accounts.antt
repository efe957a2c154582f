-- ===== src/Db/Accounts.antt =====
-- harness/db/_api_keys.py, and the part of harness/db/_users.py that authentication uses.
use testharness.Prelude.{
  ℕ, ◌+◌, String, ◌=s=◌, Bool, false, ◌&&◌, Option, none, some, List, select_where, select_one,
  update_where, count_where, order_desc, [], ◌∷◌, ◌++◌, ◌==◌, if◌then◌else◌,
}
use testharness.Db.{Db, User, ApiKey}

abbrev pub user_has_id : String → User → Bool
user_has_id user_id u = u.id =s= user_id

unfoldable pub get_user_by_id : Db → String → Option User
unfolding select_one
get_user_by_id db user_id = select_one (user_has_id user_id) db.users

unfoldable pub bump_session_version : String → Db → Db
unfolding update_where
bump_session_version user_id db = record db {
  users =
      update_where (user_has_id user_id) (λ u. record u { session_version = u.session_version + 1 })
        db.users;
}

abbrev pub key_has_id : String → ApiKey → Bool
key_has_id key_id k = k.id =s= key_id

unfoldable pub get_api_key_by_id : Db → String → Option ApiKey
unfolding select_one
get_api_key_by_id db key_id = select_one (key_has_id key_id) db.api_keys

unfoldable pub get_api_key_by_prefix : Db → String → List ApiKey
unfolding select_where
get_api_key_by_prefix db prefix = select_where (λ k. k.key_prefix =s= prefix) db.api_keys

abbrev pub is_revocable : String → Option String → ApiKey → Bool
is_revocable key_id none k = key_has_id key_id k
is_revocable key_id (some user_id) k = key_has_id key_id k && k.user_id =s= user_id

unfoldable pub revoke_api_key : String → Option String → Db → Db
unfolding update_where
revoke_api_key key_id user_id db = record db {
  api_keys =
      update_where (is_revocable key_id user_id) (λ k. record k { is_active = false }) db.api_keys;
}

unfoldable pub touch_api_key_last_used : String → ℕ → Db → Db
unfolding update_where
touch_api_key_last_used key_id timestamp db = record db {
  api_keys =
      update_where (key_has_id key_id) (λ k. record k { last_used_at = some timestamp })
        db.api_keys;
}

-- `none` is the IntegrityError of a second row with one id.
unfoldable pub insert_api_key : ApiKey → Db → Option Db
unfolding count_where
insert_api_key row db =
    if count_where (key_has_id row.id) db.api_keys == 0
    then some (record db { api_keys = db.api_keys ++ row ∷ [] })
    else none

unfoldable pub list_api_keys_for_user : Db → String → List ApiKey
unfolding select_where order_desc
list_api_keys_for_user db user_id =
    order_desc (λ k. k.created_at) (select_where (λ k. k.user_id =s= user_id) db.api_keys)

-- A key without its user is left out of the join.
abbrev with_owner : Db → ApiKey → Option User → List (ApiKey × String) → List (ApiKey × String)
with_owner db k none rest = rest
with_owner db k (some u) rest = (k, u.username) ∷ rest

abbrev owned : Db → List ApiKey → List (ApiKey × String)
owned db [] = []
owned db (k ∷ keys) = with_owner db k (get_user_by_id db k.user_id) (owned db keys)

unfoldable pub list_all_api_keys : Db → List (ApiKey × String)
unfolding get_user_by_id order_desc
list_all_api_keys db = owned db (order_desc (λ k. k.created_at) db.api_keys)
