-- ===== src/Web/ApiKeys/Issued.antt =====
-- A key that web/routes/api_keys.py creates is accepted by web/auth.py, until it is revoked.
use testharness.Prelude.{
  eq_iff, subst, ℕ, ◌+◌, ◌*◌, ◌≤◌, String, ◌=s=◌, ◌≡◌, ◌≢◌, refl, sym, ap, ◌∙◌, inl, inr, Bool,
  true, false, not, ◌&&◌, Option, none, some, List, [], ◌∷◌, ◌++◌, arith, Bool-cases, select_where,
  select_where-append, select_one, In, In-update_where, if◌then◌else◌, map_option,
}
use testharness.Db.{Db, User, ApiKey}
use testharness.Db.Accounts.{
  user_has_id, get_user_by_id, get_api_key_by_prefix, revoke_api_key, is_revocable, key_has_id,
}
use testharness.Web.RunnerApi.{ok}
use testharness.Web.Auth.{
  Payload, Request, Identity, drop_text, take_text, api_key_value, is_expired, is_live, match_key,
  active_user, key_owner, key_user, user_by, get_current_user,
}
use testharness.Web.Auth.Sessions.{get_current_user_lem}
use testharness.Web.Users.{Call, redirect, audit}
use testharness.Web.ApiKeys.{expiry_of, Fresh, new_key, api_keys_create, api_keys_revoke}
use testharness.Web.ApiKeys.Grants.{created_key, log_audit-keys}

module _ {A : Type 0} (p : A → Bool) where
  select_one-append :
      (xs ys : List A) → select_one p xs ≡ none → select_one p (xs ++ ys) ≡ select_one p ys
  unfolding select_one
  select_one-append [] ys h = refl
  select_one-append (x ∷ xs) ys h = ground (arith, select_one-append xs ys)

-- A row that is active after a revocation is not one that the acting user could revoke.
live_row :
    (key_id : String) (c : Call) (db : Db) (key : ApiKey)
    → In key (api_keys_revoke key_id c db).1.api_keys
    → key.is_active ≡ true
    → key.id ≡ key_id
    → ((c.acting.user.role =s= "admin") ≡ false) × (key.user_id ≢ c.acting.user.id)
unfolding api_keys_revoke revoke_api_key
live_row key_id c db key m active same =
    let by_admin = c.acting.user.role =s= "admin" in
    let owner = if by_admin then none else some c.acting.user.id in
    let passes = is_revocable key_id owner in
    let revoked = λ (k : ApiKey). record k { is_active = false } in
    let (r, _, e) = In-update_where key passes revoked db.api_keys (
      subst (In key)
        (log_audit-keys (audit c "api_key.revoke" key_id none) (revoke_api_key key_id owner db))
        m) in
    elim (Bool-cases (passes r)) [
      | inl t ↦
          let off : key ≡ revoked r = e ∙ rw t refl in
          let bad : true ≡ false = sym active ∙ ap (λ (k : ApiKey). k.is_active) off in cc bad
      | inr t ↦ let kept : key ≡ r = e ∙ rw t refl in untouched (ap passes kept ∙ t)
    ]
  where
    untouched :
        is_revocable key_id
            (if c.acting.user.role =s= "admin" then none else some c.acting.user.id)
            key
          ≡ false
        → ((c.acting.user.role =s= "admin") ≡ false) × (key.user_id ≢ c.acting.user.id)
    untouched t = elim (Bool-cases (c.acting.user.role =s= "admin")) [
      | inl a ↦
          let q : key_has_id key_id key ≡ false = sym (rw a refl) ∙ t in
          ground (arith, q, eq_iff key.id key_id, same)
      | inr a ↦
          let q : (key_has_id key_id key && key.user_id =s= c.acting.user.id) ≡ false =
            sym (rw a refl) ∙ t in
          (a, ground (arith, q, eq_iff key.id key_id, same, eq_iff key.user_id c.acting.user.id))
    ]

module _ (loads : String → ℕ → Option Payload) (sha256 : String → String) (session_hours : ℕ)
    (strip : String → String) where
  -- The key that is matched behind the others.
  matched_last :
      (db db' : Db) (key : ApiKey) (v : String)
      → db'.api_keys ≡ db.api_keys ++ key ∷ []
      → key.key_prefix ≡ take_text 8 (drop_text 4 v)
      → key.key_hash ≡ sha256 v
      → match_key sha256 db v ≡ none
      → match_key sha256 db' v ≡ some key
  unfolding match_key get_api_key_by_prefix
  matched_last db db' key v keys prefix hash none_yet =
      let by_prefix = λ (k : ApiKey). k.key_prefix =s= take_text 8 (drop_text 4 v) in
      let by_hash = λ (k : ApiKey). k.key_hash =s= sha256 v in
      let found : select_one by_hash (select_where by_prefix (key ∷ [])) ≡ some key =
        rw ((eq_iff key.key_prefix _).1 prefix, (eq_iff key.key_hash _).1 hash) refl in
      ap (λ ks. select_one by_hash (select_where by_prefix ks)) keys
      ∙ ap (select_one by_hash) (select_where-append by_prefix db.api_keys (key ∷ []))
      ∙ select_one-append by_hash (select_where by_prefix db.api_keys)
          (select_where by_prefix (key ∷ [])) none_yet
      ∙ found

  accepted_key :
      (request : Request) (db : Db) (later : ℕ) (value : String) (key : ApiKey) (user : User)
      → api_key_value request ≡ some value
      → match_key sha256 db value ≡ some key
      → is_live later key ≡ true
      → get_user_by_id db key.user_id ≡ some user
      → user.is_active ≡ true
      → (get_current_user loads sha256 session_hours request db later).0
        ≡ ok (record { user = user; api_key = some key })
  unfolding get_current_user
  accepted_key request db later value key user sent found live owner active =
      ap (λ v. (user_by loads sha256 session_hours request db later v).0) sent
      ∙ ap (λ o. (key_user request db later o).0) found
      ∙ rw live
          (ap (λ o. (key_owner request db key later (active_user o)).0) owner ∙ rw active refl)

  -- The key that a user creates signs him in: a later request with its text is accepted as his, with the new
  -- key, while he has an active account and the key has not expired, if no older key matched the text.
  pub api_keys_create-accepted :
      (name expiry_days scope : String) (c : Call) (fresh : Fresh) (db : Db)
      (cookie : Option (String × ℕ)) (request : Request) (later : ℕ) (user : User)
      → (api_keys_create strip sha256 name expiry_days scope c fresh db).0 ≡ redirect cookie
      → match_key sha256 db fresh.plaintext ≡ none
      → get_user_by_id db c.acting.user.id ≡ some user
      → user.is_active ≡ true
      → api_key_value request ≡ some fresh.plaintext
      → ((days : ℕ) → expiry_of expiry_days ≡ some (some days) → later ≤ c.now + days * 86400)
      → (key : ApiKey) × (key.id ≡ fresh.key_id)
        × ((get_current_user loads sha256 session_hours request
              (api_keys_create strip sha256 name expiry_days scope c fresh db).1
              later).0
            ≡ ok (record { user = user; api_key = some key }))
  unfolding new_key get_user_by_id
  api_keys_create-accepted name expiry_days scope c fresh db cookie request later user h none_yet
        owner active sent in_time =
      let (days, granted, expiry, _, keys, users) =
        created_key strip sha256 name expiry_days scope c fresh db cookie h in
      let db' = (api_keys_create strip sha256 name expiry_days scope c fresh db).1 in
      let key = new_key strip sha256 name days granted c fresh in
      (
        key,
        refl,
        accepted_key request db' later fresh.plaintext key user sent
            (matched_last db db' key fresh.plaintext keys refl refl none_yet)
            (not_expired days expiry in_time)
            (ap (select_one (user_has_id c.acting.user.id)) users ∙ owner) active,
      )
    where
      not_expired :
          (days : Option ℕ)
          → expiry_of expiry_days ≡ some days
          → ((d : ℕ) → expiry_of expiry_days ≡ some (some d) → later ≤ c.now + d * 86400)
          → not (is_expired later (map_option (λ d. c.now + d * 86400) days)) ≡ true
      not_expired none e t = refl
      not_expired (some d) e t = ground (arith, t d e)

  -- If a key is still accepted after an attempt to revoke it, the acting user is no admin and does not own
  -- it.
  pub api_keys_revoke-locks_out :
      (key_id : String) (c : Call) (db : Db) (request : Request) (later : ℕ) (who : Identity)
      (key : ApiKey)
      → (get_current_user loads sha256 session_hours request
          (api_keys_revoke key_id c db).1
          later).0
        ≡ ok who
      → who.api_key ≡ some key
      → key.id ≡ key_id
      → ((c.acting.user.role =s= "admin") ≡ false) × (key.user_id ≢ c.acting.user.id)
  api_keys_revoke-locks_out key_id c db request later who key h has same =
      elim (get_current_user_lem loads sha256 session_hours request (api_keys_revoke key_id c db).1
        later who h) [
          | inl (_, (no_key, _)) ↦ let bad : none ≡ some key = sym no_key ∙ has in cc bad
          | inr (k, has_k, (_, _, _, row, _, _), live, _, _, _) ↦
              let one : some k ≡ some key = sym has_k ∙ has in
              let k_key : k ≡ key = cc one in
              live_row key_id c db key
                (subst (λ (x : ApiKey). In x (api_keys_revoke key_id c db).1.api_keys) k_key row)
                (sym (ap (λ (x : ApiKey). x.is_active) k_key) ∙ live) same
        ]
