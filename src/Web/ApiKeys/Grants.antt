-- ===== src/Web/ApiKeys/Grants.antt =====
-- Which scopes the keys have that `api_keys_create` of web/routes/api_keys.py stores.
use testharness.Prelude.{
  ℕ, String, ◌=s=◌, eq_iff, ◌≡◌, ◌⊎◌, refl, sym, ap, subst, ◌∙◌, inl, inr, true, false, ◌||◌,
  Option, none, some, List, [], ◌∷◌, ◌++◌, map, arith, Bool-cases, count_where, ◌==◌, In, In-append,
  Option-cases, In-sorted_set, sorted_set, and-true_left, and-true_right, select_where,
}
use testharness.Db.{Db, ApiKey, AuditEntry}
use testharness.Db.Accounts.{key_has_id, insert_api_key}
use testharness.Db.Audit.{log_audit, entry_has_id}
use testharness.Web.RunnerApi.{Reply, ok, http_error}
use testharness.Web.Auth.{in_list, scope_grants, get_api_key_scopes}
use testharness.Web.Users.{Call, redirect, failed, raised, is_given}
use testharness.Web.Users.Revoked.{log_audit-users}
use testharness.Web.ApiKeys.{
  known_scopes, default_scopes, all_known, tokens, known_or_422, may_grant, may_grant_all,
  check_scope_grants, expiry_of, Fresh, parse_scope_input, new_key, key_granted, checked_scopes,
  create_until, api_keys_create,
}

pub log_audit-keys : (e : AuditEntry) (db : Db) → (log_audit e db).api_keys ≡ db.api_keys
unfolding log_audit
log_audit-keys e db = elim (Bool-cases (count_where (entry_has_id e.id) db.audit_log == 0)) [
  | inl f ↦ rw f refl
  | inr f ↦ rw f refl
]

insert_api_key-some :
    (row : ApiKey) (db db' : Db)
    → insert_api_key row db ≡ some db'
    → (db'.api_keys ≡ db.api_keys ++ row ∷ []) × (db'.users ≡ db.users)
unfolding insert_api_key
insert_api_key-some row db db' h =
    elim (Bool-cases (count_where (key_has_id row.id) db.api_keys == 0)) [
      | inr f ↦ let bad : none ≡ some db' = sym (rw f refl) ∙ h in cc bad
      | inl f ↦
          let done : some (record db { api_keys = db.api_keys ++ row ∷ [] }) ≡ some db' =
            sym (rw f refl) ∙ h in
          let same : record db { api_keys = db.api_keys ++ row ∷ [] } ≡ db' = cc done in
          (ap (λ (d : Db). d.api_keys) (sym same), ap (λ (d : Db). d.users) (sym same))
    ]

in_list-of : (s : String) (ss : List String) → in_list s ss ≡ true → In s ss
in_list-of s [] h = cc h
in_list-of s (t ∷ ts) h = elim (Bool-cases (s =s= t)) [
  | inl e ↦ inl ((eq_iff s t).0 e)
  | inr e ↦ inr (in_list-of s ts (ground (arith, h, e)))
]

may_grant_all-at :
    (role s : String) (ss : List String)
    → may_grant_all role ss ≡ true
    → In s ss
    → may_grant role s ≡ true
may_grant_all-at role s [] h m = absurd m
may_grant_all-at role s (t ∷ ts) h (inl e) =
    ap (may_grant role) e ∙ and-true_left (may_grant role t) _ h
may_grant_all-at role s (t ∷ ts) h (inr m) =
    may_grant_all-at role s ts (and-true_right (may_grant role t) _ h) m

-- A list that a role may grant, which may not grant the wildcard, grants its members only.
without_star :
    (role : String) (granted : List String) (s : String)
    → may_grant_all role granted ≡ true
    → may_grant role "*" ≡ false
    → scope_grants granted s ≡ true
    → In s granted
unfolding scope_grants
without_star role granted s allowed star h = elim (Bool-cases (in_list "*" granted)) [
  | inl e ↦
      let bad = may_grant_all-at role "*" granted allowed (in_list-of "*" granted e) in
      ground (arith, star, bad)
  | inr e ↦ in_list-of s granted (ground (arith, e, h))
]

all_known-at :
    (s : String) (ss : List String) → all_known ss ≡ true → In s ss → in_list s known_scopes ≡ true
all_known-at s [] h m = absurd m
all_known-at s (t ∷ ts) h (inl e) =
    ap (λ x. in_list x known_scopes) e ∙ and-true_left (in_list t known_scopes) _ h
all_known-at s (t ∷ ts) h (inr m) =
    all_known-at s ts (and-true_right (in_list t known_scopes) _ h) m

default_known : (s : String) → In s default_scopes → in_list s known_scopes ≡ true
default_known s m = all_known-at s default_scopes refl m

known_or_422-known :
    (ss granted : List String) (s : String)
    → known_or_422 ss ≡ ok granted
    → In s granted
    → in_list s known_scopes ≡ true
known_or_422-known [] granted s h m =
    let same : default_scopes ≡ granted = cc h in default_known s (subst (In s) (sym same) m)
known_or_422-known (t ∷ ts) granted s h m = elim (Bool-cases (all_known (t ∷ ts))) [
  | inr f ↦ let bad : http_error 422 ≡ ok granted = sym (rw f refl) ∙ h in cc bad
  | inl f ↦
      let done : ok (sorted_set (t ∷ ts)) ≡ ok granted = sym (rw f refl) ∙ h in
      let same : sorted_set (t ∷ ts) ≡ granted = cc done in
      all_known-at s (t ∷ ts) f (In-sorted_set s (t ∷ ts) (subst (In s) (sym same) m))
]

checked_scopes-ok :
    (role : String) (r : Reply (List String)) (granted : List String)
    → checked_scopes role r ≡ ok granted
    → (r ≡ ok granted) × (may_grant_all role granted ≡ true)
unfolding check_scope_grants
checked_scopes-ok role (http_error status) granted h = cc h
checked_scopes-ok role (ok asked) granted h = elim (Bool-cases (may_grant_all role asked)) [
  | inr f ↦ let bad : http_error 403 ≡ ok granted = sym (rw f refl) ∙ h in cc bad
  | inl f ↦
      let done : ok asked ≡ ok granted = sym (rw f refl) ∙ h in
      let same : asked ≡ granted = cc done in (ap ok same, ap (may_grant_all role) (sym same) ∙ f)
]

module _ (strip : String → String) (sha256 : String → String) where
  parse-known :
      (raw : String) (granted : List String) (s : String)
      → parse_scope_input strip sha256 raw ≡ ok granted
      → In s granted
      → in_list s known_scopes ≡ true
  unfolding parse_scope_input
  parse-known raw granted s h m = elim (Bool-cases (raw =s= "" || strip raw =s= "")) [
    | inl e ↦
        let done : ok default_scopes ≡ ok granted = sym (rw e refl) ∙ h in
        let same : default_scopes ≡ granted = cc done in default_known s (subst (In s) (sym same) m)
    | inr e ↦
        known_or_422-known (select_where is_given (map strip (tokens raw))) granted s
          (sym (rw e refl) ∙ h) m
  ]

  -- What a creation that succeeds has stored: one key with scopes that were parsed and checked.
  pub created_key :
      (name expiry_days scope : String) (c : Call) (fresh : Fresh) (db : Db)
      (cookie : Option (String × ℕ))
      → (api_keys_create strip sha256 name expiry_days scope c fresh db).0 ≡ redirect cookie
      → (days : Option ℕ) × (granted : List String) × (expiry_of expiry_days ≡ some days)
        × (checked_scopes c.acting.user.role (parse_scope_input strip sha256 scope) ≡ ok granted)
        × ((api_keys_create strip sha256 name expiry_days scope c fresh db).1.api_keys
            ≡ db.api_keys ++ new_key strip sha256 name days granted c fresh ∷ [])
        × ((api_keys_create strip sha256 name expiry_days scope c fresh db).1.users ≡ db.users)
  unfolding api_keys_create
  created_key name expiry_days scope c fresh db cookie h = elim (Bool-cases (strip name =s= "")) [
    | inl e ↦ let bad : failed 422 ≡ redirect cookie = sym (rw e refl) ∙ h in cc bad
    | inr e ↦ rw e (until (expiry_of expiry_days) refl (sym (rw e refl) ∙ h))
  ]
    where
      asked : Reply (List String)
      asked = checked_scopes c.acting.user.role (parse_scope_input strip sha256 scope)

      Stored : Option (Option ℕ) → Db → Type 0
      Stored o db' =
          (days : Option ℕ) × (granted : List String) × (o ≡ some days)
          × (asked ≡ ok granted)
          × (db'.api_keys ≡ db.api_keys ++ new_key strip sha256 name days granted c fresh ∷ [])
          × (db'.users ≡ db.users)

      stored :
          (days : Option ℕ) (r : Reply (List String))
          → asked ≡ r
          → (key_granted strip sha256 name days c fresh db r).0 ≡ redirect cookie
          → Stored (some days) (key_granted strip sha256 name days c fresh db r).1
      stored days (http_error status) e q = cc q
      stored days (ok granted) e q =
          let row = new_key strip sha256 name days granted c fresh in
          elim (Option-cases (insert_api_key row db)) [
            | inl f ↦ let bad : raised ≡ redirect cookie = sym (rw f refl) ∙ q in cc bad
            | inr (db', f) ↦ rw f (
              days,
              granted,
              refl,
              e,
              log_audit-keys _ db' ∙ (insert_api_key-some row db db' f).0,
              log_audit-users _ db' ∙ (insert_api_key-some row db db' f).1,
            )
          ]

      until :
          (o : Option (Option ℕ))
          → expiry_of expiry_days ≡ o
          → (create_until strip sha256 name scope c fresh db o).0 ≡ redirect cookie
          → Stored o (create_until strip sha256 name scope c fresh db o).1
      until none e q = cc q
      until (some days) e q = stored days asked refl q

  -- Every key in the table after a creation that succeeds was there before, or belongs to the acting user,
  -- has known scopes only, each of which his role may grant, and, if the role may not grant the
  -- wildcard, passes the check of no other scope.
  pub api_keys_create-Grants :
      (name expiry_days scope : String) (c : Call) (fresh : Fresh) (db : Db)
      (cookie : Option (String × ℕ)) (key : ApiKey)
      → (api_keys_create strip sha256 name expiry_days scope c fresh db).0 ≡ redirect cookie
      → In key (api_keys_create strip sha256 name expiry_days scope c fresh db).1.api_keys
      → In key db.api_keys
        ⊎ ((key.user_id ≡ c.acting.user.id)
            × ((s : String)
                → In s (get_api_key_scopes key.scope)
                → (in_list s known_scopes ≡ true) × (may_grant c.acting.user.role s ≡ true))
            × ((s : String)
                → may_grant c.acting.user.role "*" ≡ false
                → scope_grants (get_api_key_scopes key.scope) s ≡ true
                → may_grant c.acting.user.role s ≡ true))
  unfolding new_key scope_grants
  api_keys_create-Grants name expiry_days scope c fresh db cookie key h m =
      let (days, granted, _, checked, keys, _) =
        created_key name expiry_days scope c fresh db cookie h in
      let (parsed, allowed) =
        checked_scopes-ok c.acting.user.role (parse_scope_input strip sha256 scope) granted
          checked in
      let row = new_key strip sha256 name days granted c fresh in
      elim (In-append key db.api_keys (row ∷ []) (subst (In key) keys m)) [
        | inl old ↦ inl old
        | inr (inl e) ↦ inr (
          rw e refl,
          (λ s n.
              let given : In s granted =
                subst (λ (k : ApiKey). In s (get_api_key_scopes k.scope)) e n in
              (
                parse-known scope granted s parsed given,
                may_grant_all-at c.acting.user.role s granted allowed given,
              )),
          (λ s star n. may_grant_all-at c.acting.user.role s granted allowed (
              without_star c.acting.user.role granted s allowed star
                (subst (λ (k : ApiKey). scope_grants (get_api_key_scopes k.scope) s ≡ true) e n))),
        )
        | inr (inr bad) ↦ absurd bad
      ]
