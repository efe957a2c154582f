-- ===== src/Web/Auth/Sessions.antt =====
-- When `get_current_user` of web/auth.py accepts a request, and that a bump of the session version
-- (a logout, a password or role change) revokes the cookies.
use testharness.Prelude.{
  ℕ, ◌+◌, String, eq_iff, ◌≡◌, ◌≢◌, ◌⊎◌, refl, sym, ap, subst, ◌∙◌, inl, inr, true, false, Option,
  none, some, arith, Bool-cases, Option-cases, map_option, select_one-update_key, and-true_left,
  and-true_right, select_one-In, In, List, [], ◌∷◌, Bool, ◌=s=◌, select_one, select_where,
  In-select_where,
}
use testharness.Db.{Db, User, ApiKey}
use testharness.Db.Accounts.{get_user_by_id, bump_session_version, get_api_key_by_prefix}
use testharness.VersionSkew.{ℤ, pos, negsuc}
use testharness.Web.RunnerApi.{ok, http_error}
use testharness.Web.Auth.{
  Payload, Request, Identity, take_text, drop_text, not_authed_status, api_key_value, is_expired,
  is_live, match_key, active_user, same_version, key_owner, key_user, session_of, session_user,
  load_session_claims, user_by, get_current_user,
}

abbrev pub user_id_of : User → String
user_id_of u = u.id

active_user-some :
    (o : Option User) (u : User) → active_user o ≡ some u → (o ≡ some u) × (u.is_active ≡ true)
active_user-some none u h = cc h
active_user-some (some v) u h = elim (Bool-cases v.is_active) [
  | inr e ↦ ground (arith, e, h)
  | inl e ↦
      let q : some v ≡ some u = ground (arith, e, h) in
      let r : v ≡ u = cc q in (q, ap (λ (x : User). x.is_active) (sym r) ∙ e)
]

same_version-pos : (v : ℤ) (m : ℕ) → same_version v m ≡ true → v ≡ pos m
same_version-pos (pos n) m h = ap pos (ground (arith, h))
same_version-pos (negsuc n) m h = cc h

-- A cookie that is accepted is one of an active user at the user's present session version.
abbrev pub ByCookie : Db → Option (String × ℤ) → Identity → Type 0
ByCookie db claims who =
    (who.api_key ≡ none)
    × ((user_id : String) × (claims ≡ some (user_id, pos who.user.session_version))
        × (get_user_by_id db user_id ≡ some who.user)
        × (who.user.is_active ≡ true))

-- A key that is accepted is the row that matches the value sent: it stands in the table, with the eight
-- characters behind the value's first four as its prefix and the value's hash as its hash. It is active, has
-- not expired, and belongs to an active user.
abbrev pub ByKey : (String → String) → Db → ℕ → Option String → Identity → Type 0
ByKey sha256 db now value who =
    (key : ApiKey) × (who.api_key ≡ some key)
    × ((v : String) × (value ≡ some v)
        × (match_key sha256 db v ≡ some key)
        × In key db.api_keys
        × (key.key_prefix ≡ take_text 8 (drop_text 4 v))
        × (key.key_hash ≡ sha256 v))
    × (key.is_active ≡ true)
    × (is_expired now key.expires_at ≡ false)
    × (get_user_by_id db key.user_id ≡ some who.user)
    × (who.user.is_active ≡ true)

pub session_user-ByCookie :
    (request : Request) (db : Db) (claims : Option (String × ℤ)) (who : Identity)
    → session_user request db claims ≡ ok who
    → ByCookie db claims who
session_user-ByCookie request db none who h = cc h
session_user-ByCookie request db (some (user_id, version)) who h =
    elim (Option-cases (active_user (get_user_by_id db user_id))) [
      | inl e ↦ cc (ap (session_of request version) e, h)
      | inr (u, e) ↦ elim (Bool-cases (same_version version u.session_version)) [
        | inr f ↦
            let q : session_of request version (some u) ≡ ok who =
              sym (ap (session_of request version) e) ∙ h in
            ground (arith, f, q)
        | inl f ↦
            let q : session_of request version (some u) ≡ ok who =
              sym (ap (session_of request version) e) ∙ h in
            let same : record { user = u; api_key = none } ≡ who = ground (arith, f, q) in
            let (found, active) = active_user-some (get_user_by_id db user_id) u e in
            subst (ByCookie db (some (user_id, version))) same (
              refl,
              (
                user_id,
                ap (λ v. some (user_id, v)) (same_version-pos version u.session_version f),
                found,
                active,
              ),
            )
      ]
    ]

module _ {A : Type 0} (p : A → Bool) where
  selected : (xs : List A) (a : A) → select_one p xs ≡ some a → In a xs × (p a ≡ true)
  unfolding select_one
  selected [] a h = cc
  selected (x ∷ xs) a h = ground (arith, selected xs a)

-- The row that `match_key` finds.
match_key-row :
    (sha256 : String → String) (db : Db) (v : String) (key : ApiKey)
    → match_key sha256 db v ≡ some key
    → In key db.api_keys
      × (key.key_prefix ≡ take_text 8 (drop_text 4 v))
      × (key.key_hash ≡ sha256 v)
unfolding match_key get_api_key_by_prefix
match_key-row sha256 db v key h =
    let by_prefix = λ (k : ApiKey). k.key_prefix =s= take_text 8 (drop_text 4 v) in
    let (found, hash) =
      selected (λ k. k.key_hash =s= sha256 v) (select_where by_prefix db.api_keys) key h in
    let (row, prefix) = In-select_where key by_prefix db.api_keys found in
    (row, (eq_iff key.key_prefix _).0 prefix, (eq_iff key.key_hash _).0 hash)

key_user-ByKey :
    (sha256 : String → String) (request : Request) (db : Db) (now : ℕ) (value : String)
    (who : Identity)
    → (key_user request db now (match_key sha256 db value)).0 ≡ ok who
    → ByKey sha256 db now (some value) who
key_user-ByKey sha256 request db now value who h = elim (Option-cases (match_key sha256 db value)) [
  | inl e ↦ cc (ap (λ o. (key_user request db now o).0) e, h)
  | inr (key, e) ↦
      let q : (key_user request db now (some key)).0 ≡ ok who =
        sym (ap (λ o. (key_user request db now o).0) e) ∙ h in
      elim (Bool-cases (is_live now key)) [
        | inr f ↦ ground (arith, f, q)
        | inl f ↦
            owner key e f (ground (arith, f, q))
              (Option-cases (active_user (get_user_by_id db key.user_id)))
      ]
]
  where
    owner :
        (key : ApiKey)
        → match_key sha256 db value ≡ some key
        → is_live now key ≡ true
        → (key_owner request db key now (active_user (get_user_by_id db key.user_id))).0 ≡ ok who
        → (active_user (get_user_by_id db key.user_id) ≡ none)
          ⊎ ((u : User) × (active_user (get_user_by_id db key.user_id) ≡ some u))
        → ByKey sha256 db now (some value) who
    owner key e f q (inl none_found) =
        cc (ap (λ o. (key_owner request db key now o).0) none_found, q)
    owner key e f q (inr (u, one)) =
        let k : (key_owner request db key now (some u)).0 ≡ ok who =
          sym (ap (λ o. (key_owner request db key now o).0) one) ∙ q in
        let same : record { user = u; api_key = some key } ≡ who = cc k in
        let (found, active) = active_user-some (get_user_by_id db key.user_id) u one in
        subst (ByKey sha256 db now (some value)) same (
          key,
          refl,
          (
            value,
            refl,
            e,
            (match_key-row sha256 db value key e).0,
            (match_key-row sha256 db value key e).1,
            (match_key-row sha256 db value key e).2,
          ),
          and-true_left key.is_active _ f,
          ground (arith, and-true_right key.is_active _ f),
          found,
          active,
        )

bump : User → User
bump u = record u { session_version = u.session_version + 1 }

-- After a bump the row of the id, which was `u`, has another session version.
pub bumped_version :
    (db : Db) (user_id : String) (u v : User)
    → get_user_by_id db user_id ≡ some u
    → get_user_by_id (bump_session_version user_id db) user_id ≡ some v
    → u.session_version ≢ v.session_version
unfolding get_user_by_id bump_session_version bump
bumped_version db user_id u v g h =
    let row : some (bump u) ≡ some v =
      sym (
        select_one-update_key user_id_of user_id bump db.users (λ r. refl) ∙ ap (map_option bump) g)
      ∙ h in
    let same : bump u ≡ v = cc row in
    let moved : u.session_version + 1 ≡ v.session_version =
      ap (λ (x : User). x.session_version) same in
    ground (arith, moved)

module _ (loads : String → ℕ → Option Payload) (sha256 : String → String) (session_hours : ℕ) where
  -- Whoever `get_current_user` accepts is an active user, who came with a live key of his own or, if
  -- the request has no key, with a cookie of his present session version. A request with a key is
  -- never judged by its cookie.
  pub get_current_user_lem :
      (request : Request) (db : Db) (now : ℕ) (who : Identity)
      → (get_current_user loads sha256 session_hours request db now).0 ≡ ok who
      → ((api_key_value request ≡ none)
          × ByCookie db (load_session_claims loads session_hours request.session) who)
        ⊎ ByKey sha256 db now (api_key_value request) who
  unfolding get_current_user
  get_current_user_lem request db now who h = by (api_key_value request) h
    where
      by :
          (value : Option String)
          → (user_by loads sha256 session_hours request db now value).0 ≡ ok who
          → ((value ≡ none)
              × ByCookie db (load_session_claims loads session_hours request.session) who)
            ⊎ ByKey sha256 db now value who
      by none q = inl (refl, session_user-ByCookie request db _ who q)
      by (some value) q = inr (key_user-ByKey sha256 request db now value who q)

  stale_cookie :
      (request : Request) (db : Db) (user_id : String) (u : User) (n : ℕ)
      → get_user_by_id db user_id ≡ some u
      → n ≢ u.session_version
      → session_user request db (some (user_id, pos n)) ≡ http_error (not_authed_status request)
  stale_cookie request db user_id u n g h =
      ap (λ o. session_of request (pos n) (active_user o)) g
      ∙ (elim (Bool-cases u.is_active) [ inr e ↦ rw e | inl e ↦ rw e (ground (arith, h)) ])

  -- The claims and the row of whoever is accepted by a cookie.
  pub cookie_user :
      (request : Request) (db : Db) (now : ℕ) (who : Identity)
      → api_key_value request ≡ none
      → (get_current_user loads sha256 session_hours request db now).0 ≡ ok who
      → (load_session_claims loads session_hours request.session
          ≡ some (who.user.id, pos who.user.session_version))
        × (get_user_by_id db who.user.id ≡ some who.user)
  unfolding get_current_user
  cookie_user request db now who no_key h =
      let claims = load_session_claims loads session_hours request.session in
      let accepted : session_user request db claims ≡ ok who =
        sym (ap (λ v. (user_by loads sha256 session_hours request db now v).0) no_key) ∙ h in
      let (_, (user_id, e, g, _)) = session_user-ByCookie request db claims who accepted in
      let same =
        (eq_iff who.user.id user_id).0
          ((select_one-In user_id_of user_id who.user db.users (unfold get_user_by_id in g)).1) in
      (
        e ∙ ap (λ i. some (i, pos who.user.session_version)) (sym same),
        ap (get_user_by_id db) same ∙ g,
      )

  -- A cookie that was accepted is refused in any later state where its user is gone or has another
  -- session version.
  pub outdated-refused :
      (request : Request) (db db' : Db) (now later : ℕ) (who : Identity)
      → api_key_value request ≡ none
      → (get_current_user loads sha256 session_hours request db now).0 ≡ ok who
      → ((u : User)
          → get_user_by_id db' who.user.id ≡ some u
          → who.user.session_version ≢ u.session_version)
      → (get_current_user loads sha256 session_hours request db' later).0
        ≡ http_error (not_authed_status request)
  unfolding get_current_user
  outdated-refused request db db' now later who no_key h moved =
      ap (λ v. (user_by loads sha256 session_hours request db' later v).0) no_key
      ∙ ap (session_user request db') (cookie_user request db now who no_key h).0
      ∙ (elim (Option-cases (get_user_by_id db' who.user.id)) [
        | inl gone ↦
            ap (λ o. session_of request (pos who.user.session_version) (active_user o)) gone
        | inr (u, found) ↦
            stale_cookie request db' who.user.id u who.user.session_version found (moved u found)
      ])

  -- Whoever is accepted has a row.
  pub accepted_row :
      (request : Request) (db : Db) (now : ℕ) (who : Identity)
      → (get_current_user loads sha256 session_hours request db now).0 ≡ ok who
      → In who.user db.users
  accepted_row request db now who h = elim (get_current_user_lem request db now who h) [
    | inl (_, (_, (user_id, _, g, _))) ↦
        (select_one-In user_id_of user_id who.user db.users (unfold get_user_by_id in g)).0
    | inr (key, _, _, _, _, g, _) ↦
        (select_one-In user_id_of key.user_id who.user db.users (unfold get_user_by_id in g)).0
  ]

  -- Whoever is accepted is active.
  pub accepted-active :
      (request : Request) (db : Db) (now : ℕ) (who : Identity)
      → (get_current_user loads sha256 session_hours request db now).0 ≡ ok who
      → who.user.is_active ≡ true
  accepted-active request db now who h = elim (get_current_user_lem request db now who h) [
    | inl (_, (_, (_, _, _, active))) ↦ active
    | inr (_, _, _, _, _, _, active) ↦ active
  ]

  -- A cookie that was accepted is refused once the session version of its user has been bumped.
  pub bump-revokes :
      (request : Request) (db : Db) (now later : ℕ) (who : Identity)
      → api_key_value request ≡ none
      → (get_current_user loads sha256 session_hours request db now).0 ≡ ok who
      → (get_current_user loads sha256 session_hours request
          (bump_session_version who.user.id db)
          later).0
        ≡ http_error (not_authed_status request)
  bump-revokes request db now later who no_key h =
      outdated-refused request db (bump_session_version who.user.id db) now later who no_key h
        (λ u g.
          bumped_version db who.user.id who.user u (cookie_user request db now who no_key h).1 g)
