-- ===== src/Web/Github/Accepted.antt =====
-- Who signs in through GitHub in web/routes/auth.py.
use testharness.Prelude.{
  String, ◌=s=◌, ◌≡◌, refl, sym, ap, ◌∙◌, inl, inr, Bool, true, not, ◌&&◌, ◌||◌, Option, none, some,
  List, [], ◌∷◌, arith, Bool-cases, Option-cases, column_is, select_one,
}
use testharness.Db.{Db, User}
use testharness.Db.Users.{
  get_user_by_oauth_provider_id, get_users_by_username_ci, set_user_oauth_provider_id, insert_user,
}
use testharness.Web.RunnerApi.{Reply, ok, http_error}
use testharness.Web.Github.{
  Answer, unreachable, invalid, answer, GithubUser, GithubConfig, Callback, allowed, by_username,
  by_id, sign_in, identified, exchanged, github_oauth_callback, new_github_user, is_linked,
}

abbrev pub IsGithub : User → Type 0
IsGithub user = ((user.auth_provider =s= "github") ≡ true) × (user.is_active ≡ true)

-- A session is only for an active account of GitHub.
abbrev pub Fits : Reply User → Type 0
Fits (ok user) = IsGithub user
Fits (http_error status) = Unit

by_oauth-github :
    (provider_id : String) (user : User) (rows : List User)
    → select_one
        (λ u. u.auth_provider =s= "github" && column_is u.oauth_provider_id provider_id)
        rows
      ≡ some user
    → (user.auth_provider =s= "github") ≡ true
unfolding select_one
by_oauth-github provider_id user [] h = cc h
by_oauth-github provider_id user (r ∷ rows) h =
    elim (Bool-cases (r.auth_provider =s= "github" && column_is r.oauth_provider_id provider_id)) [
      | inl e ↦
          let here : r ≡ user = cc (rw e at h) in
          ap (λ (u : User). u.auth_provider =s= "github") (sym here) ∙ ground (arith, e)
      | inr e ↦ by_oauth-github provider_id user rows (rw e at h)
    ]

module _ (nocase : String → String → Bool) (lower username_of : String → String)
    (cfg : GithubConfig) (c : Callback) (db : Db) where
  by_username-Fits :
      (github_user : GithubUser) (is_allowed : Bool) (users : List User)
      → Fits (by_username nocase lower username_of cfg c github_user is_allowed db users).0
  unfolding by_username
  by_username-Fits g is_allowed [] = elim (Bool-cases (is_allowed || cfg.auto_provision)) [
    | inr e ↦ rw e tt
    | inl e ↦
        elim (Option-cases (insert_user db (new_github_user nocase lower username_of cfg c g))) [
          | inl f ↦ rw (e, f) tt
          | inr (db', f) ↦ rw (e, f) (unfold new_github_user in (refl, refl))
        ]
  ]
  by_username-Fits g is_allowed (user ∷ []) =
      elim (Bool-cases (
        not (user.auth_provider =s= "github")
        || (is_linked nocase lower username_of cfg user.oauth_provider_id || not user.is_active))) [
          | inl e ↦ rw e tt
          | inr e ↦ elim (Bool-cases (set_user_oauth_provider_id user.id g.id db).0) [
            | inl f ↦ rw (e, f) (ground (arith, e), ground (arith, e))
            | inr f ↦ rw (e, f) tt
          ]
        ]
  by_username-Fits g is_allowed (user ∷ other ∷ users) = tt

  by_id-Fits :
      (g : GithubUser) (is_allowed : Bool) (o : Option User)
      → get_user_by_oauth_provider_id db "github" g.id ≡ o
      → Fits (by_id nocase lower username_of cfg c g is_allowed db o).0
  by_id-Fits g is_allowed none h =
      by_username-Fits g is_allowed (get_users_by_username_ci nocase db (username_of g.login))
  by_id-Fits g is_allowed (some user) h = elim (Bool-cases user.is_active) [
    | inl e ↦
        rw e (by_oauth-github g.id user db.users (unfold get_user_by_oauth_provider_id in h), refl)
    | inr e ↦ rw e tt
  ]

  sign_in-Fits :
      (g : GithubUser) (reply : Reply Bool)
      → Fits (sign_in nocase lower username_of cfg c g db reply).0
  sign_in-Fits g (http_error status) = tt
  sign_in-Fits g (ok is_allowed) =
      by_id-Fits g is_allowed (get_user_by_oauth_provider_id db "github" g.id) refl

  identified-Fits :
      (a : Answer GithubUser) → Fits (identified nocase lower username_of cfg c db a).0
  identified-Fits unreachable = tt
  identified-Fits invalid = tt
  identified-Fits (answer g) = sign_in-Fits g (allowed nocase lower username_of cfg c g)

  exchanged-Fits : (a : Answer String) → Fits (exchanged nocase lower username_of cfg c db a).0
  exchanged-Fits unreachable = tt
  exchanged-Fits invalid = tt
  exchanged-Fits (answer token) = elim (Bool-cases (token =s= "")) [
    | inl e ↦ rw e tt
    | inr e ↦ rw e (identified-Fits c.github_user)
  ]

  -- Whatever GitHub answers, the callback signs in only active accounts of the provider github: never one of
  -- another provider that has the name of the login.
  pub callback-Fits : Fits (github_oauth_callback nocase lower username_of cfg c db).0
  unfolding github_oauth_callback
  callback-Fits = elim (Bool-cases (c.stored_state =s= "" || not (c.stored_state =s= c.state))) [
    | inl e ↦ rw e tt
    | inr e ↦ rw e (exchanged-Fits c.access_token)
  ]
