-- ===== src/Web/Login/Logout.antt =====
-- What `logout` of web/routes/auth.py does to the cookies of web/auth.py.
use testharness.Prelude.{ℕ, String, ◌≡◌, sym, ap, ◌∙◌, true, Option, none, arith, ◌==◌}
use testharness.Db.{Db}
use testharness.Db.Accounts.{bump_session_version}
use testharness.VersionSkew.{pos}
use testharness.Web.RunnerApi.{ok, http_error}
use testharness.Web.Auth.{
  Payload, Request, Identity, not_authed_status, api_key_value, load_session_claims, session_user,
  user_by, get_current_user,
}
use testharness.Web.Auth.Sessions.{session_user-ByCookie, bump-revokes}
use testharness.Web.Login.{logout_user, logout}

same_self : (n : ℕ) → (n == n) ≡ true
same_self n = ground arith

module _ (loads : String → ℕ → Option Payload) (sha256 : String → String) (session_hours : ℕ) where
  -- After a logout with a cookie that was accepted, on a request without a key, this cookie is refused.
  pub logout-revokes :
      (request : Request) (db : Db) (now later : ℕ) (who : Identity)
      → api_key_value request ≡ none
      → (get_current_user loads sha256 session_hours request db now).0 ≡ ok who
      → (get_current_user loads sha256 session_hours request
          (logout (load_session_claims loads session_hours request.session) db)
          later).0
        ≡ http_error (not_authed_status request)
  unfolding get_current_user logout
  logout-revokes request db now later who no_key h =
      let claims = load_session_claims loads session_hours request.session in
      let accepted : session_user request db claims ≡ ok who =
        sym (ap (λ v. (user_by loads sha256 session_hours request db now v).0) no_key) ∙ h in
      let (_, (user_id, e, g, _)) = session_user-ByCookie request db claims who accepted in
      let bumped : logout claims db ≡ bump_session_version who.user.id db =
        ap (λ c. logout c db) e
        ∙ ap (λ o. logout_user (pos who.user.session_version) o db) g
        ∙ rw (same_self who.user.session_version) in
      ap (λ d. (get_current_user loads sha256 session_hours request d later).0) bumped
      ∙ bump-revokes loads sha256 session_hours request db now later who no_key h
