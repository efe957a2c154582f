-- ===== src/Web/Auth/Keys.antt =====
-- What the dependencies of web/auth.py and web/routes/runner.py let through.
use testharness.Prelude.{
  String, ◌≡◌, refl, sym, ap, ap₂, ◌∙◌, inl, inr, true, Option, none, some, [], ◌∷◌, arith,
  Bool-cases, and-true_left,
}
use testharness.Db.{User, ApiKey}
use testharness.Web.RunnerApi.{Reply, ok, http_error}
use testharness.Web.Auth.{
  Identity, in_list, get_api_key_scopes, scope_grants, require_scope, check_scopes, worker_roles,
  worker_of, worker_key, all_granted, require_worker,
}

-- A worker endpoint is entered only with an API key, by an admin or a runner, and only if the key's
-- scopes contain the endpoint's scope or the wildcard; the user and the key are the request's own.
pub require_worker_lem :
    (scope : String) (who : Identity) (user : User) (key : ApiKey)
    → require_worker scope who ≡ ok (user, key)
    → (who ≡ record { user = user; api_key = some key })
      × (in_list user.role worker_roles ≡ true)
      × (scope_grants (get_api_key_scopes key.scope) scope ≡ true)
unfolding require_worker require_scope
require_worker_lem scope who user key h = by who.api_key refl h
  where
    by :
        (found : Option ApiKey)
        → who.api_key ≡ found
        → worker_of (check_scopes (scope ∷ []) who found) ≡ ok (user, key)
        → (who ≡ record { user = user; api_key = some key })
          × (in_list user.role worker_roles ≡ true)
          × (scope_grants (get_api_key_scopes key.scope) scope ≡ true)
    by none e q =
        let k : worker_key who none ≡ ok (user, key) = sym (ap (worker_key who) e) ∙ q in cc k
    by (some k) e q = elim (Bool-cases (all_granted (get_api_key_scopes k.scope) (scope ∷ []))) [
      | inr g ↦ let r : http_error 403 ≡ ok (user, key) = sym (rw g) ∙ q in cc r
      | inl g ↦
          let r : worker_key who (some k) ≡ ok (user, key) = sym (rw (g, e)) ∙ q in
          elim (Bool-cases (in_list who.user.role worker_roles)) [
            | inr f ↦ ground (arith, f, r)
            | inl f ↦
                let pair : Reply.ok (who.user, k) ≡ ok (user, key) = sym (rw f) ∙ r in
                let same_user : who.user ≡ user = cc pair in
                let same_key : k ≡ key = cc pair in
                (
                  ap₂ (λ u o. record { user = u; api_key = o }) same_user (e ∙ ap some same_key),
                  ap (λ (u : User). in_list u.role worker_roles) (sym same_user) ∙ f,
                  ap (λ (x : ApiKey). scope_grants (get_api_key_scopes x.scope) scope)
                        (sym same_key)
                      ∙ and-true_left _ true g,
                )
          ]
    ]
