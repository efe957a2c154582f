-- ===== src/Apps/Urls.antt =====
-- The checks of URLs in harness/app_manager.py, and `resolve_base_url` of harness/loader.py.
use Prim.Native.Char.{code}
use testharness.Prelude.{
  ℕ, String, ◌=s=◌, ◌≡◌, refl, sym, ap, ◌∙◌, inl, inr, Bool-cases, and-true_left, and-true_right,
  Bool, true, false, not, ◌&&◌, ◌||◌, Option, none, some, if◌then◌else◌, leb,
}
use testharness.Config.{
  Value, null, text, mapping, Fields, no_fields, field, get_field, Loaded, ok, config_error,
}
use testharness.Config.Refs.{is_env_ref}

-- [\x00-\x20\x7f-\x9f]
abbrev is_stripped : ℕ → Bool
is_stripped c = leb c 32 || (leb 127 c && leb c 159)

-- _URL_STRIP.sub("", value)
abbrev pub url_strip : String → String
url_strip String.[] = ""
url_strip (String.◌∷◌ c s) =
    let rest = url_strip s in if is_stripped (code c) then rest else String.◌∷◌ c rest

module _ (urlsplit : String → Option (String × String)) (lower : String → String)
    (strip : String → String) where
  abbrev http_parts : Option (String × String) → Bool
  http_parts none = false
  http_parts (some (scheme, netloc)) =
      (lower scheme =s= "http" || lower scheme =s= "https") && not (netloc =s= "")

  unfoldable pub is_http_url : Value → Bool
  is_http_url (text s) = http_parts (urlsplit (url_strip s))
  is_http_url _ = false

  abbrev is_ref : Value → Bool
  is_ref (text s) = is_env_ref (strip s)
  is_ref _ = false

  -- Whether the check passes; it raises AppValidationError otherwise.
  unfoldable pub check_url : Bool → Value → Bool
  unfolding is_http_url is_env_ref
  check_url allow_refs value = (allow_refs && is_ref value) || is_http_url value

  abbrev pub check_given : Bool → Option Value → Bool
  check_given allow_refs none = true
  check_given allow_refs (some value) = check_url allow_refs value

  abbrev pub check_each : Bool → Fields → Bool
  check_each allow_refs no_fields = true
  check_each allow_refs (field name value fs) =
      check_url allow_refs value && check_each allow_refs fs

  abbrev pub check_environments : Bool → Option Value → Bool
  check_environments allow_refs none = true
  check_environments allow_refs (some null) = true
  check_environments allow_refs (some (mapping envs)) = check_each allow_refs envs
  check_environments allow_refs (some _) = false

  unfoldable pub validate_app_urls : Bool → Value → Bool
  unfolding check_url
  validate_app_urls allow_refs (mapping app_def) =
      check_given allow_refs (get_field "url" app_def)
      && check_environments allow_refs (get_field "environments" app_def)
  validate_app_urls allow_refs _ = false

abbrev pub url_or_error : Option Value → Loaded Value
url_or_error none = config_error
url_or_error (some url) = ok url

abbrev pub environment_or : Fields → Option Value → Loaded Value
environment_or app_def none = url_or_error (get_field "url" app_def)
environment_or app_def (some url) = ok url

-- app.get("environments", {}); none is the TypeError of null. Other values, which `validate_app_urls` refuses, are
-- met as null is.
abbrev environments_of : Option Value → Option Fields
environments_of none = some no_fields
environments_of (some (mapping envs)) = some envs
environments_of (some _) = none

abbrev base_url_in : Fields → String → Option Fields → Option (Loaded Value)
base_url_in app_def environment none = none
base_url_in app_def environment (some envs) =
    some (environment_or app_def (get_field environment envs))

-- None for the TypeError of an app whose `environments` are null.
unfoldable pub resolve_base_url : Fields → String → Option (Loaded Value)
resolve_base_url app_def environment =
    base_url_in app_def environment (environments_of (get_field "environments" app_def))

module _ (urlsplit : String → Option (String × String)) (lower : String → String)
    (strip : String → String) where
  abbrev safe_or_error : Option (Loaded Value) → Option (Loaded Value)
  safe_or_error none = none
  safe_or_error (some config_error) = some config_error
  safe_or_error (some (ok url)) =
      if is_http_url urlsplit lower strip url then some (ok url) else some config_error

  unfoldable pub resolve_safe_base_url : Fields → String → Option (Loaded Value)
  unfolding validate_app_urls resolve_base_url is_http_url
  resolve_safe_base_url app_def environment =
      if validate_app_urls urlsplit lower strip false (mapping app_def)
      then safe_or_error (resolve_base_url app_def environment)
      else some config_error

  check_each-get :
      (name : String) (url : Value) (envs : Fields)
      → check_each urlsplit lower strip false envs ≡ true
      → get_field name envs ≡ some url
      → is_http_url urlsplit lower strip url ≡ true
  unfolding check_url
  check_each-get name url no_fields h g = cc g
  check_each-get name url (field k v fs) h g = elim (Bool-cases (k =s= name)) [
    | inl e ↦
        let here : some v ≡ some url = sym (rw e refl) ∙ g in
        let same : v ≡ url = cc here in
        ap (is_http_url urlsplit lower strip) (sym same)
        ∙ and-true_left (is_http_url urlsplit lower strip v) _ h
    | inr e ↦
        check_each-get name url fs (and-true_right (is_http_url urlsplit lower strip v) _ h)
          (sym (rw e refl) ∙ g)
  ]

  -- A run gets a base URL only if it, the URL of the app and those of all its environments are http or
  -- https URLs with a host, and then it is the URL of the environment, or else that of the app.
  pub resolve_safe_base_url_lem :
      (app_def : Fields) (environment : String) (url : Value)
      → resolve_safe_base_url app_def environment ≡ some (ok url)
      → (is_http_url urlsplit lower strip url ≡ true)
        × (resolve_base_url app_def environment ≡ some (ok url))
        × ((main : Value)
            → get_field "url" app_def ≡ some main
            → is_http_url urlsplit lower strip main ≡ true)
        × ((envs : Fields) (name : String) (other : Value)
            → get_field "environments" app_def ≡ some (mapping envs)
            → get_field name envs ≡ some other
            → is_http_url urlsplit lower strip other ≡ true)
  unfolding resolve_safe_base_url validate_app_urls check_url
  resolve_safe_base_url_lem app_def environment url h =
      elim (Bool-cases (validate_app_urls urlsplit lower strip false (mapping app_def))) [
        | inr e ↦ let bad : some config_error ≡ some (ok url) = sym (rw e refl) ∙ h in cc bad
        | inl e ↦
            let (safe, found) =
              chosen (resolve_base_url app_def environment) (sym (rw e refl) ∙ h) in
            (
              safe,
              found,
              (λ main g. and-true_left _ true (
                  ap (λ o. check_given urlsplit lower strip false o && true) (sym g)
                  ∙ rw
                      (and-true_left
                        (check_given urlsplit lower strip false (get_field "url" app_def)) _ e)
                      refl)),
              (λ envs name other g k.
                  check_each-get name other envs
                    (ap (check_environments urlsplit lower strip false) (sym g)
                      ∙ and-true_right
                          (check_given urlsplit lower strip false (get_field "url" app_def)) _ e)
                    k),
            )
      ]
    where
      chosen :
          (o : Option (Loaded Value))
          → safe_or_error o ≡ some (ok url)
          → (is_http_url urlsplit lower strip url ≡ true) × (o ≡ some (ok url))
      chosen none q = cc q
      chosen (some config_error) q = cc q
      chosen (some (ok v)) q = elim (Bool-cases (is_http_url urlsplit lower strip v)) [
        | inr f ↦ let bad : some config_error ≡ some (ok url) = sym (rw f refl) ∙ q in cc bad
        | inl f ↦
            let done : some (ok v) ≡ some (ok url) = sym (rw f refl) ∙ q in
            let same : v ≡ url = cc done in
            (ap (is_http_url urlsplit lower strip) (sym same) ∙ f, done)
      ]
