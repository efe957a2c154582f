-- ===== src/Tests/Settings.antt =====
-- Runs of the resolution of variables and of the operations on apps.
use testharness.Prelude.{
  ℕ, String, ◌=s=◌, ◌≡◌, refl, inl, ◌⊎◌, true, false, Bool, Option, none, some, List, [], ◌∷◌,
  if◌then◌else◌, starts_with,
}
use testharness.Config.{Value, text, mapping, Fields, no_fields, field, get_field, ok, config_error}
use testharness.Config.Refs.{
  get, resolve_env_vars, resolve_text, resolve_var, inline_sub, name_at, span, suffix, is_env_ref,
}
use testharness.Config.Unknown.{resolve_env_vars-unknown}
use testharness.Config.Environ.{is_wildcard_only, Shows, app_environ, app_environ_lem}
use testharness.Apps.Urls.{
  check_url, is_http_url, validate_app_urls, resolve_base_url, resolve_safe_base_url,
  resolve_safe_base_url_lem,
}
use testharness.Apps.Files.{Files, done, slugify_app_name, archive_app, restore_app}
use testharness.Apps.Files.Kept.{Holds, restore-archive, Op, run, run-Holds}

abbrev same : String → String
same s = s

abbrev shop : Fields
shop = field "app" (text "shop") (field "url" (text "https://shop $TOKEN") no_fields)

resolve_env_vars_example : resolve_env_vars false [] [] (mapping shop) ≡ ok (mapping shop)
resolve_env_vars_example = resolve_env_vars-unknown [] [] (λ name. refl) (mapping shop)

-- A reference inside of a text, and one with a line break behind it, which is a name of its own.
inline_example : resolve_text true (("TOKEN", "t1") ∷ []) [] "Bearer $TOKEN!" ≡ ok "Bearer t1!"
unfolding resolve_text inline_sub resolve_var name_at span suffix is_env_ref
inline_example = refl

line_break_example : resolve_text true (("TOKEN", "t1") ∷ []) [] "$TOKEN\n" ≡ config_error
unfolding resolve_text inline_sub resolve_var name_at span suffix is_env_ref
line_break_example = refl

abbrev process : List (String × String)
process = ("HARNESS_API_KEY", "k1") ∷ ("SHOP_URL", "u1") ∷ []

app_environ_example :
    (Shows starts_with "HARNESS_API_KEY" ("SHOP_" ∷ [])
      × (get "HARNESS_API_KEY" (app_environ starts_with ("SHOP_" ∷ []) process) ≡ some "k1"))
    ⊎ (¬ Shows starts_with "HARNESS_API_KEY" ("SHOP_" ∷ [])
        × (get "HARNESS_API_KEY" (app_environ starts_with ("SHOP_" ∷ []) process) ≡ none))
app_environ_example = app_environ_lem starts_with ("SHOP_" ∷ []) process "HARNESS_API_KEY"

-- `SHOP_*` is no wildcard for everything.
shop_star : is_wildcard_only "SHOP_*" ≡ false
unfolding is_wildcard_only
shop_star = refl

abbrev urlsplit : String → Option (String × String)
urlsplit s = some ("https", s)

resolve_safe_base_url_example :
    (is_http_url urlsplit same same (text "https://shop $TOKEN") ≡ true)
    × (resolve_base_url shop "production" ≡ some (ok (text "https://shop $TOKEN")))
    × ((main : Value)
        → get_field "url" shop ≡ some main
        → is_http_url urlsplit same same main ≡ true)
    × ((envs : Fields) (name : String) (other : Value)
        → get_field "environments" shop ≡ some (mapping envs)
        → get_field name envs ≡ some other
        → is_http_url urlsplit same same other ≡ true)
resolve_safe_base_url_example =
    resolve_safe_base_url_lem urlsplit same same shop "production" (text "https://shop $TOKEN") (
      unfold resolve_safe_base_url validate_app_urls check_url is_http_url resolve_base_url in refl)

abbrev is_blank : ℕ → Bool
is_blank c = false

abbrev no_files : String → Option String
no_files k = none

abbrev one_app : String → Option String
one_app k = if k =s= "shop" then some "app: shop" else none

abbrev stored : Files
stored = record { active = one_app; archived = no_files }

abbrev put_away : Files
put_away = record {
  active = λ k. if "shop" =s= k then none else one_app k;
  archived = λ k. if "shop" =s= k then some "app: shop" else none;
}

restore-archive_example :
    (fs'' : Files) × (restore_app is_blank same same "shop" put_away ≡ done fs'')
    × ((k : String) → (fs''.active k ≡ one_app k) × (fs''.archived k ≡ none))
restore-archive_example =
    restore-archive is_blank same same "shop" stored put_away
      (unfold archive_app slugify_app_name in refl)

abbrev dump : Fields → String
dump fs = "{}"

abbrev ops : List (Op is_blank same same urlsplit dump)
ops = Op.write shop ∷ Op.archive "shop" ∷ Op.restore "shop" ∷ []

run-Holds_example : Holds (run is_blank same same urlsplit dump ops stored) "shop" "app: shop"
run-Holds_example =
    run-Holds is_blank same same urlsplit dump ops stored "shop" "app: shop" (inl refl)
