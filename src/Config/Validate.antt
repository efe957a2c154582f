-- ===== src/Config/Validate.antt =====
-- `_validate_config` and `load_config` of harness/config.py. `lower` of Python's texts is an argument.
use testharness.Prelude.{
  String, ◌=s=◌, Bool, true, false, not, ◌&&◌, ◌||◌, Option, none, some, List, [], ◌∷◌,
  if◌then◌else◌,
}
use testharness.Config.{
  Value, null, bool, int, text, items, mapping, Items, no_items, item, Fields, no_fields, get_field,
  set_field, is_truthy, get_truthy, Loaded, ok, config_error,
}
use testharness.Config.Refs.{resolve_env_vars}

-- The configuration as it is then, a ConfigError, or another exception.
pub data Checked : Type 0 where
  valid : Fields → Checked
  invalid : Checked
  raised : Checked

abbrev pub and_then : Checked → (Fields → Checked) → Checked
and_then (valid cfg) next = next cfg
and_then invalid next = invalid
and_then raised next = raised

abbrev valid_if : Bool → Fields → Checked
valid_if test cfg = if test then valid cfg else invalid

-- A section that is null becomes an empty one.
abbrev section_of : String → Fields → Option Value → Checked
section_of key cfg none = valid cfg
section_of key cfg (some null) = valid (set_field key (mapping no_fields) cfg)
section_of key cfg (some (mapping fs)) = valid cfg
section_of key cfg (some _) = invalid

abbrev check_section : String → Fields → Checked
check_section key cfg = section_of key cfg (get_field key cfg)

abbrev check_sections : List String → Fields → Checked
check_sections [] cfg = valid cfg
check_sections (key ∷ keys) cfg = and_then (check_section key cfg) (λ c. check_sections keys c)

abbrev section_names : List String
section_names = "auth" ∷ "environments" ∷ "alerts" ∷ "browser" ∷ "analytics" ∷ []

abbrev all_texts : Items → Bool
all_texts no_items = true
all_texts (item (text s) vs) = all_texts vs
all_texts (item v vs) = false

abbrev allowlist_of : Fields → Option Value → Checked
allowlist_of cfg none = valid cfg
allowlist_of cfg (some null) = valid (set_field "apps_env_allowlist" (items no_items) cfg)
allowlist_of cfg (some (items vs)) = valid_if (all_texts vs) cfg
allowlist_of cfg (some _) = invalid

abbrev check_allowlist : Fields → Checked
check_allowlist cfg = allowlist_of cfg (get_field "apps_env_allowlist" cfg)

-- isinstance(value, int), which a Boolean is too
abbrev is_int : Option Value → Bool
is_int none = true
is_int (some (bool b)) = true
is_int (some (int n)) = true
is_int (some _) = false

abbrev is_bool : Option Value → Bool
is_bool none = true
is_bool (some (bool b)) = true
is_bool (some _) = false

-- The section, if it is there and a mapping.
abbrev mapping_in : Option Value → Option Fields
mapping_in (some (mapping fs)) = some fs
mapping_in _ = none

abbrev browser_of : Fields → Option Fields → Checked
browser_of cfg none = valid cfg
browser_of cfg (some b) =
    valid_if (is_int (get_field "timeout_ms" b) && is_bool (get_field "headless" b)) cfg

abbrev check_browser : Fields → Checked
check_browser cfg = browser_of cfg (mapping_in (get_field "browser" cfg))

abbrev ldap_of : Fields → Option Value → Checked
ldap_of cfg none = valid cfg
ldap_of cfg (some (mapping ldap)) =
    valid_if
      (not (get_truthy "enabled" ldap)
        || (get_truthy "server" ldap
            && (get_truthy "base_dn" ldap && get_truthy "user_search_filter" ldap)))
      cfg
ldap_of cfg (some _) = invalid

abbrev auth_of : Fields → Option Fields → Checked
auth_of cfg none = valid cfg
auth_of cfg (some auth) = ldap_of cfg (get_field "ldap" auth)

abbrev check_ldap : Fields → Checked
check_ldap cfg = auth_of cfg (mapping_in (get_field "auth" cfg))

-- target.get("type") or "local", of a text; another value that is set has no `lower`.
abbrev type_of : Option Value → Option String
type_of none = some "local"
type_of (some (text s)) = some (if s =s= "" then "local" else s)
type_of (some v) = if is_truthy v then none else some "local"

module _ (lower : String → String) where
  abbrev type_ok : Fields → Fields → Option String → Checked
  type_ok cfg target none = raised
  type_ok cfg target (some shown) =
      let ttype = lower shown in
      valid_if (ttype =s= "local" || (ttype =s= "azure_blob" && get_truthy "container" target)) cfg

  abbrev target_of : Fields → Option Fields → Checked
  target_of cfg none = invalid
  target_of cfg (some target) = type_ok cfg target (type_of (get_field "type" target))

  abbrev analytics_of : Fields → Option Fields → Checked
  analytics_of cfg none = valid cfg
  analytics_of cfg (some analytics) =
      if get_truthy "enabled" analytics
      then target_of cfg (mapping_in (get_field "target" analytics))
      else valid cfg

  abbrev check_analytics : Fields → Checked
  check_analytics cfg = analytics_of cfg (mapping_in (get_field "analytics" cfg))

  unfoldable pub validate_config : Value → Checked
  validate_config (mapping cfg) = and_then (check_sections section_names cfg) (λ c.
      and_then (check_allowlist c)
        (λ c1. and_then (check_browser c1) (λ c2. and_then (check_ldap c2) check_analytics)))
  validate_config _ = invalid

  abbrev pub resolved : List (String × String) → Checked → Option (Loaded Value)
  resolved environ (valid cfg) = some (resolve_env_vars true [] environ (mapping cfg))
  resolved environ invalid = some config_error
  resolved environ raised = none

  abbrev raw_config : List (String × String) → Value → Option (Loaded Value)
  raw_config environ null = some (ok (mapping no_fields))
  raw_config environ raw = resolved environ (validate_config raw)

  -- `file` is what YAML reads, and none where there is no file; the result is none for another exception.
  unfoldable pub load_config : Option Value → List (String × String) → Option (Loaded Value)
  unfolding validate_config resolve_env_vars
  load_config none environ = some config_error
  load_config (some raw) environ = raw_config environ raw
