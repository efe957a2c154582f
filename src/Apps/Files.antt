-- ===== src/Apps/Files.antt =====
-- The files of the apps in harness/app_manager.py: those in the directory of the apps and the archived ones, by the
-- slug of their name. `dump` is the YAML text of a definition.
pub mod Kept
use Prim.Native.Char.{code}
use testharness.Prelude.{
  ℕ, String, ◌=s=◌, Bool, true, false, not, ◌&&◌, ◌||◌, Option, none, some, if◌then◌else◌, leb,
  ◌==◌, is_none, led_by,
}
use testharness.Config.{Value, text, Fields, mapping, get_field}
use testharness.Apps.Urls.{validate_app_urls}

-- re.sub(r"\s+", "-", name); the Boolean tells whether the character before was a blank.
abbrev dashed : (ℕ → Bool) → Bool → String → String
dashed is_space after String.[] = ""
dashed is_space after (String.◌∷◌ c s) =
    let more = dashed is_space true s in
    let rest = dashed is_space false s in
    if is_space (code c) then (if after then more else led_by "-" more) else String.◌∷◌ c rest

-- [a-z0-9-]
abbrev is_slug_char : ℕ → Bool
is_slug_char c = (leb 97 c && leb c 122) || ((leb 48 c && leb c 57) || c == b'-')

abbrev slug_chars : String → String
slug_chars String.[] = ""
slug_chars (String.◌∷◌ c s) =
    let rest = slug_chars s in if is_slug_char (code c) then String.◌∷◌ c rest else rest

pub record Files : Type 0 where
  pub active : String → Option String
  pub archived : String → Option String

abbrev pub put : String → String → (String → Option String) → String → Option String
put slug content files k = if slug =s= k then some content else files k

abbrev pub remove : String → (String → Option String) → String → Option String
remove slug files k = if slug =s= k then none else files k

-- The files after an operation, an AppManagerError (or its AppValidationError), or another exception.
pub data Managed : Type 0 where
  done : Files → Managed
  refused : Managed
  raised : Managed

module _ (is_space : ℕ → Bool) (strip : String → String) (lower : String → String) where
  unfoldable pub slugify_app_name : String → String
  slugify_app_name name = slug_chars (dashed is_space false (lower (strip name)))

  abbrev archived_as : String → Option String → Option String → Files → Managed
  archived_as slug none dest fs = refused
  archived_as slug (some content) (some other) fs = refused
  archived_as slug (some content) none fs =
      done (record { active = remove slug fs.active; archived = put slug content fs.archived })

  unfoldable pub archive_app : String → Files → Managed
  unfolding slugify_app_name
  archive_app app_name fs =
      let slug = slugify_app_name app_name in
      if slug =s= "" then refused else archived_as slug (fs.active slug) (fs.archived slug) fs

  abbrev restored_as : String → Option String → Option String → Files → Managed
  restored_as slug none dest fs = refused
  restored_as slug (some content) (some other) fs = refused
  restored_as slug (some content) none fs =
      done (record { active = put slug content fs.active; archived = remove slug fs.archived })

  unfoldable pub restore_app : String → Files → Managed
  unfolding slugify_app_name
  restore_app app_name fs =
      let slug = slugify_app_name app_name in
      restored_as slug (fs.archived slug) (fs.active slug) fs

  unfoldable pub delete_archived_app : String → Files → Managed
  unfolding slugify_app_name
  delete_archived_app app_name fs =
      let slug = slugify_app_name app_name in
      if is_none (fs.archived slug)
      then refused
      else done (record fs { archived = remove slug fs.archived })

  -- None for an AppManagerError.
  abbrev read_at : String → Files → Option String
  read_at slug fs = if slug =s= "" then none else fs.active slug

  unfoldable pub read_app_raw : String → Files → Option String
  unfolding slugify_app_name
  read_app_raw app_name fs = read_at (slugify_app_name app_name) fs

  module _ (urlsplit : String → Option (String × String)) (dump : Fields → String) where
    abbrev pub write_at : String → Fields → Files → Managed
    write_at slug app_def fs =
        if slug =s= "" || not (is_none (fs.active slug))
        then refused
        else done (record fs { active = put slug (dump app_def) fs.active })

    abbrev pub named_write : Fields → Files → Option Value → Managed
    named_write app_def fs none = refused
    named_write app_def fs (some (text name)) =
        if validate_app_urls urlsplit lower strip true (mapping app_def)
        then write_at (slugify_app_name name) app_def fs
        else refused
    named_write app_def fs (some _) =
        if validate_app_urls urlsplit lower strip true (mapping app_def) then raised else refused

    unfoldable pub write_app : Fields → Files → Managed
    unfolding slugify_app_name validate_app_urls
    write_app app_def fs = named_write app_def fs (get_field "app" app_def)

    unfoldable pub update_app : String → Fields → Files → Managed
    unfolding slugify_app_name validate_app_urls
    update_app app_name app_def fs =
        let slug = slugify_app_name app_name in
        if not (validate_app_urls urlsplit lower strip true (mapping app_def))
        then refused
        else if slug =s= "" || is_none (fs.active slug)
        then refused
        else done (record fs { active = put slug (dump app_def) fs.active })
