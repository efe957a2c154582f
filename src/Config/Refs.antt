-- ===== src/Config/Refs.antt =====
-- `$VAR` references of harness/config.py: `_ENV_REF`, `_INLINE_REF`, `_resolve_var` and `resolve_env_vars`.
use Prim.Native.Char.{code}
use testharness.Prelude.{
  ℕ, zero, suc, String, ◌=s=◌, Bool, false, not, ◌&&◌, ◌||◌, Option, none, some, List, [], ◌∷◌,
  ◌==◌, leb, if◌then◌else◌, is_none, codes, has_code,
}
use testharness.Config.{
  Value, null, bool, int, float, text, items, mapping, Items, no_items, item, Fields, no_fields,
  field, Loaded, ok, config_error,
}

abbrev pub append : String → String → String
append String.[] t = t
append (String.◌∷◌ c s) t = String.◌∷◌ c (append s t)

abbrev pub text_length : String → ℕ
text_length String.[] = 0
text_length (String.◌∷◌ c s) = suc (text_length s)

abbrev is_letter : ℕ → Bool
is_letter c = (leb 65 c && leb c 90) || (leb 97 c && leb c 122)

-- [A-Za-z_]
abbrev pub is_first : ℕ → Bool
is_first c = is_letter c || c == b'_'

-- [A-Za-z0-9_]
abbrev pub is_ident : ℕ → Bool
is_ident c = is_first c || (leb 48 c && leb c 57)

-- [A-Za-z0-9_-]
abbrev pub is_env : ℕ → Bool
is_env c = is_ident c || c == b'-'

-- The longest start of a text whose characters pass, and what follows.
unfoldable pub span : (ℕ → Bool) → String → String × String
span p String.[] = ("", "")
span p (String.◌∷◌ c s) =
    let (front, back) = span p s in
    if p (code c) then (String.◌∷◌ c front, back) else ("", String.◌∷◌ c s)

-- (#[A-Za-z0-9_-]+)?
unfoldable pub suffix : String → String × String
unfolding span
suffix String.[] = ("", "")
suffix (String.◌∷◌ c s) =
    let (env, back) = span is_env s in
    if code c == b'#' && not (env =s= "") then (String.◌∷◌ c env, back) else ("", String.◌∷◌ c s)

-- The name at the start of a text and what follows it.
unfoldable pub name_at : String → Option (String × String)
unfolding span suffix
name_at String.[] = none
name_at (String.◌∷◌ c s) =
    let (front, back) = span is_ident s in
    let (env, rest) = suffix back in
    if is_first (code c) then some (String.◌∷◌ c (append front env), rest) else none

-- `$` of a regular expression also matches before a line break at the end.
abbrev is_end : String → Bool
is_end rest = rest =s= "" || rest =s= "\n"

abbrev whole : Option (String × String) → Bool
whole none = false
whole (some (name, rest)) = is_end rest

-- _ENV_REF.match
unfoldable pub is_env_ref : String → Bool
unfolding name_at
is_env_ref String.[] = false
is_env_ref (String.◌∷◌ c s) = if code c == b'$' then whole (name_at s) else false

-- name.split("#", 1)[0]
abbrev pub base_name : String → String
base_name String.[] = ""
base_name (String.◌∷◌ c s) =
    let rest = base_name s in if code c == b'#' then "" else String.◌∷◌ c rest

abbrev pub get : String → List (String × String) → Option String
get name [] = none
get name ((k, v) ∷ rest) = let found = get name rest in if k =s= name then some v else found

-- extra.get(name) or environ.get(name); an empty text counts as missing in `extra` only
abbrev falls_through : Option String → Option String → Option String
falls_through none other = other
falls_through (some value) other = if value =s= "" then other else some value

abbrev or_error : Bool → Option String → Loaded (Option String)
or_error strict (some value) = ok (some value)
or_error strict none = if strict then config_error else ok none

module _ (strict : Bool) (extra : List (String × String)) (environ : List (String × String)) where
  abbrev pub look_up : String → Option String
  look_up name = falls_through (get name extra) (get name environ)

  unfoldable pub resolve_var : String → Loaded (Option String)
  resolve_var name =
      if has_code b'#' (codes name) && is_none (look_up name)
      then or_error strict (look_up (base_name name))
      else or_error strict (look_up name)

  -- The value, or the text of the reference.
  abbrev pub value_or : String → Loaded (Option String) → Loaded String
  value_or ref config_error = config_error
  value_or ref (ok none) = ok ref
  value_or ref (ok (some value)) = ok value

  abbrev pub joined : Loaded String → Loaded String → Loaded String
  joined config_error rest = config_error
  joined (ok front) config_error = config_error
  joined (ok front) (ok back) = ok (append front back)

  -- A reference behind a `$`, with what follows its name, or the `$` itself.
  abbrev pub substituted : String → Option (String × String) → (ℕ → Loaded String) → Loaded String
  substituted dollar none continue = joined (ok dollar) (continue 0)
  substituted dollar (some (name, rest)) continue =
      joined (value_or (append dollar name) (resolve_var name)) (continue (text_length name))

  -- _INLINE_REF.sub; the first argument counts the characters of a reference that was just replaced.
  unfoldable pub inline_sub : ℕ → String → Loaded String
  unfolding resolve_var name_at
  inline_sub n String.[] = ok ""
  inline_sub (suc n) (String.◌∷◌ c s) = inline_sub n s
  inline_sub zero (String.◌∷◌ c s) =
      let here = String.◌∷◌ c "" in
      if code c == b'$'
      then substituted here (name_at s) (λ n. inline_sub n s)
      else joined (ok here) (inline_sub 0 s)

  abbrev pub tail : String → String
  tail String.[] = ""
  tail (String.◌∷◌ c s) = s

  unfoldable pub resolve_text : String → Loaded String
  unfolding is_env_ref inline_sub resolve_var
  resolve_text s =
      if not (has_code b'$' (codes s))
      then ok s
      else if is_env_ref s
      then value_or s (resolve_var (tail s))
      else inline_sub 0 s

  abbrev pub as_text : Loaded String → Loaded Value
  as_text config_error = config_error
  as_text (ok s) = ok (text s)

  abbrev pub as_items : Loaded Items → Loaded Value
  as_items config_error = config_error
  as_items (ok vs) = ok (items vs)

  abbrev pub as_mapping : Loaded Fields → Loaded Value
  as_mapping config_error = config_error
  as_mapping (ok fs) = ok (mapping fs)

  abbrev pub an_item : Loaded Value → Loaded Items → Loaded Items
  an_item config_error rest = config_error
  an_item (ok v) config_error = config_error
  an_item (ok v) (ok vs) = ok (item v vs)

  abbrev pub a_field : String → Loaded Value → Loaded Fields → Loaded Fields
  a_field k config_error rest = config_error
  a_field k (ok v) config_error = config_error
  a_field k (ok v) (ok fs) = ok (field k v fs)

  -- Keys are not resolved, and neither is a value that is no text.
  unfoldable mutual
    unfolding resolve_text

    pub resolve_env_vars : Value → Loaded Value
    resolve_env_vars null = ok null
    resolve_env_vars (bool b) = ok (bool b)
    resolve_env_vars (int n) = ok (int n)
    resolve_env_vars (float is_zero shown) = ok (float is_zero shown)
    resolve_env_vars (text s) = as_text (resolve_text s)
    resolve_env_vars (items vs) = as_items (resolve_items vs)
    resolve_env_vars (mapping fs) = as_mapping (resolve_fields fs)

    pub resolve_items : Items → Loaded Items
    resolve_items no_items = ok no_items
    resolve_items (item v vs) = an_item (resolve_env_vars v) (resolve_items vs)

    pub resolve_fields : Fields → Loaded Fields
    resolve_fields no_fields = ok no_fields
    resolve_fields (field k v fs) = a_field k (resolve_env_vars v) (resolve_fields fs)
