-- ===== src/Config.antt =====
-- harness/config.py: the values of a configuration or an app definition, which may refer to variables.
pub mod Refs
pub mod Environ
pub mod Validate
pub mod Unknown
use testharness.Prelude.{
  ℕ, String, ◌=s=◌, Bool, true, false, not, ◌||◌, Option, none, some, if◌then◌else◌, ◌==◌,
}
use testharness.VersionSkew.{ℤ, pos, negsuc}

-- A value as YAML gives it; a number that is not whole is kept as its text, with whether it is 0. Keys are texts.
mutual
  pub data Value : Type 0 where
    null : Value
    bool : Bool → Value
    int : ℤ → Value
    float : Bool → String → Value
    text : String → Value
    items : Items → Value
    mapping : Fields → Value

  pub data Items : Type 0 where
    no_items : Items
    item : Value → Items → Items

  pub data Fields : Type 0 where
    no_fields : Fields
    field : String → Value → Fields → Fields

-- mapping.get(key)
abbrev pub get_field : String → Fields → Option Value
get_field key no_fields = none
get_field key (field k v fs) = let rest = get_field key fs in if k =s= key then some v else rest

-- mapping[key] = value, of a key that is there
abbrev pub set_field : String → Value → Fields → Fields
set_field key value no_fields = no_fields
set_field key value (field k v fs) =
    let rest = set_field key value fs in if k =s= key then field k value fs else field k v rest

-- bool(value)
abbrev pub is_truthy : Value → Bool
is_truthy null = false
is_truthy (bool b) = b
is_truthy (int (pos n)) = not (n == 0)
is_truthy (int (negsuc n)) = true
is_truthy (float is_zero shown) = not is_zero
is_truthy (text s) = not (s =s= "")
is_truthy (items no_items) = false
is_truthy (items (item v vs)) = true
is_truthy (mapping no_fields) = false
is_truthy (mapping (field k v fs)) = true

abbrev pub get_truthy : String → Fields → Bool
get_truthy key fs = truthy (get_field key fs)
  where
    truthy : Option Value → Bool
    truthy none = false
    truthy (some v) = is_truthy v

-- A value, or a ConfigError.
pub data Loaded {ℓ} (A : Type ℓ) : Type ℓ where
  ok : A → Loaded A
  config_error : Loaded A
