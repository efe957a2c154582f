-- ===== src/Config/Environ.antt =====
-- `app_environ` of harness/config.py: the part of the process environment that app definitions may refer to. The
-- matching of a name with a glob (`fnmatch.fnmatchcase`) is an argument, and the warnings are left out.
use testharness.Prelude.{
  ℕ, String, ◌=s=◌, eq_iff, ◌≡◌, refl, ◌∙◌, inl, inr, arith, Bool-cases, Bool, true, false, ◌&&◌,
  ◌||◌, Option, none, some, List, [], ◌∷◌, ◌==◌, if◌then◌else◌, codes, has_code, ◌⊎◌, In, All, sym,
  ap, and-true_left, and-true_right,
}
use testharness.Config.{
  Value, text, items, mapping, Items, no_items, item, Fields, no_fields, field, get_field,
  is_truthy,
}
use testharness.Config.Refs.{get}

-- [p for p in patterns if isinstance(p, str) and p]
abbrev with_pattern : String → List String → List String
with_pattern p rest = if p =s= "" then rest else p ∷ rest

abbrev texts_of : Items → List String
texts_of no_items = []
texts_of (item (text s) vs) = with_pattern s (texts_of vs)
texts_of (item v vs) = texts_of vs

abbrev keys_of : Fields → List String
keys_of no_fields = []
keys_of (field k v fs) = with_pattern k (keys_of fs)

-- The patterns of `apps_env_allowlist`; none is the TypeError of a value that is no list, which
-- `_validate_config` refuses before.
abbrev listed : Value → Option (List String)
listed (text s) = some (with_pattern s [])
listed (items vs) = some (texts_of vs)
listed (mapping fs) = some (keys_of fs)
listed _ = none

abbrev patterns_in : Option Value → Option (List String)
patterns_in none = some []
patterns_in (some v) = if is_truthy v then listed v else some []

unfoldable pub patterns_of : Fields → Option (List String)
patterns_of config = patterns_in (get_field "apps_env_allowlist" config)

abbrev only_wildcards : List ℕ → Bool
only_wildcards [] = true
only_wildcards (c ∷ cs) = (c == b'*' || c == b'?') && only_wildcards cs

unfoldable pub is_wildcard_only : String → Bool
is_wildcard_only pattern = has_code b'*' (codes pattern) && only_wildcards (codes pattern)

abbrev pub any_wild : List String → Bool
any_wild [] = false
any_wild (p ∷ ps) = is_wildcard_only p || any_wild ps

-- A pattern with a `*`, and nothing but `*` and `?`.
abbrev pub IsWildcard : String → Type 0
IsWildcard pattern = In b'*' (codes pattern) × All (λ c. (c ≡ b'*') ⊎ (c ≡ b'?')) (codes pattern)

has_code-In : (c : ℕ) (cs : List ℕ) → has_code c cs ≡ true → In c cs
has_code-In c [] h = cc h
has_code-In c (d ∷ cs) h = ground (arith, h, has_code-In c cs)

In-has_code : (c : ℕ) (cs : List ℕ) → In c cs → has_code c cs ≡ true
In-has_code c [] h = absurd h
In-has_code c (d ∷ cs) h = ground (arith, h, In-has_code c cs)

only_wildcards-All :
    (cs : List ℕ) → only_wildcards cs ≡ true → All (λ c. (c ≡ b'*') ⊎ (c ≡ b'?')) cs
only_wildcards-All [] h = tt
only_wildcards-All (c ∷ cs) h = ground (arith, h, only_wildcards-All cs)

All-only_wildcards :
    (cs : List ℕ) → All (λ c. (c ≡ b'*') ⊎ (c ≡ b'?')) cs → only_wildcards cs ≡ true
All-only_wildcards [] h = refl
All-only_wildcards (c ∷ cs) h = ground (arith, h.0, All-only_wildcards cs h.1)

is_wildcard_only-IsWildcard : (p : String) → is_wildcard_only p ≡ true → IsWildcard p
unfolding is_wildcard_only
is_wildcard_only-IsWildcard p h = (
  has_code-In b'*' (codes p) (and-true_left _ _ h),
  only_wildcards-All (codes p) (and-true_right _ _ h),
)

IsWildcard-is_wildcard_only : (p : String) → IsWildcard p → is_wildcard_only p ≡ true
unfolding is_wildcard_only
IsWildcard-is_wildcard_only p (star, only) =
    rw (In-has_code b'*' (codes p) star) (All-only_wildcards (codes p) only)

module _ (fnmatchcase : String → String → Bool) where
  abbrev pub matches_any : String → List String → Bool
  matches_any name [] = false
  matches_any name (p ∷ ps) = fnmatchcase name p || matches_any name ps

  abbrev pub visible : List String → List (String × String) → List (String × String)
  visible patterns [] = []
  visible patterns ((k, v) ∷ rest) =
      let others = visible patterns rest in
      if matches_any k patterns then (k, v) ∷ others else others

  abbrev is_nil : List String → Bool
  is_nil [] = true
  is_nil (p ∷ ps) = false

  unfoldable pub app_environ : List String → List (String × String) → List (String × String)
  unfolding is_wildcard_only
  app_environ patterns environ =
      if is_nil patterns
      then []
      else if any_wild patterns
      then environ
      else visible patterns environ

  get-visible :
      (patterns : List String) (name : String) (environ : List (String × String))
      → get name (visible patterns environ)
        ≡ (if matches_any name patterns then get name environ else none)
  get-visible patterns name [] = elim (Bool-cases (matches_any name patterns)) [
    | inl e ↦ rw e refl
    | inr e ↦ rw e refl
  ]
  get-visible patterns name ((k, v) ∷ rest) = elim (Bool-cases (k =s= name)) [
    | inl e ↦
        rw ((eq_iff k name).0 e)
          (ground (arith, (eq_iff name name).1 refl, get-visible patterns name rest))
    | inr e ↦ ground (arith, e, get-visible patterns name rest)
  ]

  -- A pattern of the list exposes the name, by matching it or as a wildcard for everything.
  abbrev pub Shows : String → List String → Type 0
  Shows name patterns = (p : String) × In p patterns × ((fnmatchcase name p ≡ true) ⊎ IsWildcard p)

  seen-Shows :
      (name : String) (patterns : List String)
      → (matches_any name patterns || any_wild patterns) ≡ true
      → Shows name patterns
  seen-Shows name [] h = cc h
  seen-Shows name (p ∷ ps) h = elim (Bool-cases (fnmatchcase name p)) [
    | inl e ↦ (p, inl refl, inl e)
    | inr e ↦ elim (Bool-cases (is_wildcard_only p)) [
      | inl w ↦ (p, inl refl, inr (is_wildcard_only-IsWildcard p w))
      | inr w ↦
          let (q, m, shown) = seen-Shows name ps (ground (arith, e, w, h)) in (q, inr m, shown)
    ]
  ]

  Shows-seen :
      (name : String) (patterns : List String)
      → Shows name patterns
      → (matches_any name patterns || any_wild patterns) ≡ true
  Shows-seen name [] (p, m, shown) = absurd m
  Shows-seen name (q ∷ ps) (p, inl same, inl e) =
      let here : fnmatchcase name q ≡ true = ap (fnmatchcase name) (sym same) ∙ e in
      ground (arith, here)
  Shows-seen name (q ∷ ps) (p, inl same, inr w) =
      let here : is_wildcard_only q ≡ true =
        ap is_wildcard_only (sym same) ∙ IsWildcard-is_wildcard_only p w in
      ground (arith, here)
  Shows-seen name (q ∷ ps) (p, inr m, shown) = ground (arith, Shows-seen name ps (p, m, shown))

  app_environ-get :
      (patterns : List String) (environ : List (String × String)) (name : String)
      → get name (app_environ patterns environ)
        ≡ (if matches_any name patterns || any_wild patterns then get name environ else none)
  unfolding app_environ
  app_environ-get [] environ name = refl
  app_environ-get (p ∷ ps) environ name = elim (Bool-cases (any_wild (p ∷ ps))) [
    | inl e ↦ elim (Bool-cases (matches_any name (p ∷ ps))) [
      | inl m ↦ rw (e, m) refl
      | inr m ↦ rw (e, m) refl
    ]
    | inr e ↦ elim (Bool-cases (matches_any name (p ∷ ps))) [
      | inl m ↦ rw (e, m) (get-visible (p ∷ ps) name environ ∙ rw m refl)
      | inr m ↦ rw (e, m) (get-visible (p ∷ ps) name environ ∙ rw m refl)
    ]
  ]

  -- App definitions see a variable of the process as it is if its name matches a pattern of the allowlist
  -- or some pattern has a `*` and consists of `*` and `?` alone; otherwise they do not see it at all.
  pub app_environ_lem :
      (patterns : List String) (environ : List (String × String)) (name : String)
      → (Shows name patterns × (get name (app_environ patterns environ) ≡ get name environ))
        ⊎ (¬ Shows name patterns × (get name (app_environ patterns environ) ≡ none))
  app_environ_lem patterns environ name =
      elim (Bool-cases (matches_any name patterns || any_wild patterns)) [
        | inl e ↦
            inl (seen-Shows name patterns e, app_environ-get patterns environ name ∙ rw e refl)
        | inr e ↦ inr (
          (λ shown. cc (Shows-seen name patterns shown, e)),
          app_environ-get patterns environ name ∙ rw e refl,
        )
      ]
