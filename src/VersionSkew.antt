-- ===== src/VersionSkew.antt =====
-- harness/version_skew.py. Version texts are ASCII: `codes` are their characters' numbers.
pub mod Parsing
pub mod Classes
use testharness.Prelude.{
  codes, ℕ, ◌+◌, ◌-◌, ◌*◌, String, ◌=s=◌, Bool, true, false, not, ◌&&◌, ◌||◌, Option, none, some,
  List, [], ◌∷◌, ltb, leb, ◌==◌, if◌then◌else◌, length,
}

pub record Version : Type 0 where
  pub major : ℕ
  pub minor : ℕ
  pub patch : ℕ

-- \s and \d of the pattern, among the ASCII characters
unfoldable pub is_space : ℕ → Bool
is_space c = c == 32 || (leb 9 c && leb c 13) || (leb 28 c && leb c 31)

unfoldable pub is_digit : ℕ → Bool
is_digit c = leb b'0' c && leb c b'9'

-- \s*
unfoldable pub skip_spaces : List ℕ → List ℕ
unfolding is_space
skip_spaces [] = []
skip_spaces (c ∷ s) = let rest = skip_spaces s in if is_space c then rest else c ∷ s

-- v?
unfoldable pub skip_v : List ℕ → List ℕ
skip_v [] = []
skip_v (c ∷ s) = if c == b'v' then s else c ∷ s

-- The longest prefix of digits, and the rest.
unfoldable pub take_digits : List ℕ → List ℕ × List ℕ
unfolding is_digit
take_digits [] = ([], [])
take_digits (c ∷ s) =
    let (ds, rest) = take_digits s in if is_digit c then (c ∷ ds, rest) else ([], c ∷ s)

unfoldable pub int_from : ℕ → List ℕ → ℕ
int_from n [] = n
int_from n (d ∷ ds) = int_from (n * 10 + (d - b'0')) ds

-- `int` of a text of digits refuses more than 4300 of them with a ValueError.
abbrev pub max_str_digits : ℕ
max_str_digits = 4300

unfoldable pub int_of : List ℕ → Option ℕ
unfolding int_from
int_of ds = if ltb max_str_digits (length ds) then none else some (int_from 0 ds)

abbrev non_empty : List ℕ → List ℕ → Option (List ℕ × List ℕ)
non_empty [] rest = none
non_empty (d ∷ ds) rest = some (d ∷ ds, rest)

-- \d+ : no match without a digit
unfoldable pub match_number : List ℕ → Option (List ℕ × List ℕ)
unfolding take_digits
match_number s = let (ds, rest) = take_digits s in non_empty ds rest

-- (?:\.(\d+))? : the group's text is empty where it does not match, so that `int(group or 0)` is 0
unfoldable pub match_part : List ℕ → List ℕ × List ℕ
unfolding match_number
match_part [] = ([], [])
match_part (c ∷ s) =
    let found = match_number s in
    if c == b'.' then elim found [ none ↦ ([], c ∷ s) | some r ↦ r ] else ([], c ∷ s)

-- The three groups, as texts.
abbrev match_parts : List ℕ × List ℕ → List ℕ × List ℕ × List ℕ
match_parts (major, rest) =
    let (minor, rest') = match_part rest in
    let (patch, _) = match_part rest' in (major, minor, patch)

abbrev pub matched : Option (List ℕ × List ℕ) → Option (List ℕ × List ℕ × List ℕ)
matched none = none
matched (some found) = some (match_parts found)

unfoldable pub match_version : List ℕ → Option (List ℕ × List ℕ × List ℕ)
match_version s = matched (match_number (skip_v (skip_spaces s)))

infixl 5 ◌>>=◌
abbrev ◌>>=◌ : {A B : Type 0} → Option A → (A → Option B) → Option B
none >>= f = none
some a >>= f = f a

-- The three conversions; a ValueError is caught.
unfoldable pub to_version : List ℕ × List ℕ × List ℕ → Option Version
unfolding int_of
to_version (major, minor, patch) = do
  a ← int_of major
  b ← int_of minor
  c ← int_of patch
  some (record { major = a; minor = b; patch = c })

unfoldable pub parse_codes : List ℕ → Option Version
parse_codes s = match_version s >>= to_version

-- The empty text does not match the pattern either.
unfoldable pub parse_version : Option String → Option Version
unfolding parse_codes match_version to_version match_number match_part skip_spaces skip_v
parse_version none = none
parse_version (some v) = if v =s= "" then none else parse_codes (codes v)

pub data Skew : Type 0 where
  ok stale incompatible unknown : Skew

-- `warning_minors`, an int of the configuration
pub data ℤ : Type 0 where
  pos : ℕ → ℤ
  negsuc : ℕ → ℤ

-- max(0, n)
abbrev pub non_negative : ℤ → ℕ
non_negative (pos n) = n
non_negative (negsuc n) = 0

abbrev pub default_warning_minors : ℤ
default_warning_minors = pos 2

-- Where `cv.minor` is below the allowance the source's difference is negative, and here 0: the
-- worker's minor is below neither.
unfoldable pub skew_of : Option Version → Option Version → ℤ → Skew
skew_of none cv warning_minors = unknown
skew_of (some wv) none warning_minors = unknown
skew_of (some wv) (some cv) warning_minors =
    if not (wv.major == cv.major)
    then incompatible
    else if ltb wv.minor (cv.minor - non_negative warning_minors)
    then stale
    else ok

unfoldable pub classify_skew : Option String → String → ℤ → Skew
unfolding parse_version skew_of
classify_skew worker_version central_version warning_minors =
    skew_of (parse_version worker_version) (parse_version (some central_version)) warning_minors

unfoldable pub is_version_stale : Option String → String → ℤ → Bool
unfolding classify_skew
is_version_stale worker_version central_version warning_minors =
    elim (classify_skew worker_version central_version warning_minors) [ stale ↦ true | _ ↦ false ]

unfoldable pub is_major_incompatible : Option String → String → Bool
unfolding classify_skew
is_major_incompatible worker_version central_version =
    elim (classify_skew worker_version central_version default_warning_minors) [
      | incompatible ↦ true
      | _ ↦ false
    ]

-- `notice` stands for the text of the message.
unfoldable pub incompatibility_notice :
    (Option String → String → String) → Option String → String → Option String
unfolding is_major_incompatible
incompatibility_notice notice worker_version central_version =
    if not (is_major_incompatible worker_version central_version)
    then none
    else some (notice worker_version central_version)
