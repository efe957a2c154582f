-- ===== src/VersionSkew/Parsing.antt =====
-- What the pattern of harness/version_skew.py reads.
use testharness.Prelude.{
  ℕ, ◌≤◌, ◌≡◌, refl, Bool, true, false, some, List, [], ◌∷◌, ◌++◌, arith, ltb, ◌==◌, length, All,
}
use testharness.VersionSkew.{
  is_space, is_digit, skip_spaces, skip_v, take_digits, int_from, int_of, max_str_digits,
  match_number, match_part, match_version, to_version, parse_codes,
}

abbrev pub IsDigit : ℕ → Type 0
IsDigit c = is_digit c ≡ true

-- What follows the number does not go on with a digit.
abbrev pub EndsNumber : List ℕ → Type 0
EndsNumber [] = Unit
EndsNumber (c ∷ s) = is_digit c ≡ false

-- A text of digits, not empty and within the limit of `int`.
abbrev pub IsNumber : List ℕ → Type 0
IsNumber [] = ⊥
IsNumber (d ∷ ds) = All IsDigit (d ∷ ds) × (length (d ∷ ds) ≤ max_str_digits)

abbrev pub IsSpace : ℕ → Type 0
IsSpace c = is_space c ≡ true

abbrev pub value : List ℕ → ℕ
value ds = int_from 0 ds

take_digits-append :
    (ds rest : List ℕ) → All IsDigit ds → EndsNumber rest → take_digits (ds ++ rest) ≡ (ds, rest)
unfolding take_digits
take_digits-append [] [] h e = refl
take_digits-append [] (c ∷ rest) h e = rw e
take_digits-append (d ∷ ds) rest h e = rw (h.0, take_digits-append ds rest h.1 e)

match_number-append :
    (ds rest : List ℕ) → IsNumber ds → EndsNumber rest → match_number (ds ++ rest) ≡ some (ds, rest)
unfolding match_number
match_number-append [] rest h e = absurd h
match_number-append (d ∷ ds) rest h e = rw (take_digits-append (d ∷ ds) rest h.0 e)

match_part-append :
    (ds rest : List ℕ)
    → IsNumber ds
    → EndsNumber rest
    → match_part (b'.' ∷ (ds ++ rest)) ≡ (ds, rest)
unfolding match_part
match_part-append ds rest h e = rw (match_number-append ds rest h e)

-- Digits are neither spaces nor a `v`.
digit_apart : (d : ℕ) → is_digit d ≡ true → (is_space d ≡ false) × ((d == b'v') ≡ false)
unfolding is_digit is_space
digit_apart d h = ground arith

skip_spaces-append :
    (spaces rest : List ℕ)
    → All IsSpace spaces
    → skip_spaces rest ≡ rest
    → skip_spaces (spaces ++ rest) ≡ rest
unfolding skip_spaces
skip_spaces-append [] rest h e = e
skip_spaces-append (c ∷ spaces) rest h e = rw (h.0) (skip_spaces-append spaces rest h.1 e)

-- An optional `v`.
abbrev pub optional_v : Bool → List ℕ → List ℕ
optional_v true s = b'v' ∷ s
optional_v false s = s

skip_front :
    (with_v : Bool) (spaces ds rest : List ℕ)
    → All IsSpace spaces
    → IsNumber ds
    → skip_v (skip_spaces (spaces ++ optional_v with_v (ds ++ rest))) ≡ ds ++ rest
skip_front with_v spaces [] rest h n = absurd n
skip_front true spaces (d ∷ ds) rest h n =
    rw (skip_spaces-append spaces (b'v' ∷ d ∷ (ds ++ rest)) h (unfold skip_spaces is_space in refl))
      (unfold skip_v in refl)
skip_front false spaces (d ∷ ds) rest h n =
    rw
      (skip_spaces-append spaces (d ∷ (ds ++ rest)) h
        (unfold skip_spaces in rw ((digit_apart d n.0.0).0)))
      (unfold skip_v in rw ((digit_apart d n.0.0).1))

int_of-IsNumber : (ds : List ℕ) → IsNumber ds → int_of ds ≡ some (value ds)
unfolding int_of
int_of-IsNumber [] h = absurd h
int_of-IsNumber (d ∷ ds) h = rw (leb_not_ltb (length (d ∷ ds)) max_str_digits h.1)
  where
    leb_not_ltb : (a b : ℕ) → a ≤ b → ltb b a ≡ false
    leb_not_ltb a b le = ground arith

to_version-IsNumber :
    (a b c : List ℕ)
    → IsNumber a
    → IsNumber b
    → IsNumber c
    → to_version (a, b, c) ≡ some (record { major = value a; minor = value b; patch = value c })
unfolding to_version
to_version-IsNumber a b c ha hb hc =
    rw (int_of-IsNumber a ha, int_of-IsNumber b hb, int_of-IsNumber c hc)

-- A text of three dotted numbers, with spaces and a `v` before them or not, and followed by
-- anything that is no digit (such as `-rc1`), is read as those three numbers.
pub parse_codes-dotted :
    (with_v : Bool) (spaces a b c suffix : List ℕ)
    → All IsSpace spaces
    → IsNumber a
    → IsNumber b
    → IsNumber c
    → EndsNumber suffix
    → parse_codes (spaces ++ optional_v with_v (a ++ b'.' ∷ (b ++ b'.' ∷ (c ++ suffix))))
      ≡ some (record { major = value a; minor = value b; patch = value c })
unfolding parse_codes is_digit
parse_codes-dotted with_v spaces a b c suffix hs ha hb hc e =
    rw groups (to_version-IsNumber a b c ha hb hc)
  where
    rest : List ℕ
    rest = b'.' ∷ (b ++ b'.' ∷ (c ++ suffix))

    first :
        match_number (skip_v (skip_spaces (spaces ++ optional_v with_v (a ++ rest))))
        ≡ some (a, rest)
    first = rw (skip_front with_v spaces a rest hs ha) (match_number-append a rest ha refl)

    groups : match_version (spaces ++ optional_v with_v (a ++ rest)) ≡ some (a, b, c)
    groups =
        unfold match_version in
        rw (
          first,
          match_part-append b (b'.' ∷ (c ++ suffix)) hb refl,
          match_part-append c suffix hc e,
        )
