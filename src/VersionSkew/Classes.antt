-- ===== src/VersionSkew/Classes.antt =====
-- What the classes of harness/version_skew.py mean.
use testharness.Prelude.{
  ℕ, ◌+◌, ◌-◌, ◌≤◌, ◌<◌, ◌≡◌, ◌≢◌, Option, none, some, arith, ltb, ◌==◌, String, Bool-cases, inl,
  inr,
}
use testharness.VersionSkew.{
  Version, Skew, ok, stale, incompatible, unknown, ℤ, non_negative, parse_version, skew_of,
  classify_skew,
}

-- The classes by their definition in the documentation, which compares the parsed versions alone.
abbrev pub HasClass : Version → Version → ℕ → Skew → Type 0
HasClass w c allowed incompatible = w.major ≢ c.major
HasClass w c allowed stale = (w.major ≡ c.major) × (w.minor + allowed < c.minor)
HasClass w c allowed ok = (w.major ≡ c.major) × (c.minor ≤ w.minor + allowed)
HasClass w c allowed unknown = ⊥

skew_of-HasClass :
    (w c : Version) (n : ℤ) → HasClass w c (non_negative n) (skew_of (some w) (some c) n)
unfolding skew_of
skew_of-HasClass w c n = elim (Bool-cases (w.major == c.major)) [
  | inr e ↦ rw e (λ q. ground arith)
  | inl e ↦ elim (Bool-cases (ltb w.minor (c.minor - non_negative n))) [
    | inl t ↦ rw (e, t) (ground arith, ground arith)
    | inr t ↦ rw (e, t) (ground arith, ground arith)
  ]
]

-- Two versions that parse are classed by their major and minor numbers: incompatible if the majors
-- differ, stale if the worker is more minors behind than are allowed, and ok otherwise.
pub classify_skew-HasClass :
    (worker : Option String) (central : String) (n : ℤ) (w c : Version)
    → parse_version worker ≡ some w
    → parse_version (some central) ≡ some c
    → HasClass w c (non_negative n) (classify_skew worker central n)
unfolding classify_skew
classify_skew-HasClass worker central n w c pw pc = rw (pw, pc) (skew_of-HasClass w c n)

-- A worker that is upgraded within its major version, and was ok, stays ok, however far ahead of
-- the central harness it gets.
pub classify_skew-upgrade :
    (old new : Option String) (central : String) (n : ℤ) (v w : Version)
    → parse_version old ≡ some v
    → parse_version new ≡ some w
    → w.major ≡ v.major
    → v.minor ≤ w.minor
    → classify_skew old central n ≡ ok
    → classify_skew new central n ≡ ok
unfolding classify_skew
classify_skew-upgrade old new central n v w pv pw same up h =
    rw pw (newer (parse_version (some central)) (rw pv at h))
  where
    newer : (c : Option Version) → skew_of (some v) c n ≡ ok → skew_of (some w) c n ≡ ok
    newer none k = unfold skew_of in cc k
    newer (some c) k = unfold skew_of in ground (arith, k)
