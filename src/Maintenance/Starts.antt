-- ===== src/Maintenance/Starts.antt =====
-- Windows described by their starts: a window of some length is open if it started within that length.
use testharness.Prelude.{
  ℕ, zero, suc, ◌+◌, ◌-◌, ◌≤◌, ◌<◌, ◌≡◌, refl, sym, inl, inr, Bool, true, false, ◌&&◌, ◌||◌, leb,
  arith, Bool-cases,
}

-- One of the `n` seconds up to `t` is a start.
unfoldable pub started_within : (ℕ → Bool) → ℕ → ℕ → Bool
started_within is_start t zero = false
started_within is_start t (suc k) = (leb k t && is_start (t - k)) || started_within is_start t k

pub started_within-start :
    (is_start : ℕ → Bool) (t n : ℕ)
    → started_within is_start t n ≡ true
    → (c : ℕ) × (is_start c ≡ true) × (c ≤ t) × (t < c + n)
unfolding started_within
started_within-start is_start t zero h = cc h
started_within-start is_start t (suc k) h = elim (Bool-cases (leb k t && is_start (t - k))) [
  | inl e ↦ (t - k, ground (arith, e), omega arith, ground (arith, e))
  | inr e ↦
      let (c, s, before, within) = started_within-start is_start t k (rw e at h) in
      (c, s, before, omega (arith, within))
]

pub start-started_within :
    (is_start : ℕ → Bool) (t n c : ℕ)
    → is_start c ≡ true
    → c ≤ t
    → t < c + n
    → started_within is_start t n ≡ true
unfolding started_within
start-started_within is_start t zero c s before within = absurd (omega (arith, before, within))
start-started_within is_start t (suc k) c s before within = elim (Bool-cases (leb (c + k) t)) [
  | inl e ↦
      let here : t - k ≡ c = ground (arith, e, within) in
      let low : leb k t ≡ true = ground (arith, e) in rw (low, here, s)
  | inr e ↦
      let rest = start-started_within is_start t k c s before (ground (arith, e)) in
      elim (Bool-cases (leb k t && is_start (t - k))) [ inl f ↦ rw f | inr f ↦ rw f rest ]
]

pub same_test : (a b : Bool) → (a ≡ true → b ≡ true) → (b ≡ true → a ≡ true) → a ≡ b
same_test true b there back = sym (there refl)
same_test false true there back = back refl
same_test false false there back = refl
