-- ===== src/Maintenance/Weekly.antt =====
-- The weekly windows of harness/maintenance.py.
use testharness.Prelude.{
  ℕ, ◌+◌, ◌-◌, ◌*◌, ◌/◌, ◌%◌, ◌≤◌, ◌<◌, ◌≡◌, subst, inl, inr, ◌⊎◌, Bool, true, ◌&&◌, some, ◌==◌,
  arith, Bool-cases,
}
use testharness.Maintenance.{weekday, open_on, weekly_open}
use testharness.Maintenance.Starts.{
  started_within, started_within-start, start-started_within, same_test,
}

-- The weekly windows start at second `st` of the days in question.
unfoldable pub is_weekly_start : (ℕ → Bool) → ℕ → ℕ → Bool
is_weekly_start is_target st u = is_target (weekday (u / 86400)) && u % 86400 == st

module _ (is_target : ℕ → Bool) (st span t : ℕ) where
  open_on-start :
      (day : ℕ)
      → st < 86400
      → open_on is_target st (some span) t day ≡ true
      → (c : ℕ) × (is_weekly_start is_target st c ≡ true) × (c ≤ t) × (t < c + span)
  unfolding is_weekly_start
  open_on-start day small h =
      let here : (day * 86400 + st) / 86400 ≡ day = omega (arith, small) in
      let second : (day * 86400 + st) % 86400 ≡ st = omega (arith, small) in
      (
        day * 86400 + st,
        rw (here, second) (ground (arith, h)),
        ground (arith, h),
        ground (arith, h),
      )

  start-open_on :
      (c : ℕ)
      → is_weekly_start is_target st c ≡ true
      → c ≤ t
      → t < c + span
      → open_on is_target st (some span) t (c / 86400) ≡ true
  unfolding is_weekly_start
  start-open_on c s before within =
      let second : c % 86400 ≡ st = ground (arith, s) in
      let start : c / 86400 * 86400 + st ≡ c = omega (arith, second) in
      rw start (ground (arith, s, before, within))

  last_two_days :
      (day : ℕ)
      → day * 86400 + st ≤ t
      → t < day * 86400 + 172800
      → (day ≡ t / 86400) ⊎ (day ≡ t / 86400 - 1)
  last_two_days day before within = elim (Bool-cases (day == t / 86400)) [
    | inl e ↦ inl (ground (arith, e))
    | inr e ↦ inr (ground (arith, e, before, within))
  ]

-- A weekly window is open exactly if a start of it, second `st` of one of its days, was less than `span` seconds
-- ago, as long as it ends before the second midnight after its start. (The code looks at two days alone.)
pub weekly_open_lem :
    (is_target : ℕ → Bool) (st span t : ℕ)
    → st < 86400
    → st + span ≤ 172800
    → weekly_open is_target st (some span) t ≡ started_within (is_weekly_start is_target st) t span
unfolding weekly_open
weekly_open_lem is_target st span t small short = same_test _ _ there back
  where
    today : ℕ
    today = t / 86400

    there :
        weekly_open is_target st (some span) t ≡ true
        → started_within (is_weekly_start is_target st) t span ≡ true
    there h = elim (Bool-cases (open_on is_target st (some span) t today)) [
      | inl e ↦
          let (c, s, before, within) = open_on-start is_target st span t today small e in
          start-started_within (is_weekly_start is_target st) t span c s before within
      | inr e ↦
          let (c, s, before, within) =
            open_on-start is_target st span t (today - 1) small (rw e at h) in
          start-started_within (is_weekly_start is_target st) t span c s before within
    ]

    back :
        started_within (is_weekly_start is_target st) t span ≡ true
        → weekly_open is_target st (some span) t ≡ true
    back h =
        let (c, s, before, within) = started_within-start (is_weekly_start is_target st) t span h in
        let found : open_on is_target st (some span) t (c / 86400) ≡ true =
          start-open_on is_target st span t c s before within in
        let two : (c / 86400 ≡ today) ⊎ (c / 86400 ≡ today - 1) =
          last_two_days is_target st span t (c / 86400) (ground (arith, found))
            (ground (arith, found, short)) in
        elim two [
          | inl e ↦
              let on_day : open_on is_target st (some span) t today ≡ true =
                subst (λ d. open_on is_target st (some span) t d ≡ true) e found in
              rw on_day
          | inr e ↦
              let on_day : open_on is_target st (some span) t (today - 1) ≡ true =
                subst (λ d. open_on is_target st (some span) t d ≡ true) e found in
              elim (Bool-cases (open_on is_target st (some span) t today)) [
                | inl f ↦ rw f
                | inr f ↦ rw f on_day
              ]
        ]
