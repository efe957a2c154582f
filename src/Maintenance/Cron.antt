-- ===== src/Maintenance/Cron.antt =====
-- The windows of a cron expression in harness/maintenance.py.
use testharness.Prelude.{
  ℕ, zero, suc, ◌+◌, ◌-◌, ◌≤◌, ◌<◌, ◌≡◌, inl, inr, Bool, true, false, Option, none, some, leb, ltb,
  arith, Bool-cases, Option-cases,
}
use testharness.Maintenance.{cron_from, cron_window_active}
use testharness.Maintenance.Starts.{
  started_within, started_within-start, start-started_within, same_test,
}

-- What `get_next_fire_time` gives: the first firing at or behind a time, if there is one.
pub record IsTrigger (is_firing : ℕ → Bool) (fire : ℕ → Option ℕ) : Type 0 where
  pub behind : (t c : ℕ) → fire t ≡ some c → t ≤ c
  pub firing : (t c : ℕ) → fire t ≡ some c → is_firing c ≡ true
  pub first : (t c u : ℕ) → fire t ≡ some c → t ≤ u → is_firing u ≡ true → c ≤ u
  pub complete : (t u : ℕ) → fire t ≡ none → t ≤ u → is_firing u ≡ false

module _ (is_firing : ℕ → Bool) (fire : ℕ → Option ℕ) (duration now : ℕ) where
  abbrev Open : Type 0
  Open = (c : ℕ) × (is_firing c ≡ true) × (c ≤ now) × (now < c + duration)

  cron_from-open :
      (turns t c : ℕ)
      → IsTrigger is_firing fire
      → fire t ≡ some c
      → cron_from fire duration now turns (some c) ≡ true
      → Open
  unfolding cron_from
  cron_from-open zero t c trigger e h = cc h
  cron_from-open (suc n) t c trigger e h = elim (Bool-cases (leb c now)) [
    | inr late ↦ cc (rw late at h)
    | inl early ↦ elim (Bool-cases (ltb now (c + duration))) [
      | inl inside ↦ (c, trigger.firing t c e, ground (arith, early), ground (arith, inside))
      | inr over ↦
          let next : cron_from fire duration now n (fire (suc c)) ≡ true = rw (early, over) at h in
          elim (Option-cases (fire (suc c))) [
            | inl none_left ↦ cc (rw (cron_from, none_left) at next)
            | inr (later, f) ↦ cron_from-open n (suc c) later trigger f (rw f at next)
          ]
    ]
  ]

  -- The second turn of the loop finds a start that the first one just missed.
  open-cron_from :
      (c0 c : ℕ)
      → IsTrigger is_firing fire
      → fire (now - duration) ≡ some c0
      → is_firing c ≡ true
      → c ≤ now
      → now < c + duration
      → cron_from fire duration now 2 (some c0) ≡ true
  unfolding cron_from
  open-cron_from c0 c trigger e s before within =
      let low : c0 ≤ c = trigger.first (now - duration) c0 c e (omega (arith, within)) s in
      let early : leb c0 now ≡ true = ground (arith, low, before) in
      elim (Bool-cases (ltb now (c0 + duration))) [
        | inl inside ↦ rw (early, inside)
        | inr over ↦
            let above : suc c0 ≤ c = ground (arith, over, within) in
            elim (Option-cases (fire (suc c0))) [
              | inl no_more ↦ absurd (ground (arith, s, trigger.complete (suc c0) c no_more above))
              | inr (c1, f) ↦
                  let next : c1 ≤ c = trigger.first (suc c0) c1 c f above s in
                  let behind : suc c0 ≤ c1 = trigger.behind (suc c0) c1 f in
                  let start : now - duration ≤ c0 = trigger.behind (now - duration) c0 e in
                  let on_time : leb c1 now ≡ true = ground (arith, next, before) in
                  let still : ltb now (c1 + duration) ≡ true = ground (arith, behind, start) in
                  rw (early, over, f, on_time, still)
            ]
      ]

-- With a trigger that gives the first firing at or behind a time, the window of a cron expression is open
-- exactly if the expression fired in the last `duration` seconds; two turns of the loop are enough for that.
pub cron_window_active_lem :
    (is_firing : ℕ → Bool) (fire : ℕ → Option ℕ) (duration now : ℕ)
    → IsTrigger is_firing fire
    → cron_window_active fire duration now ≡ started_within is_firing now duration
unfolding cron_window_active
cron_window_active_lem is_firing fire duration now trigger = same_test _ _ there back
  where
    there :
        cron_window_active fire duration now ≡ true → started_within is_firing now duration ≡ true
    there h = elim (Option-cases (fire (now - duration))) [
      | inl e ↦ cc (rw (cron_from, e) at h)
      | inr (c0, e) ↦
          let (c, s, before, within) =
            cron_from-open is_firing fire duration now 2 (now - duration) c0 trigger e
              (rw e at h) in
          start-started_within is_firing now duration c s before within
    ]

    back :
        started_within is_firing now duration ≡ true → cron_window_active fire duration now ≡ true
    back h =
        let (c, s, before, within) = started_within-start is_firing now duration h in
        elim (Option-cases (fire (now - duration))) [
          | inl e ↦
              absurd
                (ground (arith, s, trigger.complete (now - duration) c e (omega (arith, within))))
          | inr (c0, e) ↦
              rw e (open-cron_from is_firing fire duration now c0 c trigger e s before within)
        ]
