-- ===== src/RateLimit/Window.antt =====
-- When web/ratelimit.py limits a key, and for how long.
use testharness.Prelude.{
  ℕ, zero, suc, ◌+◌, ◌-◌, ◌*◌, ◌≤◌, ◌<◌, String, ◌≡◌, ◌↔◌, refl, sym, ap, ◌∙◌, inl, inr, Bool,
  false, Option, none, some, List, [], ◌∷◌, arith, ltb, leb, if◌then◌else◌, Bool-cases, length, All,
  count_where,
}
use testharness.RateLimit.{
  Limiter, expire, get, prune, is_limited, get_elem?, wait_for, retry_after,
}

-- The events stand in the order of their times, as a monotonic clock leaves them.
abbrev pub IsOrdered : List ℕ → Type 0
IsOrdered [] = Unit
IsOrdered (t ∷ q) = All (λ u. t ≤ u) q × IsOrdered q

-- now - window < t : the event is inside the window that ends now
abbrev pub is_recent : ℕ → ℕ → ℕ → Bool
is_recent window now t = ltb now (t + window)

-- The events of a key, none if it has no queue.
abbrev pub or_empty : Option (List ℕ) → List ℕ
or_empty none = []
or_empty (some q) = q

unfoldable pub events_of : String → Limiter → List ℕ
unfolding get
events_of key l = or_empty (get key l.events)

expired_before :
    (window now t : ℕ) (q : List ℕ)
    → now < t + window
    → All (λ u. t ≤ u) q
    → count_where (is_recent window now) q ≡ length q
unfolding count_where
expired_before window now t [] h a = refl
expired_before window now t (u ∷ q) h a = ground (arith, a.0, expired_before window now t q h a.1)

length-expire :
    (window now : ℕ) (q : List ℕ)
    → IsOrdered q
    → length (expire window now q) ≡ count_where (is_recent window now) q
unfolding expire count_where
length-expire window now [] o = refl
length-expire window now (t ∷ q) o =
    ground (arith, length-expire window now q o.1, expired_before window now t q)

pruned_queue :
    (key : String) (window now : ℕ) (l : Limiter)
    → (prune key window now l.events).0 ≡ expire window now (events_of key l)
unfolding prune events_of expire
pruned_queue key window now l = ground arith

-- If a key's events are in order, it is limited exactly while it has at least `max_events` events
-- less than a window old.
pub is_limited_lem :
    (key : String) (now : ℕ) (l : Limiter)
    → IsOrdered (events_of key l)
    → (is_limited key now l).0
      ≡ leb l.max_events (count_where (is_recent l.window now) (events_of key l))
unfolding is_limited
is_limited_lem key now l o =
    ap (λ q. leb l.max_events (length q)) (pruned_queue key l.window now l)
    ∙ ap (leb l.max_events) (length-expire l.window now (events_of key l) o)

count_where-le : (p : ℕ → Bool) (xs : List ℕ) → count_where p xs ≤ length xs
unfolding count_where
count_where-le p [] = omega arith
count_where-le p (x ∷ xs) = ground (arith, count_where-le p xs)

get_elem?-le : (q : List ℕ) (i t u : ℕ) → get_elem? q i ≡ some t → All (λ x. u ≤ x) q → u ≤ t
unfolding get_elem?
get_elem?-le [] i t u e a = cc
get_elem?-le (x ∷ q) zero t u e a = ground (arith, a.0)
get_elem?-le (x ∷ q) (suc i) t u e a = get_elem?-le q i t u e a.1

get_elem?-some : (q : List ℕ) (i : ℕ) → i < length q → (t : ℕ) × (get_elem? q i ≡ some t)
unfolding get_elem?
get_elem?-some [] i h = absurd (omega arith)
get_elem?-some (x ∷ q) zero h = (x, refl)
get_elem?-some (x ∷ q) (suc i) h = get_elem?-some q i (omega arith)

-- A queue has lost more than `i` events once its event `i` has expired.
recent_after :
    (window later i : ℕ) (q : List ℕ) (t : ℕ)
    → IsOrdered q
    → get_elem? q i ≡ some t
    → t + window ≤ later
    → count_where (is_recent window later) q + i < length q
unfolding get_elem? count_where
recent_after window later i [] t o e h = cc
recent_after window later zero (u ∷ q) t o e h =
    ground (arith, count_where-le (is_recent window later) q)
recent_after window later (suc i) (u ∷ q) t o e h =
    ground (arith, get_elem?-le q i t u e o.0, recent_after window later i q t o.1 e h)

expire-IsOrdered : (window now : ℕ) (q : List ℕ) → IsOrdered q → IsOrdered (expire window now q)
unfolding expire
expire-IsOrdered window now [] o = tt
expire-IsOrdered window now (t ∷ q) o = elim (Bool-cases (leb (t + window) now)) [
  | inl e ↦ rw e (expire-IsOrdered window now q o.1)
  | inr e ↦ rw e o
]

-- What has expired stays expired.
count_where-expire :
    (window now later : ℕ) (q : List ℕ)
    → now ≤ later
    → count_where (is_recent window later) (expire window now q)
      ≡ count_where (is_recent window later) q
unfolding expire count_where
count_where-expire window now later [] h = refl
count_where-expire window now later (t ∷ q) h =
    ground (arith, count_where-expire window now later q h)

-- After the wait the decisive event has expired.
wait_for-enough :
    (second window now oldest : ℕ)
    → 0 < second
    → oldest + window ≤ now + wait_for second window now oldest * second
wait_for-enough second window now oldest h = grind arith

wait_for-pos : (second window now oldest : ℕ) → 0 < wait_for second window now oldest
wait_for-pos second window now oldest = omega arith

abbrev pub retry_wait : ℕ → ℕ → ℕ → ℕ → Option ℕ → Option ℕ
retry_wait second max_events window now none = none
retry_wait second max_events window now (some oldest) = some (wait_for second window now oldest)

retry_after-queue :
    (second : ℕ) (key : String) (now : ℕ) (l : Limiter)
    → let q = expire l.window now (events_of key l) in
      (retry_after second key now l).0 ≡ (
        if ltb (length q) l.max_events
        then some 0
        else retry_wait second l.max_events l.window now (get_elem? q (length q - l.max_events)))
unfolding retry_after
retry_after-queue second key now l = rw (← pruned_queue key l.window now l) (ground arith)

-- For a key whose events are in order, on a limiter that allows some event, `retry_after` returns.
-- It returns 0 exactly if the key is not limited, and after as many seconds as it returns, with no
-- event between, the key is not limited.
pub retry_after_lem :
    (second : ℕ) (key : String) (now : ℕ) (l : Limiter)
    → 0 < second
    → 0 < l.max_events
    → IsOrdered (events_of key l)
    → (wait : ℕ) × ((retry_after second key now l).0 ≡ some wait)
      × ((wait ≡ 0) ↔ ((is_limited key now l).0 ≡ false))
      × ((is_limited key (now + wait * second) l).0 ≡ false)
retry_after_lem second key now l hs hm o = elim (Bool-cases (ltb (length q) l.max_events)) [
  | inl free ↦ (
    0,
    retry_after-queue second key now l ∙ rw free,
    ((λ _. limited_now ∙ ground arith), (λ _. refl)),
    rw (now_again) (limited_now ∙ ground arith),
  )
  | inr full ↦
      let (t, e) = get_elem?-some q (length q - l.max_events) (ground arith) in
      let w = wait_for second l.window now t in
      (
        w,
        retry_after-queue second key now l ∙ rw (full, e),
        (
          (λ z. absurd (omega (arith, wait_for-pos second l.window now t))),
          (λ z. ground (arith, limited_now)),
        ),
        rw (is_limited_lem key (now + w * second) l o) (
            ground (
              arith,
              wait_for-enough second l.window now t hs,
              count_where-expire l.window now (now + w * second) (events_of key l) (omega arith),
              recent_after l.window (now + w * second) (length q - l.max_events) q t
                  (expire-IsOrdered l.window now (events_of key l) o) e
                  (wait_for-enough second l.window now t hs),
            )),
      )
]
  where
    q : List ℕ
    q = expire l.window now (events_of key l)

    now_again : now + 0 * second ≡ now
    now_again = omega arith

    limited_now : (is_limited key now l).0 ≡ leb l.max_events (length q)
    limited_now =
        is_limited_lem key now l o
        ∙ ap (leb l.max_events) (sym (length-expire l.window now (events_of key l) o))
